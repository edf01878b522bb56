-- ===== src/Websocket/Connection.antt =====
-- internal/storage/websocket/connection.go: sending, waiting for an answer, reconnecting, closing.
-- A dialled connection is a number, and `wire` is what was written to each, in order.
use ocap2_extension.Prelude.{
  ℕ, zero, suc, String, Bool, true, false, List, [], ◌∷◌, ◌++◌, Option, none, some, ◌+◌, ◌*◌,
  length, ltb, string_eq, ◌==◌, if◌then◌else◌,
}
use ocap2_extension.Core.Dynamic.{str}
use ocap2_extension.Core.Result.{Outcome, ok, err, errorf}
use ocap2_extension.Streaming.{AckMessage}

pub record Connection : Type 0 where
  pub conn : Option ℕ
  pub send_ch : List String
  pub ack_ch : List AckMessage
  pub closed : Bool
  pub cached_start_msg : Option String
  pub wire : List (ℕ × String)

abbrev pub new_connection : Connection
new_connection = record {
  conn = none;
  send_ch = [];
  ack_ch = [];
  closed = false;
  cached_start_msg = none;
  wire = [];
}

abbrev pub send_ch_size : ℕ
send_ch_size = 10_000

-- A full channel drops the message.
unfoldable pub send : String → Connection → Connection
send text c =
    if ltb (length c.send_ch) send_ch_size then record c { send_ch = c.send_ch ++ text ∷ [] } else c

-- An iteration of `writeLoop` that takes a text: it is lost where no connection is there or the write
-- fails. A failed write ends the loop.
abbrev pub put : Bool → Option ℕ → String → List (ℕ × String) → List (ℕ × String)
put written (some id) text wire = if written then wire ++ (id, text) ∷ [] else wire
put written none text wire = wire

abbrev pub write_first : Bool → List String → Connection → Connection
write_first written [] c = c
write_first written (text ∷ texts) c = record c {
  send_ch = texts;
  wire = put written c.conn text c.wire;
}

unfoldable pub write_next : Bool → Connection → Connection
write_next written c = write_first written c.send_ch c

abbrev pub ack_ch_size : ℕ
ack_ch_size = 16

-- An answer that `readLoop` reads: a full channel drops it.
unfoldable pub read_ack : AckMessage → Connection → Connection
read_ack a c =
    if ltb (length c.ack_ch) ack_ch_size then record c { ack_ch = c.ack_ch ++ a ∷ [] } else c

unfoldable pub close : Connection → Connection
close c = if c.closed then c else record c { closed = true; conn = none }

-- What the other goroutines do meanwhile: the methods of the backend, the loops, and `close`.
pub data Step : Type 0 where
  sends : String → Step
  writes : Bool → Step
  reads : AckMessage → Step
  caches : Option String → Step
  closes : Step

unfoldable pub step : Step → Connection → Connection
unfolding send write_next read_ack close
step (sends text) c = send text c
step (writes written) c = write_next written c
step (reads a) c = read_ack a c
step (caches o) c = record c { cached_start_msg = o }
step closes c = close c

unfoldable pub steps : List Step → Connection → Connection
steps [] c = c
steps (s ∷ ss) c = steps ss (step s c)

-- How the select of `sendAndWait` goes. Each time it may take any case that is ready: the oldest
-- answer, or the closed connection. In the end the timer fires.
pub data Wait : Type 0 where
  meanwhile : Step → Wait → Wait
  receives : Wait → Wait
  sees_closed : Wait → Wait
  times_out : Wait

unfoldable pub await : String → Wait → Connection → Outcome × Connection
await ack_for times_out c = (err (errorf "timeout waiting for ack of %q" (str ack_for ∷ [])), c)
await ack_for (meanwhile s w) c = await ack_for w (step s c)
await ack_for (sees_closed w) c = elim c.closed [
  | true ↦ (err (errorf "connection closed while waiting for ack of %q" (str ack_for ∷ [])), c)
  | false ↦ await ack_for w c
]
await ack_for (receives w) c = elim c.ack_ch [
  | [] ↦ await ack_for w c
  | a ∷ acks ↦ elim (a.for == ack_for) [
    | true ↦ (ok tt, record c { ack_ch = acks })
    | false ↦ await ack_for w (record c { ack_ch = acks })
  ]
]

unfoldable pub send_and_wait : String → String → Wait → Connection → Outcome × Connection
send_and_wait text ack_for w c = await ack_for w (send text c)

-- How one round of `reconnect` goes: whether the dial succeeds and whether the start message can be
-- written, and what the other goroutines do before the new connection is there and, a write loop of
-- the old connection among them, between then and the replay.
pub record Attempt : Type 0 where
  pub dialled : Bool
  pub replayed : Bool
  pub sleeping : List Step
  pub published : List Step

pub data Ended : Type 0 where
  shut_down : Ended
  reconnected : Ended
  gave_up : Ended

abbrev pub max_reconnect : ℕ
max_reconnect = 10

-- In seconds.
abbrev pub max_backoff : ℕ
max_backoff = 30

unfoldable pub next_backoff : ℕ → ℕ
next_backoff b = if ltb max_backoff (b * 2) then max_backoff else b * 2

-- A dial that succeeds, before the start message is replayed.
abbrev pub connect : ℕ → Connection → Connection
connect id c = record c { conn = some id }

-- Whether the start message is written: nothing to replay is a success.
unfoldable pub replays : Attempt → Connection → Bool
replays a c = elim c.cached_start_msg [ none ↦ true | some text ↦ a.replayed ]

-- The replay of the start message on a connection.
abbrev pub write_if : Option String → ℕ → Connection → Connection
write_if none id c = c
write_if (some text) id c = record c { wire = c.wire ++ (id, text) ∷ [] }

-- The message is the one that was cached when the connection was published.
unfoldable pub replay : Option String → ℕ → Connection → Connection
replay cached id c = write_if cached id c

-- The loop of `reconnect` with so many rounds left, the number of the round and the backoff: how it
-- ends, the sleeps and the connection. A failed replay goes on with the same backoff.
unfoldable pub attempts : ℕ → ℕ → ℕ → (ℕ → Attempt) → Connection → Ended × List ℕ × Connection
attempts zero n b world c = (gave_up, [], c)
attempts (suc k) n b world c = elim c.closed [
  | true ↦ (shut_down, [], c)
  | false ↦
      let slept = steps (world n).sleeping c in
      let ready = steps (world n).published (connect n slept) in
      elim (world n).dialled [
        | false ↦
            let (e, sleeps, d) = attempts k (n + 1) (next_backoff b) world slept in
            (e, b ∷ sleeps, d)
        | true ↦ elim (replays (world n) slept) [
          | true ↦ (reconnected, b ∷ [], replay slept.cached_start_msg n ready)
          | false ↦ let (e, sleeps, d) = attempts k (n + 1) b world ready in (e, b ∷ sleeps, d)
        ]
      ]
]

abbrev pub unless_closed : Bool → ℕ → (ℕ → Attempt) → Connection → Ended × List ℕ × Connection
unless_closed true first world c = (shut_down, [], c)
unless_closed false first world c = attempts max_reconnect first 1 world (record c { conn = none })

-- `reconnect` behind its compare-and-swap: it closes the old connection first.
unfoldable pub reconnect : ℕ → (ℕ → Attempt) → Connection → Ended × List ℕ × Connection
reconnect first world c = unless_closed c.closed first world c
