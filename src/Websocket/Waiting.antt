-- ===== src/Websocket/Waiting.antt =====
-- What StartMission returns: the wait for the server's answer.
use ocap2_extension.Prelude.{
  ℕ, zero, suc, String, Bool, true, false, List, [], ◌∷◌, some, ◌≡◌, refl, sym, subst, ◌||◌, ◌≤◌,
  string_eq, ◌==◌, Bool-cases, inl, inr, ◌⊎◌, ltb, length, arith, All, All-snoc,
}
use ocap2_extension.Core.{Mission, World}
use ocap2_extension.Core.Dynamic.{str}
use ocap2_extension.Core.Result.{Outcome, ok, err, errorf}
use ocap2_extension.Streaming
use ocap2_extension.Streaming.{AckMessage, a_mission, name}
use ocap2_extension.Websocket.Connection.{
  Connection, Step, sends, writes, reads, caches, closes, step, send, write_next, read_ack, close,
  Wait, meanwhile, receives, sees_closed, times_out, await, send_and_wait,
}
use ocap2_extension.Websocket.Backend.{
  Backend, Encoder, Server, envelope_text, waiting, start_mission,
}

-- The answer is for another message type.
abbrev pub IsOther : String → AckMessage → Type 0
IsOther ack_for a = (a.for == ack_for) ≡ false

-- What a step brings is not an answer for the message type.
abbrev pub BringsOther : String → Step → Type 0
BringsOther ack_for (reads a) = IsOther ack_for a
BringsOther ack_for _ = Unit

abbrev pub Unanswered : String → Wait → Type 0
Unanswered ack_for times_out = Unit
Unanswered ack_for (meanwhile s w) = BringsOther ack_for s × Unanswered ack_for w
Unanswered ack_for (receives w) = Unanswered ack_for w
Unanswered ack_for (sees_closed w) = Unanswered ack_for w

-- The errors of the timer and of the closed connection.
abbrev pub IsStopped : String → Outcome → Type 0
IsStopped ack_for r =
    (r ≡ err (errorf "timeout waiting for ack of %q" (str ack_for ∷ [])))
    ⊎ (r ≡ err (errorf "connection closed while waiting for ack of %q" (str ack_for ∷ [])))

send-ack_ch : (text : String) (c : Connection) → (send text c).ack_ch ≡ c.ack_ch
unfolding send
send-ack_ch text c = ground arith

step-IsOther :
    (f : String) (s : Step) (c : Connection)
    → BringsOther f s
    → All (IsOther f) c.ack_ch
    → All (IsOther f) (step s c).ack_ch
unfolding step send write_next read_ack close
step-IsOther f (sends text) c h k = ground arith
step-IsOther f (writes w) c h k = ground arith
step-IsOther f (reads a) c h k = elim (Bool-cases (ltb (length c.ack_ch) 16)) [
  | inl e ↦ rw e (All-snoc (IsOther f) c.ack_ch a k h)
  | inr e ↦ rw e k
]
step-IsOther f (caches o) c h k = k
step-IsOther f closes c h k = ground arith

received-IsStopped :
    (f : String) (w : Wait) (acks : List AckMessage) (c : Connection)
    → c.ack_ch ≡ acks
    → All (IsOther f) c.ack_ch
    → ((d : Connection) → All (IsOther f) d.ack_ch → IsStopped f (await f w d).0)
    → IsStopped f (await f (receives w) c).0
unfolding await
received-IsStopped f w [] c e k later = rw (e, await) (later c k)
received-IsStopped f w (a ∷ acks) c e k later =
    let (h, hs) = subst (All (IsOther f)) e k in
    rw (e, await, h) (later (record c { ack_ch = acks }) hs)

await-IsStopped :
    (f : String) (w : Wait) (c : Connection)
    → All (IsOther f) c.ack_ch
    → Unanswered f w
    → IsStopped f (await f w c).0
unfolding await
await-IsStopped f times_out c k u = inl refl
await-IsStopped f (meanwhile s w) c k (h, u) =
    await-IsStopped f w (step s c) (step-IsOther f s c h k) u
await-IsStopped f (sees_closed w) c k u = elim (Bool-cases c.closed) [
  | inl e ↦ rw (e, await) (inr refl)
  | inr e ↦ rw (e, await) (await-IsStopped f w c k u)
]
await-IsStopped f (receives w) c k u =
    received-IsStopped f w c.ack_ch c refl k (λ d h. await-IsStopped f w d h u)

-- One of the answers is for the message type.
unfoldable pub answers : String → List AckMessage → Bool
answers ack_for [] = false
answers ack_for (a ∷ acks) = (a.for == ack_for) || answers ack_for acks

-- So many answers are received first.
abbrev pub receives_first : ℕ → Wait → Wait
receives_first zero w = w
receives_first (suc n) w = receives (receives_first n w)

await-answers :
    (f : String) (n : ℕ) (w : Wait) (acks : List AckMessage) (c : Connection)
    → c.ack_ch ≡ acks
    → length acks ≤ n
    → answers f acks ≡ true
    → (await f (receives_first n w) c).0 ≡ ok tt
unfolding await answers
await-answers f n w [] c e l h = absurd (ground (arith, h))
await-answers f zero w (a ∷ acks) c e l h = absurd (omega (arith, l))
await-answers f (suc n) w (a ∷ acks) c e l h = elim (Bool-cases (a.for == f)) [
  | inl t ↦ rw (e, await, t) refl
  | inr t ↦
      rw (e, await, t)
        (await-answers f n w acks (record c { ack_ch = acks }) refl (omega (arith, l))
          (ground (arith, h, t)))
]

module _ (e : Encoder) (server : Server) (m : Mission) (w : World) (b : Backend) (text : String)
    (encodes : envelope_text e Streaming.start_mission (a_mission m w) ≡ ok text) where
  -- StartMission never returns nil without an answer: if no answer for start_mission is in the answer
  -- channel or arrives during the wait, it returns the error of the timer or of the closed connection,
  -- whichever ready cases its select takes.
  pub start_mission-Unanswered :
      All (IsOther "start_mission") b.conn.ack_ch
      → Unanswered "start_mission" (server Streaming.start_mission)
      → IsStopped "start_mission" (start_mission e server m w b).0
  unfolding start_mission send_and_wait
  start_mission-Unanswered k u =
      let c = record b.conn { cached_start_msg = some text } in
      rw (encodes, waiting)
        (await-IsStopped "start_mission" (server Streaming.start_mission) (send text c)
          (subst (All (IsOther "start_mission")) (sym (send-ack_ch text c)) k) u)

  -- StartMission takes an answer that the server gave before the message was sent: if one for
  -- start_mission is in the answer channel and the select receives all of the channel first, it returns
  -- nil whatever the server does afterwards.
  pub start_mission-stale :
      (n : ℕ) (rest : Wait)
      → server Streaming.start_mission ≡ receives_first n rest
      → length b.conn.ack_ch ≤ n
      → answers "start_mission" b.conn.ack_ch ≡ true
      → (start_mission e server m w b).0 ≡ ok tt
  unfolding start_mission send_and_wait
  start_mission-stale n rest q l h =
      let c = record b.conn { cached_start_msg = some text } in
      rw (encodes, waiting, q)
        (await-answers "start_mission" n rest b.conn.ack_ch (send text c) (send-ack_ch text c) l h)
