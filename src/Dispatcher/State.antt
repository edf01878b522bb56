-- ===== src/Dispatcher/State.antt =====
-- internal/dispatcher/dispatcher.go: Register and Dispatch. A handler works on a shared state `S` and
-- may panic. `withLogging` passes its handler's result on, so it leaves no trace here.
use ocap2_extension.Prelude.{
  ℕ, ◌+◌, String, List, [], ◌∷◌, ◌++◌, Option, none, some, Bool, ltb, if◌then◌else◌, length,
  get_elem?, set, string_eq, nat_beq,
}
use ocap2_extension.Prelude.Map.{Map, lookup, insert}
use ocap2_extension.Core.{Any, str, Timestamp}
use ocap2_extension.Core.Result.{Result, ok, err, errorf}

pub record Event : Type 0 where
  pub command : String
  pub args : List String
  pub timestamp : Timestamp

-- How a handler ends.
pub data Handled : Type 0 where
  returned : Result Any → Handled
  panicked : String → Handled

abbrev pub Handler : Type 0 → Type 0
Handler S = Event → S → Handled × S

-- `ready` is a channel that is closed once: its number.
pub record Config : Type 0 where
  pub buffer_size : ℕ
  pub blocking : Bool
  pub ready : Option ℕ

-- The function that `Register` stores. A buffered one sends to the channel of a goroutine, which goes
-- by its number.
pub data Route (S : Type 0) : Type 0 where
  direct : Handler S → Route S
  gated : ℕ → Handler S → Route S
  buffered : Bool → ℕ → Route S

-- The goroutine of `withBuffer`: its channel, and the event that it is handling.
pub record Worker (S : Type 0) : Type 0 where
  pub handler : Handler S
  pub capacity : ℕ
  pub ready : Option ℕ
  pub buffer : List Event
  pub current : Option Event

pub record Dispatcher (S : Type 0) : Type 0 where
  pub handlers : Map String (Route S)
  pub workers : List (Worker S)
  pub closed : List ℕ
  pub processed : ℕ
  pub dropped : ℕ
  pub shared : S

abbrev pub new : {S : Type 0} → S → Dispatcher S
new s = record { handlers = []; workers = []; closed = []; processed = 0; dropped = 0; shared = s }

abbrev pub member : ℕ → List ℕ → Bool
member g [] = Bool.false
member g (x ∷ xs) = if nat_beq g x then Bool.true else member g xs

-- What the caller of `Dispatch` sees: a reply, a panic, or no return for now.
pub data Reply : Type 0 where
  replied : Result Any → Reply
  crashed : String → Reply
  waits : Reply

abbrev reply_of : Handled → Reply
reply_of (returned r) = replied r
reply_of (panicked p) = crashed p

module _ {S : Type 0} where
  abbrev pub new_worker : Handler S → Config → Worker S
  new_worker h cfg = record {
    handler = h;
    capacity = cfg.buffer_size;
    ready = cfg.ready;
    buffer = [];
    current = none;
  }

  unfoldable pub register : String → Handler S → Config → Dispatcher S → Dispatcher S
  register command h cfg d =
      if ltb 0 cfg.buffer_size
      then record d {
        handlers = insert command (buffered cfg.blocking (length d.workers)) d.handlers;
        workers = d.workers ++ new_worker h cfg ∷ [];
      }
      else elim cfg.ready [
        | none ↦ record d { handlers = insert command (direct h) d.handlers }
        | some g ↦ record d { handlers = insert command (gated g h) d.handlers }
      ]

  -- A call of a handler in the caller's goroutine.
  abbrev pub call : Handler S → Event → Dispatcher S → Reply × Dispatcher S
  call h e d = let (r, s) = h e d.shared in (reply_of r, record d { shared = s })

  abbrev pub push : Event → Worker S → Worker S
  push e w = record w { buffer = w.buffer ++ e ∷ [] }

  -- A send to a buffered channel: it blocks or drops where the channel is full.
  unfoldable pub send : Bool → ℕ → Worker S → Event → Dispatcher S → Reply × Dispatcher S
  send blocking i w e d =
      if ltb (length w.buffer) w.capacity
      then (replied (ok (str "queued")), record d { workers = set d.workers i (push e w) })
      else if blocking
      then (waits, d)
      else (
        replied (err (errorf "queue full: %s" (str e.command ∷ []))),
        record d { dropped = d.dropped + 1 },
      )

  -- A route with no goroutine behind it does not exist: `Register` makes both.
  unfoldable pub follow : Option (Route S) → Event → Dispatcher S → Reply × Dispatcher S
  unfolding send
  follow none e d = (replied (err (errorf "unknown command: %s" (str e.command ∷ []))), d)
  follow (some (direct h)) e d = call h e d
  follow (some (gated g h)) e d = if member g d.closed then call h e d else (waits, d)
  follow (some (buffered blocking i)) e d = elim (get_elem? d.workers i) [
    | none ↦ (waits, d)
    | some w ↦ send blocking i w e d
  ]

  unfoldable pub dispatch : Event → Dispatcher S → Reply × Dispatcher S
  unfolding follow
  dispatch e d = follow (lookup e.command d.handlers) e d
