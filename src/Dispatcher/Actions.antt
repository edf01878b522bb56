-- ===== src/Dispatcher/Actions.antt =====
-- internal/dispatcher/dispatcher.go: the goroutine of withBuffer, safeHandle, and what can happen next
-- in a running dispatcher.
use ocap2_extension.Prelude.{
  ℕ, ◌+◌, List, [], ◌∷◌, Option, none, some, Bool, true, if◌then◌else◌, get_elem?, set,
}
use ocap2_extension.Dispatcher.State.{
  Event, Handled, returned, panicked, Worker, Dispatcher, member, dispatch,
}

pub data Action : Type 0 where
  dispatches : Event → Action
  -- a goroutine receives from its channel
  receives : ℕ → Action
  -- a goroutine's handler ends
  finishes : ℕ → Action
  -- a ready channel is closed
  closes : ℕ → Action

abbrev pub is_ready : Option ℕ → List ℕ → Bool
is_ready none gates = true
is_ready (some g) gates = member g gates

-- An event counts as processed only where its handler returned.
abbrev pub counted : Handled → ℕ → ℕ
counted (returned r) n = n + 1
counted (panicked p) n = n

module _ {S : Type 0} where
  -- `for e := range buffer`, behind the gate: an idle goroutine takes the oldest event.
  abbrev pub taken : Option Event → List Event → Worker S → Worker S
  taken none (e ∷ es) w = record w { buffer = es; current = some e }
  taken _ _ w = w

  abbrev pub receive : Worker S → List ℕ → Worker S
  receive w gates = if is_ready w.ready gates then taken w.current w.buffer w else w

  -- `safeHandle`: an error is logged, and so is a panic, which goes no further.
  unfoldable pub safe_handle : ℕ → Worker S → Event → Dispatcher S → Dispatcher S
  safe_handle i w e d =
      let (r, s) = w.handler e d.shared in
      record d {
        workers = set d.workers i (record w { current = none });
        processed = counted r d.processed;
        shared = s;
      }

  abbrev pub finish : ℕ → Worker S → Option Event → Dispatcher S → Dispatcher S
  finish i w none d = d
  finish i w (some e) d = safe_handle i w e d

  unfoldable pub perform : Action → Dispatcher S → Dispatcher S
  unfolding safe_handle dispatch
  perform (dispatches e) d = (dispatch e d).1
  perform (receives i) d = elim (get_elem? d.workers i) [
    | none ↦ d
    | some w ↦ record d { workers = set d.workers i (receive w d.closed) }
  ]
  perform (finishes i) d = elim (get_elem? d.workers i) [
    | none ↦ d
    | some w ↦ finish i w w.current d
  ]
  perform (closes g) d = record d { closed = g ∷ d.closed }

  unfoldable pub perform_all : List Action → Dispatcher S → Dispatcher S
  perform_all [] d = d
  perform_all (a ∷ rest) d = perform_all rest (perform a d)
