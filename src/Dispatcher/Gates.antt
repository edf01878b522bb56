-- ===== src/Dispatcher/Gates.antt =====
-- internal/dispatcher/dispatcher.go: a command registered with a buffer and with Gated.
use ocap2_extension.Prelude.{
  string_eq, ℕ, List, [], ◌∷◌, Option, none, some, Option-cases, false, ◌≡◌, refl, arith, get_elem?,
  nat_beq, nat_eq, All, inl, inr,
}
use ocap2_extension.Prelude.Map.{lookup}
use ocap2_extension.Dispatcher.State.{
  Event, Route, direct, gated, buffered, Worker, Dispatcher, dispatch, send, follow, push, member,
}
use ocap2_extension.Dispatcher.Actions.{
  Action, dispatches, receives, finishes, closes, receive, safe_handle, perform,
}
use ocap2_extension.Dispatcher.Order.{finished, finished_all, get_elem?-set}

-- The actions leave the channel open.
abbrev pub LeavesShut : ℕ → Action → Type 0
LeavesShut g (closes k) = nat_beq g k ≡ false
LeavesShut g _ = Unit

module _ {S : Type 0} where
  abbrev pub gate_and_event : Option (Worker S) → Option (Option ℕ × Option Event)
  gate_and_event none = none
  gate_and_event (some w) = some (w.ready, w.current)

  -- The goroutine `i` waits for the channel `g`, and has not taken an event.
  abbrev pub IsWaiting : ℕ → ℕ → Dispatcher S → Type 0
  IsWaiting g i d =
      (gate_and_event (get_elem? d.workers i) ≡ some (some g, none)) × (member g d.closed ≡ false)

  follow-IsWaiting :
      (r : Option (Route S)) (e : Event) (g i : ℕ) (d : Dispatcher S)
      → IsWaiting g i d
      → IsWaiting g i (follow r e d).1
  unfolding follow send
  follow-IsWaiting none e g i d v = v
  follow-IsWaiting (some (direct h)) e g i d v = v
  follow-IsWaiting (some (gated k h)) e g i d v = ground arith
  follow-IsWaiting (some (buffered b j)) e g i d (v, c) =
      elim (Option-cases (get_elem? d.workers j)) [
        | inl n ↦ ground arith
        | inr (w, n) ↦ ground (arith, get_elem?-set d.workers j i (push e w))
      ]

  perform-IsWaiting :
      (a : Action) (g i : ℕ) (d : Dispatcher S)
      → LeavesShut g a
      → IsWaiting g i d
      → IsWaiting g i (perform a d)
  unfolding perform dispatch safe_handle
  perform-IsWaiting (dispatches e) g i d l v =
      follow-IsWaiting (lookup e.command d.handlers) e g i d v
  perform-IsWaiting (receives j) g i d l (v, c) = elim (Option-cases (get_elem? d.workers j)) [
    | inl n ↦ ground arith
    | inr (w, n) ↦ ground (arith, get_elem?-set d.workers j i (receive w d.closed))
  ]
  perform-IsWaiting (finishes j) g i d l (v, c) = elim (Option-cases (get_elem? d.workers j)) [
    | inl n ↦ ground arith
    | inr (w, n) ↦ ground (arith, get_elem?-set d.workers j i (record w { current = none }))
  ]
  perform-IsWaiting (closes k) g i d l (v, c) = (v, ground arith)

  IsWaiting-finished :
      (a : Action) (g i : ℕ) (d : Dispatcher S) → IsWaiting g i d → finished i a d ≡ []
  unfolding finished
  IsWaiting-finished (finishes j) g i d v = elim (Option-cases (get_elem? d.workers i)) [
    | inl n ↦ ground (arith, v)
    | inr (w, n) ↦ ground (arith, v)
  ]
  IsWaiting-finished _ g i d v = refl

  -- While no action closes the channel that a goroutine waits for, it finishes no event.
  pub IsWaiting-finished_all :
      (actions : List Action) (g i : ℕ) (d : Dispatcher S)
      → All (LeavesShut g) actions
      → IsWaiting g i d
      → finished_all i actions d ≡ []
  unfolding finished_all
  IsWaiting-finished_all [] g i d l v = refl
  IsWaiting-finished_all (a ∷ rest) g i d (l, ls) v =
      rw (IsWaiting-finished a g i d v)
        (IsWaiting-finished_all rest g i (perform a d) ls (perform-IsWaiting a g i d l v))
