-- ===== src/Dispatcher/Handled.antt =====
-- internal/dispatcher/dispatcher.go: the calls of a buffered command's handler, seen by what they leave
-- in the shared state.
use mathlib.Core.List.{append_assoc, append-nil}
use ocap2_extension.Prelude.{
  ℕ, String, List, [], ◌∷◌, ◌++◌, Option, none, some, Option-cases, ◌≡◌, refl, ◌∙◌, sym, ap, arith,
  if◌then◌else◌, get_elem?, nat_beq, nat_eq, string_eq, inl, inr,
}
use ocap2_extension.Prelude.Map.{lookup}
use ocap2_extension.Dispatcher.State.{
  Event, Handler, Route, direct, gated, buffered, Worker, Dispatcher, dispatch, send, follow, push,
}
use ocap2_extension.Dispatcher.Actions.{
  Action, dispatches, receives, finishes, closes, receive, safe_handle, finish, perform,
  perform_all,
}
use ocap2_extension.Dispatcher.Order.{
  get_elem?-set, in_hand, accepted_all, finished, finished_all, listed, perform_all-in_hand,
}

module _ {S : Type 0} (view : S → List Event) (i : ℕ) where
  abbrev pub handler_of : Option (Worker S) → Option (Handler S)
  handler_of none = none
  handler_of (some w) = some w.handler

  abbrev pub written_by : ℕ → Event → List Event
  written_by j e = if nat_beq j i then e ∷ [] else []

  -- The handler of the goroutine `i` writes each event that it is called with to a log in the shared
  -- state, whether it returns or panics, and no other handler writes to that log.
  pub record Logs (d : Dispatcher S) : Type 0 where
    pub workers :
        (j : ℕ) (h : Handler S)
        → handler_of (get_elem? d.workers j) ≡ some h
        → (e : Event) (s : S) → view (h e s).1 ≡ view s ++ written_by j e
    pub directs :
        (command : String) (h : Handler S)
        → lookup command d.handlers ≡ some (direct h)
        → (e : Event) (s : S) → view (h e s).1 ≡ view s
    pub gateds :
        (command : String) (g : ℕ) (h : Handler S)
        → lookup command d.handlers ≡ some (gated g h)
        → (e : Event) (s : S) → view (h e s).1 ≡ view s

  follow-handler_of :
      (r : Option (Route S)) (e : Event) (d : Dispatcher S) (j : ℕ)
      → handler_of (get_elem? (follow r e d).1.workers j) ≡ handler_of (get_elem? d.workers j)
  unfolding follow send
  follow-handler_of none e d j = refl
  follow-handler_of (some (direct h)) e d j = refl
  follow-handler_of (some (gated g h)) e d j = ground arith
  follow-handler_of (some (buffered b k)) e d j = elim (Option-cases (get_elem? d.workers k)) [
    | inl n ↦ ground arith
    | inr (w, n) ↦ ground (arith, get_elem?-set d.workers k j (push e w))
  ]

  perform-handler_of :
      (a : Action) (d : Dispatcher S) (j : ℕ)
      → handler_of (get_elem? (perform a d).workers j) ≡ handler_of (get_elem? d.workers j)
  unfolding perform dispatch safe_handle
  perform-handler_of (dispatches e) d j = follow-handler_of (lookup e.command d.handlers) e d j
  perform-handler_of (receives k) d j = elim (Option-cases (get_elem? d.workers k)) [
    | inl n ↦ ground arith
    | inr (w, n) ↦ ground (arith, get_elem?-set d.workers k j (receive w d.closed))
  ]
  perform-handler_of (finishes k) d j = elim (Option-cases (get_elem? d.workers k)) [
    | inl n ↦ ground arith
    | inr (w, n) ↦ ground (arith, get_elem?-set d.workers k j (record w { current = none }))
  ]
  perform-handler_of (closes g) d j = refl

  follow-handlers :
      (r : Option (Route S)) (e : Event) (d : Dispatcher S) → (follow r e d).1.handlers ≡ d.handlers
  unfolding follow send
  follow-handlers none e d = refl
  follow-handlers (some (direct h)) e d = refl
  follow-handlers (some (gated g h)) e d = ground arith
  follow-handlers (some (buffered b k)) e d = ground arith

  perform-handlers : (a : Action) (d : Dispatcher S) → (perform a d).handlers ≡ d.handlers
  unfolding perform dispatch safe_handle
  perform-handlers (dispatches e) d = follow-handlers (lookup e.command d.handlers) e d
  perform-handlers (receives k) d = ground arith
  perform-handlers (finishes k) d = ground arith
  perform-handlers (closes g) d = refl

  perform-Logs : (a : Action) (d : Dispatcher S) → Logs d → Logs (perform a d)
  perform-Logs a d l = record {
    workers = λ j h q. l.workers j h (sym (perform-handler_of a d j) ∙ q);
    directs =
        λ command h q. l.directs command h (sym (ap (lookup command) (perform-handlers a d)) ∙ q);
    gateds = λ command g h q.
        l.gateds command g h (sym (ap (lookup command) (perform-handlers a d)) ∙ q);
  }

  follow-view :
      (command : String) (r : Option (Route S)) (e : Event) (d : Dispatcher S)
      → Logs d
      → lookup command d.handlers ≡ r
      → view (follow r e d).1.shared ≡ view d.shared
  unfolding follow send
  follow-view command none e d l q = refl
  follow-view command (some (direct h)) e d l q = l.directs command h q e d.shared
  follow-view command (some (gated g h)) e d l q = ground (arith, l.gateds command g h q e d.shared)
  follow-view command (some (buffered b k)) e d l q = ground arith

  finish-view :
      (k : ℕ) (w : Worker S) (o : Option Event) (d : Dispatcher S)
      → Logs d
      → get_elem? d.workers k ≡ some w
      → view (finish k w o d).shared ≡ view d.shared ++ (if nat_beq k i then listed o else [])
  unfolding safe_handle
  finish-view k w none d l q = ground (arith, append-nil (view d.shared))
  finish-view k w (some e) d l q = l.workers k w.handler (ap handler_of q) e d.shared

  -- What the calls that an action makes add to the log.
  perform-view :
      (a : Action) (d : Dispatcher S)
      → Logs d
      → view (perform a d).shared ≡ view d.shared ++ finished i a d
  unfolding perform dispatch finished
  perform-view (dispatches e) d l =
      follow-view e.command (lookup e.command d.handlers) e d l refl
      ∙ sym (append-nil (view d.shared))
  perform-view (receives k) d l = ground (arith, append-nil (view d.shared))
  perform-view (finishes k) d l = elim (Option-cases (get_elem? d.workers k)) [
    | inl n ↦ ground (arith, append-nil (view d.shared))
    | inr (w, n) ↦ ground (arith, finish-view k w w.current d l n)
  ]
  perform-view (closes g) d l = sym (append-nil (view d.shared))

  perform_all-view :
      (actions : List Action) (d : Dispatcher S)
      → Logs d
      → view (perform_all actions d).shared ≡ view d.shared ++ finished_all i actions d
  unfolding perform_all finished_all
  perform_all-view [] d l = sym (append-nil (view d.shared))
  perform_all-view (a ∷ rest) d l =
      perform_all-view rest (perform a d) (perform-Logs a d l)
      ∙ (ap (λ v. v ++ finished_all i rest (perform a d)) (perform-view a d l)
          ∙ append_assoc (view d.shared) (finished i a d) (finished_all i rest (perform a d)))

  -- The handler of a buffered command is called once for each event that the command accepts, in the
  -- order of acceptance: with a handler that writes its events to a log, and no other handler that
  -- writes there, the log followed by what the goroutine still holds is the log from before, followed
  -- by what the goroutine held and by what was accepted since.
  pub perform_all-log :
      (actions : List Action) (d : Dispatcher S)
      → Logs d
      → view (perform_all actions d).shared ++ in_hand i (perform_all actions d)
        ≡ view d.shared ++ (in_hand i d ++ accepted_all i actions d)
  perform_all-log actions d l =
      ap (λ v. v ++ in_hand i (perform_all actions d)) (perform_all-view actions d l)
      ∙ (append_assoc (view d.shared) (finished_all i actions d) (in_hand i (perform_all actions d))
          ∙ ap (λ v. view d.shared ++ v) (sym (perform_all-in_hand actions i d)))
