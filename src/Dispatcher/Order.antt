-- ===== src/Dispatcher/Order.antt =====
-- internal/dispatcher/dispatcher.go: what becomes of the events that a buffered command accepts.
use mathlib.Core.List.{append_assoc, append-nil}
use ocap2_extension.Prelude.{
  ℕ, suc, zero, List, [], ◌∷◌, ◌++◌, Option, none, some, Option-cases, ◌≡◌, ◌∙◌, sym, ap, arith,
  if◌then◌else◌, get_elem?, set, length, ltb, nat_beq, nat_eq, string_eq, inl, inr,
}
use ocap2_extension.Prelude.Map.{lookup}
use ocap2_extension.Dispatcher.State.{
  Event, Route, direct, gated, buffered, Worker, Dispatcher, dispatch, send, follow, push,
}
use ocap2_extension.Dispatcher.Actions.{
  Action, dispatches, receives, finishes, closes, receive, safe_handle, perform, perform_all,
}

pub get_elem?-set {ℓ} :
    {A : Type ℓ} (xs : List A) (i j : ℕ) (v : A)
    → get_elem? (set xs i v) j ≡ (
        if nat_beq i j
        then elim (get_elem? xs j) [ none ↦ none | some x ↦ some v ]
        else get_elem? xs j)
get_elem?-set [] i j v = ground arith
get_elem?-set (x ∷ xs) zero zero v = ground arith
get_elem?-set (x ∷ xs) zero (suc j) v = ground arith
get_elem?-set (x ∷ xs) (suc i) zero v = ground arith
get_elem?-set (x ∷ xs) (suc i) (suc j) v = ground (arith, get_elem?-set xs i j v)

abbrev pub listed : Option Event → List Event
listed none = []
listed (some e) = e ∷ []

module _ {S : Type 0} where
  -- The events that a goroutine has and has not finished, oldest first.
  abbrev pub holding : Option (Worker S) → List Event
  holding none = []
  holding (some w) = listed w.current ++ w.buffer

  abbrev pub in_hand : ℕ → Dispatcher S → List Event
  in_hand i d = holding (get_elem? d.workers i)

  abbrev pub room_for : Event → Option (Worker S) → List Event
  room_for e none = []
  room_for e (some w) = if ltb (length w.buffer) w.capacity then e ∷ [] else []

  abbrev pub routed : ℕ → Event → Option (Route S) → Dispatcher S → List Event
  routed i e (some (buffered blocking j)) d =
      if nat_beq j i then room_for e (get_elem? d.workers i) else []
  routed i e _ d = []

  -- The event that an action queues for the goroutine `i`, if any.
  unfoldable pub accepted : ℕ → Action → Dispatcher S → List Event
  accepted i (dispatches e) d = routed i e (lookup e.command d.handlers) d
  accepted i _ d = []

  abbrev pub worked_on : Option (Worker S) → List Event
  worked_on none = []
  worked_on (some w) = listed w.current

  -- The event whose handling an action ends at the goroutine `i`, if any.
  unfoldable pub finished : ℕ → Action → Dispatcher S → List Event
  finished i (finishes j) d = if nat_beq j i then worked_on (get_elem? d.workers i) else []
  finished i _ d = []

  unfoldable pub accepted_all : ℕ → List Action → Dispatcher S → List Event
  accepted_all i [] d = []
  accepted_all i (a ∷ rest) d = accepted i a d ++ accepted_all i rest (perform a d)

  unfoldable pub finished_all : ℕ → List Action → Dispatcher S → List Event
  finished_all i [] d = []
  finished_all i (a ∷ rest) d = finished i a d ++ finished_all i rest (perform a d)

  follow-routed :
      (r : Option (Route S)) (e : Event) (i : ℕ) (d : Dispatcher S)
      → in_hand i d ++ routed i e r d ≡ in_hand i (follow r e d).1
  unfolding follow send
  follow-routed none e i d = append-nil (in_hand i d)
  follow-routed (some (direct h)) e i d = append-nil (in_hand i d)
  follow-routed (some (gated g h)) e i d = ground (arith, append-nil (in_hand i d))
  follow-routed (some (buffered b j)) e i d = elim (Option-cases (get_elem? d.workers j)) [
    | inl n ↦ ground (arith, append-nil (in_hand i d))
    | inr (w, n) ↦ ground (
      arith,
      append-nil (in_hand i d),
      append_assoc (listed w.current) w.buffer (e ∷ []),
      get_elem?-set d.workers j i (push e w),
    )
  ]

  receive-holding :
      (w : Worker S) (gates : List ℕ) → holding (some (receive w gates)) ≡ holding (some w)
  receive-holding w gates = ground arith

  perform-in_hand :
      (a : Action) (i : ℕ) (d : Dispatcher S)
      → in_hand i d ++ accepted i a d ≡ finished i a d ++ in_hand i (perform a d)
  unfolding perform accepted finished dispatch safe_handle
  perform-in_hand (dispatches e) i d = follow-routed (lookup e.command d.handlers) e i d
  perform-in_hand (receives j) i d = elim (Option-cases (get_elem? d.workers j)) [
    | inl n ↦ ground (arith, append-nil (in_hand i d))
    | inr (w, n) ↦
        append-nil (in_hand i d)
        ∙ ground
            (arith, get_elem?-set d.workers j i (receive w d.closed), receive-holding w d.closed)
  ]
  perform-in_hand (finishes j) i d = elim (Option-cases (get_elem? d.workers j)) [
    | inl n ↦ ground (arith, append-nil (in_hand i d))
    | inr (w, n) ↦
        ground (
          arith,
          append-nil (in_hand i d),
          get_elem?-set d.workers j i (record w { current = none }),
        )
  ]
  perform-in_hand (closes g) i d = append-nil (in_hand i d)

  -- What a goroutine held and what it accepted are what it has finished, followed by what it holds.
  pub perform_all-in_hand :
      (actions : List Action) (i : ℕ) (d : Dispatcher S)
      → in_hand i d ++ accepted_all i actions d
        ≡ finished_all i actions d ++ in_hand i (perform_all actions d)
  unfolding perform_all accepted_all finished_all
  perform_all-in_hand [] i d = append-nil (in_hand i d)
  perform_all-in_hand (a ∷ rest) i d =
      sym (append_assoc (in_hand i d) (accepted i a d) (accepted_all i rest (perform a d)))
      ∙ (ap (λ l. l ++ accepted_all i rest (perform a d)) (perform-in_hand a i d)
          ∙ (append_assoc (finished i a d) (in_hand i (perform a d))
                (accepted_all i rest (perform a d))
              ∙ (ap (λ l. finished i a d ++ l) (perform_all-in_hand rest i (perform a d))
                  ∙ sym (append_assoc (finished i a d) (finished_all i rest (perform a d)) _))))
