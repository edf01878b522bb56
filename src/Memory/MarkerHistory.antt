-- ===== src/Memory/MarkerHistory.antt =====
-- What the export finds under a marker's name after a history of memory.go's methods: an
-- independent description with no addresses and no maps.
use ocap2_extension.Prelude.{
  ℕ, String, ◌+◌, ◌<◌, ◌%◌, List, [], ◌∷◌, length, Option, some, ◌≡◌, refl, ◌∙◌, arith, ◌≤◌,
  string_eq, ◌==◌, if◌then◌else◌,
}
use mathlib.Core.Path.{ap₂}
use ocap2_extension.Core.{MarkerState, DeleteMarker}
use ocap2_extension.Memory.State.{MarkerRecord, MarkerStore, Backend}
use ocap2_extension.Memory.Markers.{
  uint_mod, new_marker, named, insert_marker, push_state, end_named,
}
use ocap2_extension.Memory.MarkerLinks.{
  Linked, pushed, ended, insert_marker-Linked, push_state-Linked, end_named-Linked,
  named-insert_marker, named-push_state, named-end_named,
}
use ocap2_extension.Memory.Trace.{Op, adds_marker, deletes_marker, marker_moves, step, run}

-- The ids given out so far, counted.
abbrev pub next_id : ℕ → Op → ℕ
next_id k (adds_marker m) = k + 1
next_id k _ = k

-- The record under the name `n`, where `k` ids have been given out.
abbrev pub track_marker : String → ℕ → Option MarkerRecord → Op → Option MarkerRecord
track_marker n k r (adds_marker m) = if m.marker_name == n then some (new_marker m (k + 1)) else r
track_marker n k r (marker_moves st) = pushed st r
track_marker n k r (deletes_marker dm) = if dm.name == n then ended dm r else r
track_marker n k r _ = r

pub marker_history : String → ℕ → Option MarkerRecord → List Op → Option MarkerRecord
marker_history n k r [] = r
marker_history n k r (o ∷ os) = marker_history n (next_id k o) (track_marker n k r o) os

next_id-le : (k : ℕ) (o : Op) → next_id k o ≤ k + 1
next_id-le k (adds_marker m) = omega arith
next_id-le k _ = omega arith

push_state-next_marker_id :
    (st : MarkerState) (s : MarkerStore) → (push_state st s).next_marker_id ≡ s.next_marker_id
unfolding push_state
push_state-next_marker_id st s = ground arith

end_named-next_marker_id :
    (dm : DeleteMarker) (s : MarkerStore) → (end_named dm s).next_marker_id ≡ s.next_marker_id
unfolding end_named
end_named-next_marker_id dm s = ground arith

record StepFacts (n : String) (o : Op) (b : Backend) : Type 0 where
  linked : Linked (step o b).marker_store
  counted : (step o b).marker_store.next_marker_id ≡ next_id b.marker_store.next_marker_id o
  tracked :
      named n (step o b).marker_store
      ≡ track_marker n b.marker_store.next_marker_id (named n b.marker_store) o

step_facts :
    (n : String) (o : Op) (b : Backend)
    → Linked b.marker_store
    → b.marker_store.next_marker_id + 1 < uint_mod
    → StepFacts n o b
unfolding step
step_facts n (adds_marker m) b l small =
    let s = b.marker_store in
    let wrap : (s.next_marker_id + 1) % uint_mod ≡ s.next_marker_id + 1 = omega arith in
    record {
      linked = insert_marker-Linked s l m small;
      counted = unfold insert_marker in wrap;
      tracked = rw (← wrap) (named-insert_marker s l n m);
    }
step_facts n (marker_moves st) b l small = record {
  linked = push_state-Linked b.marker_store l st;
  counted = push_state-next_marker_id st b.marker_store;
  tracked = named-push_state b.marker_store l n st;
}
step_facts n (deletes_marker dm) b l small = record {
  linked = end_named-Linked b.marker_store l dm;
  counted = end_named-next_marker_id dm b.marker_store;
  tracked = named-end_named b.marker_store l n dm;
}
step_facts n _ b l small = record { linked = l; counted = refl; tracked = refl }

-- After any history in which the ids stay below 2^64, from a store whose maps agree, the record under a name is that of the last marker
-- added with it, with the states whose id is its own, in order, and the last end frame set for it.
pub run-marker_history :
    (os : List Op) (n : String) (b : Backend)
    → Linked b.marker_store
    → b.marker_store.next_marker_id + length os < uint_mod
    → named n (run os b).marker_store
      ≡ marker_history n b.marker_store.next_marker_id (named n b.marker_store) os
unfolding run marker_history
run-marker_history [] n b l small = refl
run-marker_history (o ∷ os) n b l small =
    let facts = step_facts n o b l (omega arith) in
    run-marker_history os n (step o b) facts.linked
      (omega (arith, facts.counted, next_id-le b.marker_store.next_marker_id o))
    ∙ ap₂ (λ k r. marker_history n k r os) facts.counted facts.tracked
