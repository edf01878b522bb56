-- ===== src/Memory/MarkerLinks.antt =====
-- The two marker maps of memory.go: what links a name, an id and a record, and what a marker's
-- record holds after each method.
use text.Mathlib.TextEquality.{eq_iff}
use ocap2_extension.Prelude.{
  ℕ, String, ◌+◌, ◌≤◌, ◌<◌, ◌%◌, Option, none, some, ◌≡◌, refl, arith, nat_eq, string_eq, nat_beq,
  ◌==◌, if◌then◌else◌, inl, inr, Option-cases, Bool-cases, eq_of_beq,
}
use ocap2_extension.Prelude.Map.{lookup, adjust, lookup-insert, lookup-adjust}
use ocap2_extension.Core.{Marker, MarkerState, DeleteMarker}
use ocap2_extension.Memory.State.{MarkerRecord, MarkerStore, empty_markers}
use ocap2_extension.Memory.Markers.{
  uint_mod, new_marker, insert_marker, push_marker_state, end_marker, push_state, end_named, named,
}

-- Addresses are fresh, an id leads to the record with that id, and a name to a record with that
-- name whose id leads back to it.
pub record Linked (s : MarkerStore) : Type 0 where
  pub fresh : (a : ℕ) → s.next_address ≤ a → lookup a s.marker_heap ≡ none
  pub by_id :
      (id a : ℕ)
      → lookup id s.markers_by_id ≡ some a
      → (r : MarkerRecord) × (lookup a s.marker_heap ≡ some r) × (r.marker.id ≡ id)
  pub by_name :
      (name : String) (a : ℕ)
      → lookup name s.markers ≡ some a
      → (r : MarkerRecord) × (lookup a s.marker_heap ≡ some r)
        × (r.marker.marker_name ≡ name)
        × (lookup r.marker.id s.markers_by_id ≡ some a)
        × (r.marker.id ≤ s.next_marker_id)

-- A state goes to the record whose id it carries.
abbrev pub pushed : MarkerState → Option MarkerRecord → Option MarkerRecord
pushed st none = none
pushed st (some r) = some (if nat_beq st.marker_id r.marker.id then push_marker_state st r else r)

abbrev pub ended : DeleteMarker → Option MarkerRecord → Option MarkerRecord
ended dm none = none
ended dm (some r) = some (end_marker dm.end_frame r)

pub empty-Linked : Linked empty_markers
unfolding lookup
empty-Linked = record {
  fresh = λ a h. refl;
  by_id = λ id a h. absurd (ground arith);
  by_name = λ name a h. absurd (ground arith);
}

module _ (s : MarkerStore) (l : Linked s) where
  address_below : (a : ℕ) {r : MarkerRecord} → lookup a s.marker_heap ≡ some r → a < s.next_address
  address_below a h = ground (arith, l.fresh a)

  pub insert_marker-Linked :
      (m : Marker) → s.next_marker_id + 1 < uint_mod → Linked (insert_marker m s).1
  unfolding insert_marker
  insert_marker-Linked m small =
      let id' : ℕ = (s.next_marker_id + 1) % uint_mod in
      let a' : ℕ = s.next_address in
      let r' = new_marker m id' in
      record {
        fresh = λ a h. ground (arith, lookup-insert a a' r' s.marker_heap, l.fresh a);
        by_id = λ id a h. elim (Bool-cases (nat_beq id' id)) [
          | inl e ↦ (
            r',
            ground (
              arith,
              lookup-insert id id' a' s.markers_by_id,
              lookup-insert a a' r' s.marker_heap,
            ),
            ground arith,
          )
          | inr e ↦
              let (r, p, q) =
                l.by_id id a (ground (arith, lookup-insert id id' a' s.markers_by_id)) in
              (r, ground (arith, lookup-insert a a' r' s.marker_heap, address_below a p), q)
        ];
        by_name = λ name a h. elim (Bool-cases (m.marker_name == name)) [
          | inl e ↦ (
            r',
            ground (
              arith,
              lookup-insert name m.marker_name a' s.markers,
              lookup-insert a a' r' s.marker_heap,
            ),
            eq_of_beq m.marker_name name e,
            ground (
              arith,
              lookup-insert name m.marker_name a' s.markers,
              lookup-insert id' id' a' s.markers_by_id,
            ),
            omega arith,
          )
          | inr e ↦
              let (r, p, q, t, u) =
                l.by_name name a (ground (arith, lookup-insert name m.marker_name a' s.markers)) in
              (
                r,
                ground (arith, lookup-insert a a' r' s.marker_heap, address_below a p),
                q,
                ground (arith, lookup-insert r.marker.id id' a' s.markers_by_id),
                omega arith,
              )
        ];
      }

  -- A write through a pointer that keeps the record's id and name.
  write-Linked :
      (f : MarkerRecord → MarkerRecord) (a' : ℕ)
      → ((r : MarkerRecord) → (f r).marker.id ≡ r.marker.id)
      → ((r : MarkerRecord) → (f r).marker.marker_name ≡ r.marker.marker_name)
      → Linked (record s { marker_heap = adjust f a' s.marker_heap })
  write-Linked f a' same_id same_name = record {
    fresh = λ a h. ground (arith, lookup-adjust f a a' s.marker_heap, l.fresh a);
    by_id = λ id a h.
        let (r, p, q) = l.by_id id a h in
        (
          if nat_beq a' a then f r else r,
          ground (arith, lookup-adjust f a a' s.marker_heap),
          ground (arith, same_id r),
        );
    by_name = λ name a h.
        let (r, p, q, t, u) = l.by_name name a h in
        (
          if nat_beq a' a then f r else r,
          ground (arith, lookup-adjust f a a' s.marker_heap),
          ground (arith, same_name r),
          ground (arith, same_id r),
          ground (arith, same_id r),
        );
  }

  pub push_state-Linked : (st : MarkerState) → Linked (push_state st s)
  unfolding push_state
  push_state-Linked st = elim (Option-cases (lookup st.marker_id s.markers_by_id)) [
    | inl e ↦ rw (e, push_state) l
    | inr (a, e) ↦
        rw (e, push_state) (write-Linked (push_marker_state st) a (λ r. refl) (λ r. refl))
  ]

  pub end_named-Linked : (dm : DeleteMarker) → Linked (end_named dm s)
  unfolding end_named
  end_named-Linked dm = elim (Option-cases (lookup dm.name s.markers)) [
    | inl e ↦ rw (e, end_named) l
    | inr (a, e) ↦
        rw (e, end_named) (write-Linked (end_marker dm.end_frame) a (λ r. refl) (λ r. refl))
  ]

  -- What a name leads to after a marker was added: the new record, with no states, or as before.
  pub named-insert_marker :
      (n : String) (m : Marker)
      → named n (insert_marker m s).1 ≡ (
          if m.marker_name == n
          then some (new_marker m ((s.next_marker_id + 1) % uint_mod))
          else named n s)
  unfolding named insert_marker
  named-insert_marker n m =
      let id' : ℕ = (s.next_marker_id + 1) % uint_mod in
      let a' : ℕ = s.next_address in
      let r' = new_marker m id' in
      elim (Option-cases (lookup n s.markers)) [
        | inl e ↦ ground (
          arith,
          lookup-insert n m.marker_name a' s.markers,
          lookup-insert a' a' r' s.marker_heap,
        )
        | inr (a, e) ↦
            let (r, p, q, t, u) = l.by_name n a e in
            ground (
              arith,
              lookup-insert n m.marker_name a' s.markers,
              lookup-insert a' a' r' s.marker_heap,
              lookup-insert a a' r' s.marker_heap,
              address_below a p,
            )
      ]

  pub named-push_state :
      (n : String) (st : MarkerState) → named n (push_state st s) ≡ pushed st (named n s)
  unfolding named push_state
  named-push_state n st = elim (Option-cases (lookup n s.markers)) [
    | inl e ↦ elim (Option-cases (lookup st.marker_id s.markers_by_id)) [
      | inl f ↦ rw (f, push_state) (rw (e, named))
      | inr (b, f) ↦ rw (f, push_state) (rw (e, named))
    ]
    | inr (a, e) ↦
        let (r, p, q, t, u) = l.by_name n a e in
        elim (Option-cases (lookup st.marker_id s.markers_by_id)) [
          | inl f ↦ ground arith
          | inr (b, f) ↦
              let (r', p', q') = l.by_id st.marker_id b f in
              ground (arith, lookup-adjust (push_marker_state st) a b s.marker_heap)
        ]
  ]

  pub named-end_named :
      (n : String) (dm : DeleteMarker)
      → named n (end_named dm s) ≡ (if dm.name == n then ended dm (named n s) else named n s)
  unfolding named end_named
  named-end_named n dm = elim (Option-cases (lookup n s.markers)) [
    | inl e ↦ ground (arith, eq_iff dm.name n)
    | inr (a, e) ↦
        let (r, p, q, t, u) = l.by_name n a e in
        elim (Option-cases (lookup dm.name s.markers)) [
          | inl f ↦ ground (arith, eq_iff dm.name n)
          | inr (b, f) ↦
              let (r', p', q', t', u') = l.by_name dm.name b f in
              ground
                (arith, eq_iff dm.name n, lookup-adjust (end_marker dm.end_frame) a b s.marker_heap)
        ]
  ]
