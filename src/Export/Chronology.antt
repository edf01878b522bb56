-- ===== src/Export/Chronology.antt =====
-- builder.go: the event rows that Build collects, and their sort.
use mathlib.Core.List.{Perm}
use ocap2_extension.Prelude.{
  ℕ, ◌+◌, nat_beq, ℤ, pos_part, neg_part, ◌≤ℤ◌, List, [], ◌∷◌, ◌++◌, map, Option, none, some, Bool,
  true, false, ◌≡◌, refl, arith, if◌then◌else◌, All, All-append, All-snoc,
}
use ocap2_extension.Prelude.Sort.{
  stable_sort, stable_sort-perm, stable_sort-IsSorted, stable_sort-select, IsSorted, select,
}
use ocap2_extension.Core.{Row, Std, PlacedObject, PlacedObjectEvent, ProjectileEvent}
use ocap2_extension.Export.Data.{MissionData, Entity, PlacedObjectRecord, VehicleRecord}
use ocap2_extension.Prelude.Map.{Map}
use ocap2_extension.Export.Rows.{
  row_frame, build_general_event, sector_row, end_mission_row, hit_row, kill_row, placed_hits,
  projectile_hits,
}
use ocap2_extension.Export.Build.{
  append_each, plain_events, add_placed, add_projectile, add_projectiles, parts, Parts, framed,
  earlier, frame_less, sort_events,
}

-- The row starts with an `int`.
abbrev pub IsFramed : Row → Type 0
IsFramed r = (f : ℤ) × (row_frame r ≡ some f)

append_each-IsFramed :
    {A : Type 0} (f : A → Row) (xs : List A) (rows : List Row)
    → ((x : A) → IsFramed (f x))
    → All IsFramed rows
    → All IsFramed (append_each f xs rows)
unfolding append_each
append_each-IsFramed f [] rows h k = k
append_each-IsFramed f (x ∷ xs) rows h k =
    append_each-IsFramed f xs (rows ++ f x ∷ []) h (All-snoc IsFramed rows (f x) k (h x))

map-IsFramed :
    {A : Type 0} (f : A → Row) (xs : List A) → ((x : A) → IsFramed (f x)) → All IsFramed (map f xs)
map-IsFramed f [] h = tt
map-IsFramed f (x ∷ xs) h = (h x, map-IsFramed f xs h)

known-IsFramed :
    {A : Type 0} (b : Bool) (o : Option A) (f : A → Row)
    → ((x : A) → IsFramed (f x))
    → All IsFramed (if b then elim o [ none ↦ [] | some x ↦ f x ∷ [] ] else [])
known-IsFramed false o f h = tt
known-IsFramed true none f h = tt
known-IsFramed true (some x) f h = (h x, tt)

module _ (std : Std) where
  placed_hits-IsFramed :
      (p : PlacedObject) (es : List PlacedObjectEvent) → All IsFramed (placed_hits std p es)
  unfolding placed_hits row_frame
  placed_hits-IsFramed p [] = tt
  placed_hits-IsFramed p (e ∷ es) =
      All-append IsFramed _ _ (known-IsFramed _ e.hit_entity_id _ (λ id. (_, refl)))
        (placed_hits-IsFramed p es)

  projectile_hits-IsFramed : (pe : ProjectileEvent) → All IsFramed (projectile_hits std pe)
  unfolding projectile_hits row_frame
  projectile_hits-IsFramed pe = map-IsFramed _ pe.hits (λ h. (_, refl))

  plain_events-IsFramed : (d : MissionData) → All IsFramed (plain_events std d)
  unfolding plain_events row_frame build_general_event sector_row end_mission_row hit_row kill_row
  plain_events-IsFramed d =
      append_each-IsFramed _ d.kill_events _ (λ x. (_, refl))
        (append_each-IsFramed _ d.hit_events _ (λ x. (_, refl))
          (append_each-IsFramed _ d.end_mission_events _ (λ x. (_, refl))
            (append_each-IsFramed _ d.sector_events _ (λ x. (_, refl))
              (append_each-IsFramed _ d.general_events [] (λ x. (_, refl)) tt))))

  add_placed-IsFramed :
      (rs : List PlacedObjectRecord) (p : Parts)
      → All IsFramed p.events
      → All IsFramed (add_placed std rs p).events
  unfolding add_placed
  add_placed-IsFramed [] p h = h
  add_placed-IsFramed (r ∷ rs) p h =
      add_placed-IsFramed rs _
        (All-append IsFramed p.events _ h (placed_hits-IsFramed r.placed_object r.events))

  add_projectile-events :
      (vs : Map ℕ VehicleRecord) (pe : ProjectileEvent) (p : Parts)
      → (add_projectile std vs pe p).events ≡ p.events ++ projectile_hits std pe
  unfolding add_projectile
  add_projectile-events vs pe p = ground arith

  add_projectiles-IsFramed :
      (vs : Map ℕ VehicleRecord) (pes : List ProjectileEvent) (p : Parts)
      → All IsFramed p.events
      → All IsFramed (add_projectiles std vs pes p).events
  unfolding add_projectiles
  add_projectiles-IsFramed vs [] p h = h
  add_projectiles-IsFramed vs (pe ∷ pes) p h = add_projectiles-IsFramed vs pes _ (
      rw (add_projectile-events vs pe p)
        (All-append IsFramed p.events _ h (projectile_hits-IsFramed pe)))

  parts-IsFramed : (d : MissionData) (es : List Entity) → All IsFramed (parts std d es).events
  unfolding parts
  parts-IsFramed d es =
      add_projectiles-IsFramed d.vehicles d.projectile_events _
        (add_placed-IsFramed _ _ (plain_events-IsFramed d))

framed_of : (rows : List Row) → All IsFramed rows → framed rows ≡ true
unfolding framed
framed_of [] h = refl
framed_of (r ∷ rs) ((f, e), h) = ground (arith, framed_of rs h)

earlier_asym : (a b : Row) → earlier a b ≡ true → earlier b a ≡ false
unfolding earlier
earlier_asym a b h = ground arith

abbrev pub same_int : ℤ → ℤ → Bool
same_int a b = nat_beq (pos_part a + neg_part b) (pos_part b + neg_part a)

abbrev pub is_at : ℤ → Option ℤ → Bool
is_at f none = false
is_at f (some g) = same_int f g

abbrev pub at_frame : ℤ → Row → Bool
at_frame f r = is_at f (row_frame r)

-- The frames as integers, none of them greater than the next.
abbrev pub NotAfter : Option ℤ → Option ℤ → Type 0
NotAfter (some f) (some g) = f ≤ℤ g
NotAfter _ _ = Unit

abbrev pub InOrder : List Row → Type 0
InOrder [] = Unit
InOrder (r ∷ []) = Unit
InOrder (r ∷ s ∷ rows) = NotAfter (row_frame r) (row_frame s) × InOrder (s ∷ rows)

frame_less-NotAfter : (o q : Option ℤ) → frame_less q o ≡ false → NotAfter o q
frame_less-NotAfter none none h = tt
frame_less-NotAfter none (some g) h = tt
frame_less-NotAfter (some f) none h = tt
frame_less-NotAfter (some f) (some g) h = ground arith

IsSorted-InOrder : (rows : List Row) → IsSorted earlier rows → InOrder rows
unfolding earlier
IsSorted-InOrder [] h = tt
IsSorted-InOrder (r ∷ []) h = tt
IsSorted-InOrder (r ∷ s ∷ rows) (h, k) =
    (frame_less-NotAfter (row_frame r) (row_frame s) h, IsSorted-InOrder (s ∷ rows) k)

is_at-apart :
    (f : ℤ) (o q : Option ℤ) → frame_less q o ≡ true → is_at f o ≡ true → is_at f q ≡ false
is_at-apart f none q h k = absurd (ground (arith, k))
is_at-apart f (some g) none h k = refl
is_at-apart f (some g) (some i) h k = ground (arith, h, k)

-- Sorting the rows that `Build` collects never panics. The sorted rows are a permutation of them in
-- which no row has a greater frame than the next one, and the rows of each frame keep the order in
-- which they were collected.
pub sort_events-parts :
    (std : Std) (d : MissionData) (es : List Entity)
    → (rows : List Row) × (sort_events (parts std d es).events ≡ some rows)
      × Perm (parts std d es).events rows
      × InOrder rows
      × ((f : ℤ) → select (at_frame f) rows ≡ select (at_frame f) (parts std d es).events)
unfolding sort_events earlier
sort_events-parts std d es =
    let rows = (parts std d es).events in
    (
      stable_sort earlier rows,
      rw (framed_of rows (parts-IsFramed std d es)),
      stable_sort-perm earlier rows,
      IsSorted-InOrder (stable_sort earlier rows) (stable_sort-IsSorted earlier earlier_asym rows),
      λ f.
          stable_sort-select earlier (at_frame f) (λ a b. is_at-apart f (row_frame a) (row_frame b))
            rows,
    )
