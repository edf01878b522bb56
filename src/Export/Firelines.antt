-- ===== src/Export/Firelines.antt =====
-- The lines of fire of bullets: builder.go appends them to the entity, stream.go collects them by id.
use ocap2_extension.Prelude.{
  ℕ, List, [], ◌∷◌, ◌++◌, Option, none, some, Bool, true, false, ◌≡◌, refl, ◌∙◌, sym, ap, arith,
  nat_beq, nat_eq, if◌then◌else◌, inl, inr, Option-cases,
}
use mathlib.Core.List.{append_assoc, append-nil}
use ocap2_extension.Prelude.Map.{Map, lookup-insert}
use ocap2_extension.Core.{Row, Std, ProjectileEvent}
use ocap2_extension.Export.Data.{VehicleRecord, PlacedObjectRecord, Entity}
use ocap2_extension.Export.Names.{is_projectile_marker}
use ocap2_extension.Export.Build.{
  Parts, fireline, fire_at, add_placed, add_projectile, add_projectiles,
}
use ocap2_extension.Export.Stream.{
  Aggregates, firelines_of, push_fireline, aggregate_placed, aggregate_projectile,
  aggregate_projectiles,
}
use ocap2_extension.Export.Table.{table, table_ext, fired, fire_at-table}

-- The line that a projectile leaves, if it is a bullet.
abbrev pub bullet_line : ProjectileEvent → Option Row
bullet_line pe = if is_projectile_marker pe.simulation_type then none else fireline pe

abbrev pub own_line : Bool → Option Row → List Row
own_line true (some ff) = ff ∷ []
own_line true none = []
own_line false line = []

-- The lines of the bullets that one unit fired, in order.
unfoldable pub lines_for : ℕ → List ProjectileEvent → List Row
lines_for j [] = []
lines_for j (pe ∷ pes) = own_line (nat_beq j pe.firer_object_id) (bullet_line pe) ++ lines_for j pes

abbrev pub add_lines : List Row → Entity → Entity
add_lines rows e = record e { frames_fired = e.frames_fired ++ rows }

module _ (std : Std) (vehicles : Map ℕ VehicleRecord) where
  -- The two loops over the projectiles append the same event and marker rows.
  pub aggregate_projectiles-rows :
      (pes : List ProjectileEvent) (a : Aggregates) (p : Parts)
      → a.events ≡ p.events
      → a.markers ≡ p.markers
      → ((aggregate_projectiles std vehicles pes a).events
          ≡ (add_projectiles std vehicles pes p).events)
        × ((aggregate_projectiles std vehicles pes a).markers
            ≡ (add_projectiles std vehicles pes p).markers)
  unfolding aggregate_projectiles add_projectiles
  aggregate_projectiles-rows [] a p e m = (e, m)
  aggregate_projectiles-rows (pe ∷ pes) a p e m =
      aggregate_projectiles-rows pes _ _ (ground arith) (ground arith)

  add_projectile-entities :
      (pe : ProjectileEvent) (p : Parts)
      → (add_projectile std vehicles pe p).entities ≡ elim (bullet_line pe) [
        | none ↦ p.entities
        | some ff ↦ fire_at pe.firer_object_id ff p.entities
      ]
  unfolding add_projectile
  add_projectile-entities pe p = ground arith

  -- What `Build` makes of the entities.
  pub add_projectiles-table :
      (pes : List ProjectileEvent) (n : ℕ) (f : ℕ → Entity) (p : Parts)
      → p.entities ≡ table 0 n f
      → (add_projectiles std vehicles pes p).entities
        ≡ table 0 n (λ j. add_lines (lines_for j pes) (f j))
  unfolding add_projectiles lines_for
  add_projectiles-table [] n f p h =
      h ∙ table_ext 0 n _ _ (λ j lt. ground (arith, append-nil (f j).frames_fired))
  add_projectiles-table (pe ∷ pes) n f p h = elim (Option-cases (bullet_line pe)) [
    | inl e ↦
        add_projectiles-table pes n f _ (add_projectile-entities pe p ∙ rw e h)
        ∙ table_ext 0 n _ _ (λ j lt. ground arith)
    | inr (ff, e) ↦
        let i = pe.firer_object_id in
        add_projectiles-table pes n (fired f i ff) _
          (add_projectile-entities pe p ∙ rw (e, h) (fire_at-table n f i ff))
        ∙ table_ext 0 n _ _
            (λ j lt. ground (arith, append_assoc (f j).frames_fired (ff ∷ []) (lines_for j pes)))
  ]

  aggregate_projectile-lines :
      (pe : ProjectileEvent) (j : ℕ) (a : Aggregates)
      → firelines_of j (aggregate_projectile std vehicles pe a).firelines
        ≡ firelines_of j a.firelines ++ own_line (nat_beq j pe.firer_object_id) (bullet_line pe)
  unfolding aggregate_projectile push_fireline
  aggregate_projectile-lines pe j a = elim (Option-cases (bullet_line pe)) [
    | inl e ↦ ground (arith, append-nil (firelines_of j a.firelines))
    | inr (ff, e) ↦
        let i = pe.firer_object_id in
        ground (
          arith,
          append-nil (firelines_of j a.firelines),
          lookup-insert j i (firelines_of i a.firelines ++ ff ∷ []) a.firelines,
        )
  ]

  -- What `Stream` collects for an id.
  pub aggregate_projectiles-lines :
      (pes : List ProjectileEvent) (j : ℕ) (a : Aggregates)
      → firelines_of j (aggregate_projectiles std vehicles pes a).firelines
        ≡ firelines_of j a.firelines ++ lines_for j pes
  unfolding aggregate_projectiles lines_for
  aggregate_projectiles-lines [] j a = sym (append-nil _)
  aggregate_projectiles-lines (pe ∷ pes) j a =
      aggregate_projectiles-lines pes j _
      ∙ ap (λ rows. rows ++ lines_for j pes) (aggregate_projectile-lines pe j a)
      ∙ append_assoc (firelines_of j a.firelines) _ (lines_for j pes)

module _ (std : Std) where
  pub aggregate_placed-rows :
      (rs : List PlacedObjectRecord) (a : Aggregates) (p : Parts)
      → a.events ≡ p.events
      → a.markers ≡ p.markers
      → ((aggregate_placed std rs a).events ≡ (add_placed std rs p).events)
        × ((aggregate_placed std rs a).markers ≡ (add_placed std rs p).markers)
        × ((aggregate_placed std rs a).firelines ≡ a.firelines)
        × ((add_placed std rs p).entities ≡ p.entities)
  unfolding aggregate_placed add_placed
  aggregate_placed-rows [] a p e m = (e, m, refl, refl)
  aggregate_placed-rows (r ∷ rs) a p e m =
      aggregate_placed-rows rs _ _ (ground arith) (ground arith)
