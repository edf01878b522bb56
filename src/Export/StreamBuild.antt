-- ===== src/Export/StreamBuild.antt =====
-- stream.go against builder.go.
use mathlib.Core.Path.{fun_ext}
use mathlib.Core.List.{append-nil}
use text.Mathlib.TextLemmas.{append-nil as text_append-nil}
use ocap2_extension.Prelude.{
  ℕ, ◌+◌, ◌≤◌, ◌<◌, ◌%◌, suc, zero, String, List, [], ◌∷◌, ◌++◌, map, Option, none, some, Bool,
  true, false, ◌≡◌, ◌⊎◌, refl, ◌∙◌, sym, ap, arith, nat_beq, nat_eq, if◌then◌else◌, All, ltb, inl,
  inr, Bool-cases, Option-cases,
}
use ocap2_extension.Prelude.Map.{Map, lookup, contains, All-lookup}
use ocap2_extension.Prelude.Panic.{◌>>=◌}
use ocap2_extension.Core.{Row, Std, ProjectileEvent, Mission, World}
use ocap2_extension.Export.Data.{MissionData, Entity}
use ocap2_extension.Export.Names.{is_projectile_marker}
use ocap2_extension.Export.Entities.{fired_row, build_soldier_entity, build_vehicle_entity}
use ocap2_extension.Export.Build.{
  Parts, parts, build, has_entities, max_frame, max_entity_id, place_soldiers, blank_entities,
  sort_events, plain_events, sorted_placed_objects, export_of,
}
use ocap2_extension.Export.Json.{
  Json, Writer, write, write_bytes, write_elements, encode_export, ◌then_write◌,
}
use ocap2_extension.Export.Stream.{
  Metadata, Aggregates, firelines_of, build_aggregates, compute_metadata, entity_for_id,
  write_entities, write_all, write_export, stream,
}
use ocap2_extension.Export.Table.{table}
use ocap2_extension.Export.Metadata.{compute_metadata_lem, build_times_lem}
use ocap2_extension.Export.Placing.{IsKeyed, unit_at, entity_count, placed-table}
use ocap2_extension.Export.Firelines.{
  lines_for, add_lines, aggregate_projectiles-rows, add_projectiles-table,
  aggregate_projectiles-lines, aggregate_placed-rows,
}

-- A bullet that a vehicle or an unknown unit fired is where the two exports differ: `Build` adds its
-- line to whatever entity has the firer's id, `Stream` to soldiers only.
abbrev pub IsSoldierShot : MissionData → ProjectileEvent → Type 0
IsSoldierShot d pe =
    (is_projectile_marker pe.simulation_type ≡ true)
    ⊎ (contains pe.firer_object_id d.soldiers ≡ true)
    ⊎ (max_entity_id d < pe.firer_object_id)

pub record IsExportable (d : MissionData) : Type 0 where
  pub keyed : IsKeyed d
  pub shots : All (IsSoldierShot d) d.projectile_events

no_lines :
    (d : MissionData) (j : ℕ) (pes : List ProjectileEvent)
    → j ≤ max_entity_id d
    → lookup j d.soldiers ≡ none
    → All (IsSoldierShot d) pes
    → lines_for j pes ≡ []
unfolding lines_for contains
no_lines d j [] le h s = refl
no_lines d j (pe ∷ pes) le h (t, s) = ground (arith, no_lines d j pes le h s)

module _ (std : Std) where
  -- The entity that `Stream` writes for an id is the one that `Build` holds at that index.
  entity_for_id-unit_at :
      (d : MissionData) (j : ℕ)
      → IsExportable d
      → j ≤ max_entity_id d
      → entity_for_id std d (max_frame d) j (lines_for j d.projectile_events)
        ≡ add_lines (lines_for j d.projectile_events) (unit_at std d j)
  unfolding entity_for_id unit_at build_soldier_entity
  entity_for_id-unit_at d j v le = elim (Option-cases (lookup j d.soldiers)) [
    | inl e ↦ elim (Option-cases (lookup j d.vehicles)) [
      | inl n ↦ ground (arith, no_lines d j d.projectile_events le e v.shots)
      | inr (w, n) ↦ ground (
        arith,
        no_lines d j d.projectile_events le e v.shots,
        append-nil (build_vehicle_entity std w (max_frame d)).frames_fired,
      )
    ]
    | inr (r, e) ↦
        let apart : lookup j d.vehicles ≡ none =
          All-lookup (λ x. lookup x.0 d.vehicles ≡ none) j r d.soldiers v.keyed.disjoint e in
        ground (arith, append-nil (map fired_row r.fired_events))
  ]

bind_ext {ℓ κ} :
    {A : Type ℓ} {B : Type κ} (x : Option A) (f g : A → Option B)
    → ((a : A) → f a ≡ g a)
    → (x >>= f) ≡ (x >>= g)
bind_ext none f g h = refl
bind_ext (some a) f g h = h a

bind_assoc {ℓ κ μ} :
    {A : Type ℓ} {B : Type κ} {C : Type μ} (x : Option A) (f : A → Option B) (g : B → Option C)
    → (x >>= λ a. f a >>= g) ≡ ((x >>= f) >>= g)
bind_assoc none f g = refl
bind_assoc (some a) f g = refl

-- The order in which three values are required does not matter.
reorder {ℓ} :
    {A B C D E : Type ℓ} (x : Option A) (y : Option B) (z : Option C) (f : A → B → C → Option E)
    (g : A → B → C → D) (h : D → Option E)
    → ((a : A) (b : B) (c : C) → f a b c ≡ h (g a b c))
    → (x >>= λ a. y >>= λ b. z >>= λ c. f a b c)
      ≡ ((y >>= λ b. z >>= λ c. x >>= λ a. some (g a b c)) >>= h)
reorder none none z f g h e = refl
reorder none (some b) none f g h e = refl
reorder none (some b) (some c) f g h e = refl
reorder (some a) none z f g h e = refl
reorder (some a) (some b) none f g h e = refl
reorder (some a) (some b) (some c) f g h e = e a b c

-- One element of the array, with the comma that stands before all but the first.
abbrev element : Json → Bool → Entity → Writer
element json leading e =
    (if leading then write "," else write "") then_write write_bytes json (json.marshal_entity e)

module _ (std : Std) (json : Json) (d : MissionData) (m : Metadata) (lines : Map ℕ (List Row)) where
  abbrev after : ℕ → ℕ → Writer
  after fuel id out =
      if nat_beq id m.max_entity_id
      then some out
      else write_entities std json fuel d m lines ((id + 1) % 65_536) out

  write_entities-suc :
      (fuel id : ℕ) (out : String)
      → write_entities std json (suc fuel) d m lines id out ≡ (
          element json (ltb 0 id) (entity_for_id std d m.max_frame id (firelines_of id lines)) out
          >>= after fuel id)
  unfolding write_entities
  write_entities-suc fuel id out = refl

  -- The loop over the ids writes the elements of the array, and its fuel is enough.
  write_entities-table :
      (fuel n id : ℕ) (f : ℕ → Entity) (out : String)
      → ((j : ℕ)
          → j ≤ m.max_entity_id
          → entity_for_id std d m.max_frame j (firelines_of j lines) ≡ f j)
      → id + n ≡ m.max_entity_id
      → n < fuel
      → m.max_entity_id < 65_535
      → write_entities std json fuel d m lines id out
        ≡ write_elements json (ltb 0 id) (table id (suc n) f) out
  unfolding write_elements
  write_entities-table zero n id f out same last enough room = absurd (omega arith)
  write_entities-table (suc fuel) zero id f out same last enough room =
      rw (write_entities-suc fuel id out, same id (omega arith))
        (bind_ext (element json (ltb 0 id) (f id) out) (after fuel id) some λ out'. ground arith)
  write_entities-table (suc fuel) (suc n) id f out same last enough room =
      rw (write_entities-suc fuel id out, same id (omega arith))
        (bind_ext (element json (ltb 0 id) (f id) out) (after fuel id)
          (write_elements json true (table (id + 1) (suc n) f))
          λ out'. ground (arith, write_entities-table fuel n (id + 1) f out' same))

module _ (std : Std) (json : Json) (d : MissionData) (v : IsExportable d) where
  aggregates : Aggregates
  aggregates = build_aggregates std d

  -- The entities of the export, by id.
  entity_at : ℕ → Entity
  entity_at j = add_lines (lines_for j d.projectile_events) (unit_at std d j)

  placed_parts : Parts
  placed_parts = parts std d (table 0 (entity_count d) (unit_at std d))

  record Agree : Type 0 where
    events : aggregates.events ≡ placed_parts.events
    markers : aggregates.markers ≡ placed_parts.markers
    entities : placed_parts.entities ≡ table 0 (entity_count d) entity_at
    firelines : (j : ℕ) → firelines_of j aggregates.firelines ≡ lines_for j d.projectile_events

  agree : Agree
  unfolding aggregates placed_parts entity_at parts build_aggregates plain_events lookup
  agree =
      let rs = sorted_placed_objects d.placed_objects in
      let (e, m, l, t) = aggregate_placed-rows std rs _ _ refl refl in
      let (e', m') = aggregate_projectiles-rows std d.vehicles d.projectile_events _ _ e m in
      record {
        events = e';
        markers = m';
        entities = add_projectiles-table std d.vehicles d.projectile_events _ _ _ t;
        firelines = λ j.
            aggregate_projectiles-lines std d.vehicles d.projectile_events j _
            ∙ ap (λ x. firelines_of j x ++ lines_for j d.projectile_events) l;
      }

  write_all-table :
      (out : String)
      → write_all std json d (compute_metadata d) aggregates.firelines out
        ≡ write_elements json false (table 0 (entity_count d) entity_at) out
  unfolding write_all entity_at has_entities write_elements
  write_all-table out =
      let count : suc (max_entity_id d) ≡ max_entity_id d + 1 = omega arith in
      elim (Bool-cases (has_entities d)) [
        | inl e ↦
            rw (e, compute_metadata_lem d)
              ((write_entities-table std json d _ aggregates.firelines 65_536 (max_entity_id d) 0
                  entity_at out
                  (λ j le.
                    ap (entity_for_id std d (max_frame d) j) (agree.firelines j)
                    ∙ entity_for_id-unit_at std d j v le)
                  (omega arith) (omega (arith, v.keyed.room)) v.keyed.room
                ∙ ap (λ n. write_elements json false (table 0 n entity_at) out) count))
        | inr e ↦ rw e (ap some (text_append-nil out))
      ]

  -- Once the events are sorted, what is written is the encoding.
  write_export-encode :
      (m : Mission) (w : World) (events : List Row)
      → write_export std json m w d (compute_metadata d) aggregates events ""
        ≡ encode_export json (export_of m w d placed_parts events) ""
  unfolding write_export encode_export
  write_export-encode m w events = rw (
    fun_ext write_all-table,
    ← agree.entities,
    compute_metadata_lem d,
    build_times_lem d.time_states [],
    agree.markers,
  )

  build-parts : build std d ≡ (
      d.mission >>= λ m. d.world >>= λ w.
      sort_events placed_parts.events >>= λ events. some (export_of m w d placed_parts events))
  unfolding build placed_parts
  build-parts = bind_ext d.mission _ _ λ m. bind_ext d.world _ _ λ w.
      bind_assoc (place_soldiers (max_frame d) d.soldiers (blank_entities d)) _ _
      ∙ ap
          (λ x. x >>= λ es. sort_events (parts std d es).events >>= λ events.
            some (export_of m w d (parts std d es) events))
          (placed-table std d v.keyed)

  -- Streaming a mission gives the text of encoding the whole export, or fails where that fails, if the
  -- units stand under their own ids, once each, none both soldier and vehicle, with ids below 65535,
  -- and each bullet comes from a soldier or from an id above all units'.
  pub stream-build : stream std json d ≡ (build std d >>= λ x. encode_export json x "")
  unfolding stream aggregates
  stream-build =
      ap
        (λ rows. sort_events rows >>= λ events. d.mission >>= λ m.
          d.world >>= λ w. write_export std json m w d (compute_metadata d) aggregates events "")
        agree.events
      ∙ reorder (sort_events placed_parts.events) d.mission d.world
          (λ events m w. write_export std json m w d (compute_metadata d) aggregates events "")
          (λ events m w. export_of m w d placed_parts events) (λ x. encode_export json x "")
          (λ events m w. write_export-encode m w events)
      ∙ ap (λ x. x >>= λ y. encode_export json y "") (sym build-parts)
