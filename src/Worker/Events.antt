-- ===== src/Worker/Events.antt =====
-- internal/worker/dispatch.go: the handlers of events, and the classification of raw entity ids.
use ocap2_extension.Prelude.{ℕ, String, List, [], ◌∷◌, Option, none, some, nat_eq, ◌%◌}
use ocap2_extension.Core.{uint, ProjectileEvent, ProjectileHit, KillEvent}
use ocap2_extension.Core.Result.{Error, errorf, ok, Exec, ◌>>=◌, ◌>>◌}
use ocap2_extension.Cache.EntityCache.{EntityCache, get_soldier, get_vehicle}
use ocap2_extension.Parser.{Service, HitPart, ParsedProjectile, ParsedKill}
use ocap2_extension.Storage.{Storage}
use ocap2_extension.Worker.State.{Manager, parsed, storing, finding_if_set}

abbrev pub uint16_mod : ℕ
uint16_mod = 65_536

-- Soldier id and vehicle id; a soldier goes first, and an unknown id is neither.
unfoldable pub classify_entity : EntityCache → ℕ → Option ℕ × Option ℕ
classify_entity c id = elim (get_soldier c id) [
  | some s ↦ (some id, none)
  | none ↦ elim (get_vehicle c id) [ some v ↦ (none, some id) | none ↦ (none, none) ]
]

abbrev pub hit_of : HitPart → Option ℕ → Option ℕ → ProjectileHit
hit_of hp soldier_id vehicle_id = record {
  capture_frame = hp.capture_frame;
  position = hp.position;
  soldier_id = soldier_id;
  vehicle_id = vehicle_id;
  components_hit = hp.components_hit;
}

-- A hit on an unknown entity is left out.
unfoldable pub classify_hit_parts : EntityCache → List HitPart → List ProjectileHit
classify_hit_parts c [] = []
classify_hit_parts c (hp ∷ hps) = elim (get_soldier c hp.entity_id) [
  | some s ↦ hit_of hp (some hp.entity_id) none ∷ classify_hit_parts c hps
  | none ↦ elim (get_vehicle c hp.entity_id) [
    | some v ↦ hit_of hp none (some hp.entity_id) ∷ classify_hit_parts c hps
    | none ↦ classify_hit_parts c hps
  ]
]

unfoldable pub projectile_of : EntityCache → ParsedProjectile → ProjectileEvent
unfolding classify_hit_parts
projectile_of c p = record {
  capture_frame = p.capture_frame;
  firer_object_id = p.firer_object_id;
  vehicle_object_id = p.vehicle_object_id;
  weapon_display = p.weapon_display;
  magazine_display = p.magazine_display;
  muzzle_display = p.muzzle_display;
  simulation_type = p.simulation_type;
  magazine_icon = p.magazine_icon;
  trajectory = p.trajectory;
  hits = classify_hit_parts c p.hit_parts;
}

unfoldable pub kill_of : EntityCache → ParsedKill → KillEvent
unfolding classify_entity
kill_of c k =
    let (victim_soldier, victim_vehicle) = classify_entity c k.victim_id in
    let (killer_soldier, killer_vehicle) = classify_entity c k.killer_id in
    record {
      id = 0;
      time = k.time;
      capture_frame = k.capture_frame;
      victim_soldier_id = victim_soldier;
      victim_vehicle_id = victim_vehicle;
      killer_soldier_id = killer_soldier;
      killer_vehicle_id = killer_vehicle;
      weapon_vehicle = k.weapon_vehicle;
      weapon_name = k.weapon_name;
      weapon_magazine = k.weapon_magazine;
      event_text = k.event_text;
      distance = k.distance;
    }

-- `GetSoldier(uint16(id))`, and the soldier or vehicle with an id.
abbrev pub any_soldier : EntityCache → ℕ → Option ℕ
any_soldier c id = elim (get_soldier c (id % uint16_mod)) [ none ↦ none | some s ↦ some s.id ]

abbrev pub any_unit : EntityCache → ℕ → Option ℕ
any_unit c id = elim (get_soldier c (id % uint16_mod)) [
  | some s ↦ some s.id
  | none ↦ elim (get_vehicle c (id % uint16_mod)) [ none ↦ none | some v ↦ some v.id ]
]

unfoldable pub no_sender : String → ℕ → Error
no_sender what id = errorf what (uint id ∷ [])

unfoldable pub no_source : ℕ → Error
no_source id =
    errorf "could not find entity with ocap id %d for ace3 death last damage source"
      (uint (id % uint16_mod) ∷ [])

module _ {S : Type 0} (p : Service) (b : Storage S) where
  -- The cache that a handler sees.
  abbrev pub with_cache : {A : Type 0} → (EntityCache → A) → Exec (Manager S) A
  with_cache f m = (ok (f m.entity_cache), m)

  unfoldable pub handle_projectile_event : List String → Exec (Manager S) (Unit {0})
  handle_projectile_event args = do
    event ← parsed "failed to log projectile event" (p.parse_projectile_event args)
    core_event ← with_cache (λ c. projectile_of c event)
    storing "record projectile event" (b.record_projectile_event core_event)

  unfoldable pub handle_general_event : List String → Exec (Manager S) (Unit {0})
  handle_general_event args = do
    obj ← parsed "failed to log general event" (p.parse_general_event args)
    storing "record general event" (b.record_general_event obj)

  unfoldable pub handle_sector_event : List String → Exec (Manager S) (Unit {0})
  handle_sector_event args = do
    obj ← parsed "failed to parse sector event" (p.parse_sector_event args)
    storing "record sector event" (b.record_sector_event obj)

  unfoldable pub handle_end_mission_event : List String → Exec (Manager S) (Unit {0})
  handle_end_mission_event args = do
    obj ← parsed "failed to parse end mission event" (p.parse_end_mission_event args)
    storing "record end mission event" (b.record_end_mission_event obj)

  unfoldable pub handle_kill_event : List String → Exec (Manager S) (Unit {0})
  handle_kill_event args = do
    event ← parsed "failed to log kill event" (p.parse_kill_event args)
    core_event ← with_cache (λ c. kill_of c event)
    storing "record kill event" (b.record_kill_event core_event)

  unfoldable pub handle_chat_event : List String → Exec (Manager S) (Unit {0})
  unfolding no_sender
  handle_chat_event args = do
    obj ← parsed "failed to log chat event" (p.parse_chat_event args)
    finding_if_set (no_sender "could not find soldier with ocap id %d for chat event") any_soldier
        obj.soldier_id
    storing "record chat event" (b.record_chat_event obj)

  unfoldable pub handle_radio_event : List String → Exec (Manager S) (Unit {0})
  unfolding no_sender
  handle_radio_event args = do
    obj ← parsed "failed to log radio event" (p.parse_radio_event args)
    finding_if_set (no_sender "could not find soldier with ocap id %d for radio event") any_soldier
        obj.soldier_id
    storing "record radio event" (b.record_radio_event obj)

  unfoldable pub handle_telemetry_event : List String → Exec (Manager S) (Unit {0})
  handle_telemetry_event args = do
    obj ← parsed "failed to parse telemetry event" (p.parse_telemetry_event args)
    storing "record telemetry event" (b.record_telemetry_event obj)

  unfoldable pub handle_ace3_death_event : List String → Exec (Manager S) (Unit {0})
  unfolding no_sender no_source
  handle_ace3_death_event args = do
    obj ← parsed "failed to log ace3 death event" (p.parse_ace3_death_event args)
    finding_if_set (no_sender "could not find soldier with ocap id %d for ace3 death event")
        any_soldier (some obj.soldier_id)
    finding_if_set no_source any_unit obj.last_damage_source_id
    storing "record ace3 death event" (b.record_ace3_death_event obj)

  unfoldable pub handle_ace3_unconscious_event : List String → Exec (Manager S) (Unit {0})
  unfolding no_sender
  handle_ace3_unconscious_event args = do
    obj ← parsed "failed to log ace3 unconscious event" (p.parse_ace3_unconscious_event args)
    finding_if_set (no_sender "could not find soldier with ocap id %d for ace3 unconscious event")
        any_soldier (some obj.soldier_id)
    storing "record ace3 unconscious event" (b.record_ace3_unconscious_event obj)
