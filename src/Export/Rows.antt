-- ===== src/Export/Rows.antt =====
-- builder.go: the event rows.
use Prim.Native.Char.{code}
use ocap2_extension.Prelude.{
  ℕ, ℤ, String, Bool, false, ◌||◌, List, [], ◌∷◌, ◌++◌, map, Option, none, some, nat_beq, string_eq,
  ◌==◌, if◌then◌else◌,
}
use ocap2_extension.Prelude.Map.{lookup}
use ocap2_extension.Core.{
  Any, int, uint, f32, f64, str, arr_of, Row, Std, Position3D, GeneralEvent, SectorEvent,
  EndMissionEvent, HitEvent, KillEvent, PlacedObject, PlacedObjectEvent, ProjectileEvent,
  ProjectileHit, TrajectoryPoint,
}
use ocap2_extension.Export.Frames.{frame_to_v1}
use ocap2_extension.Export.Names.{format_weapon_text}

-- `[]float64{p.X, p.Y, p.Z}`
abbrev pub coordinates : Position3D → Any
coordinates p = arr_of (f64 p.x ∷ f64 p.y ∷ f64 p.z ∷ [])

opens_json : String → Bool
opens_json String.[] = false
opens_json (String.◌∷◌ c s) = nat_beq (code c) b'[' || nat_beq (code c) b'{'

or_text : String → Option Any → Any
or_text message none = str message
or_text message (some parsed) = parsed

message_value : Std → String → Any
unfolding opens_json or_text
message_value std message =
    if opens_json message then or_text message (std.unmarshal message) else str message

-- The connection event's fourth value: `evt.ExtraData["playerUid"].(string)`, if not empty.
player_uid : Option Any → Row
player_uid (some (str uid)) = if uid == "" then [] else str uid ∷ []
player_uid _ = []

unfoldable pub build_general_event : Std → GeneralEvent → Row
unfolding message_value player_uid
build_general_event std evt =
    int (frame_to_v1 evt.capture_frame)
    ∷ str evt.name
    ∷ message_value std evt.message
    ∷ (if evt.name == "connected" || evt.name == "disconnected"
        then player_uid (lookup "playerUid" evt.extra_data)
        else [])

unfoldable pub sector_row : SectorEvent → Row
sector_row evt =
    int (frame_to_v1 evt.capture_frame)
    ∷ str evt.name
    ∷ arr_of (
        str evt.object_type
        ∷ str evt.unit_name
        ∷ str evt.side
        ∷ arr_of (f64 evt.pos_x ∷ f64 evt.pos_y ∷ f64 evt.pos_z ∷ [])
        ∷ [])
    ∷ []

unfoldable pub end_mission_row : EndMissionEvent → Row
end_mission_row evt =
    int (frame_to_v1 evt.capture_frame)
    ∷ str "endMission"
    ∷ arr_of (str evt.side ∷ str evt.message ∷ [])
    ∷ []

-- The vehicle's id if it is set, else the soldier's, else 0.
abbrev pub entity_id : Option ℕ → Option ℕ → ℕ
entity_id (some v) s = v
entity_id none (some s) = s
entity_id none none = 0

unfoldable pub hit_row : HitEvent → Row
hit_row evt =
    int (frame_to_v1 evt.capture_frame)
    ∷ str "hit"
    ∷ uint (entity_id evt.victim_vehicle_id evt.victim_soldier_id)
    ∷ arr_of
        (uint (entity_id evt.shooter_vehicle_id evt.shooter_soldier_id) ∷ str evt.event_text ∷ [])
    ∷ f32 evt.distance
    ∷ []

unfoldable pub kill_row : KillEvent → Row
kill_row evt =
    int (frame_to_v1 evt.capture_frame)
    ∷ str "killed"
    ∷ uint (entity_id evt.victim_vehicle_id evt.victim_soldier_id)
    ∷ arr_of
        (uint (entity_id evt.killer_vehicle_id evt.killer_soldier_id) ∷ str evt.event_text ∷ [])
    ∷ f32 evt.distance
    ∷ []

module _ (std : Std) where
  -- `float32(math.Sqrt(dx*dx + dy*dy))`
  distance : Position3D → Position3D → ℕ
  distance p q =
      let dx = std.sub64 p.x q.x in
      let dy = std.sub64 p.y q.y in
      std.to_f32 (std.sqrt64 (std.add64 (std.mul64 dx dx) (std.mul64 dy dy)))

  placed_hit : PlacedObject → PlacedObjectEvent → ℕ → Row
  unfolding distance
  placed_hit placed evt id =
      int (frame_to_v1 evt.capture_frame)
      ∷ str "hit"
      ∷ uint id
      ∷ arr_of (uint placed.owner_id ∷ str placed.display_name ∷ [])
      ∷ f32 (distance placed.position evt.position)
      ∷ []

  -- The rows of a placed object's `hit` events that name an entity.
  unfoldable pub placed_hits : PlacedObject → List PlacedObjectEvent → List Row
  unfolding placed_hit
  placed_hits placed [] = []
  placed_hits placed (evt ∷ evts) =
      (if evt.event_type == "hit"
        then elim evt.hit_entity_id [ none ↦ [] | some id ↦ placed_hit placed evt id ∷ [] ]
        else [])
      ++ placed_hits placed evts

  -- The first trajectory point's position, or the zero value.
  start_pos : List TrajectoryPoint → Position3D
  start_pos [] = record { x = 0; y = 0; z = 0 }
  start_pos (p ∷ ps) = p.position

  projectile_hit : ProjectileEvent → ProjectileHit → Row
  unfolding distance start_pos
  projectile_hit pe hit =
      let weapon = if pe.muzzle_display == "" then pe.weapon_display else pe.muzzle_display in
      int (frame_to_v1 hit.capture_frame)
      ∷ str "hit"
      ∷ uint (entity_id hit.soldier_id hit.vehicle_id)
      ∷ arr_of
          (uint pe.firer_object_id ∷ str (format_weapon_text "" weapon pe.magazine_display) ∷ [])
      ∷ f32 (distance (start_pos pe.trajectory) hit.position)
      ∷ []

  -- The hit rows of a projectile.
  unfoldable pub projectile_hits : ProjectileEvent → List Row
  unfolding projectile_hit
  projectile_hits pe = map (projectile_hit pe) pe.hits

-- `row[0].(int)`, which panics on anything else.
unfoldable pub row_frame : Row → Option ℤ
row_frame (int f ∷ rest) = some f
row_frame _ = none
