-- ===== src/Core/Events.antt =====
-- pkg/core/events.go, lines 8 to 168.
use ocap2_extension.Prelude.{ℕ, ℤ, String, Bool, List, Option}
use ocap2_extension.Core.Dynamic.{FieldMap}
use ocap2_extension.Core.Types.{Frame, Timestamp, Position3D}

pub record FiredEvent : Type 0 where
  pub soldier_id : ℕ
  pub time : Timestamp
  pub capture_frame : Frame
  pub weapon : String
  pub magazine : String
  pub firing_mode : String
  pub start_pos : Position3D
  pub end_pos : Position3D

pub record GeneralEvent : Type 0 where
  pub id : ℕ
  pub time : Timestamp
  pub capture_frame : Frame
  pub name : String
  pub message : String
  pub extra_data : FieldMap

pub record SectorEvent : Type 0 where
  pub id : ℕ
  pub time : Timestamp
  pub capture_frame : Frame
  pub name : String
  pub object_type : String
  pub unit_name : String
  pub side : String
  pub pos_x : ℕ
  pub pos_y : ℕ
  pub pos_z : ℕ

pub record EndMissionEvent : Type 0 where
  pub id : ℕ
  pub time : Timestamp
  pub capture_frame : Frame
  pub side : String
  pub message : String

pub record HitEvent : Type 0 where
  pub id : ℕ
  pub time : Timestamp
  pub capture_frame : Frame
  pub victim_soldier_id : Option ℕ
  pub victim_vehicle_id : Option ℕ
  pub shooter_soldier_id : Option ℕ
  pub shooter_vehicle_id : Option ℕ
  pub weapon_vehicle : String
  pub weapon_name : String
  pub weapon_magazine : String
  pub event_text : String
  pub distance : ℕ

pub record KillEvent : Type 0 where
  pub id : ℕ
  pub time : Timestamp
  pub capture_frame : Frame
  pub victim_soldier_id : Option ℕ
  pub victim_vehicle_id : Option ℕ
  pub killer_soldier_id : Option ℕ
  pub killer_vehicle_id : Option ℕ
  pub weapon_vehicle : String
  pub weapon_name : String
  pub weapon_magazine : String
  pub event_text : String
  pub distance : ℕ

pub record ChatEvent : Type 0 where
  pub id : ℕ
  pub soldier_id : Option ℕ
  pub time : Timestamp
  pub capture_frame : Frame
  pub channel : String
  pub from_name : String
  pub sender_name : String
  pub message : String
  pub player_uid : String

pub record RadioEvent : Type 0 where
  pub id : ℕ
  pub soldier_id : Option ℕ
  pub time : Timestamp
  pub capture_frame : Frame
  pub radio : String
  pub radio_type : String
  pub start_end : String
  pub channel : ℤ
  pub is_additional : Bool
  pub frequency : ℕ
  pub code : String

pub record Ace3DeathEvent : Type 0 where
  pub id : ℕ
  pub soldier_id : ℕ
  pub time : Timestamp
  pub capture_frame : Frame
  pub reason : String
  pub last_damage_source_id : Option ℕ

pub record Ace3UnconsciousEvent : Type 0 where
  pub id : ℕ
  pub soldier_id : ℕ
  pub time : Timestamp
  pub capture_frame : Frame
  pub is_unconscious : Bool

pub record TrajectoryPoint : Type 0 where
  pub position : Position3D
  pub frame_num : Frame

pub record ProjectileHit : Type 0 where
  pub capture_frame : Frame
  pub position : Position3D
  pub soldier_id : Option ℕ
  pub vehicle_id : Option ℕ
  pub components_hit : List String

pub record ProjectileEvent : Type 0 where
  pub capture_frame : Frame
  pub firer_object_id : ℕ
  pub vehicle_object_id : Option ℕ
  pub weapon_display : String
  pub magazine_display : String
  pub muzzle_display : String
  pub simulation_type : String
  pub magazine_icon : String
  pub trajectory : List TrajectoryPoint
  pub hits : List ProjectileHit

pub record TimeState : Type 0 where
  pub id : ℕ
  pub time : Timestamp
  pub capture_frame : Frame
  pub system_time_utc : String
  pub mission_date : String
  pub time_multiplier : ℕ
  pub mission_time : ℕ
