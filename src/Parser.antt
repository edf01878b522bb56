-- ===== src/Parser.antt =====
-- internal/parser: types.go, the events that the worker still has to resolve, and parser.go's
-- interface Service, from a command's arguments to a value.
pub mod Decode
pub mod Units
pub mod Safety
pub mod RoundTrip
pub mod Returns
pub mod Start
pub mod Filled
pub mod Rows
pub mod Map
pub mod Arrays
pub mod Reports
use ocap2_extension.Prelude.{ℕ, String, List, Option}
use ocap2_extension.Core.Result.{Result}
use ocap2_extension.Core.{
  Timestamp, Position3D, Frame, Mission, World, Soldier, SoldierState, Vehicle, VehicleState,
  Marker, DeleteMarker, PlacedObject, PlacedObjectEvent, GeneralEvent, SectorEvent, EndMissionEvent,
  ChatEvent, RadioEvent, TelemetryEvent, TimeState, Ace3DeathEvent, Ace3UnconsciousEvent,
  TrajectoryPoint,
}

pub record HitPart : Type 0 where
  pub entity_id : ℕ
  pub components_hit : List String
  pub capture_frame : Frame
  pub position : Position3D

pub record ParsedProjectile : Type 0 where
  pub capture_frame : Frame
  pub firer_object_id : ℕ
  pub vehicle_object_id : Option ℕ
  pub weapon_display : String
  pub magazine_display : String
  pub muzzle_display : String
  pub simulation_type : String
  pub magazine_icon : String
  pub trajectory : List TrajectoryPoint
  pub hit_parts : List HitPart

pub record ParsedKill : Type 0 where
  pub time : Timestamp
  pub capture_frame : Frame
  pub victim_id : ℕ
  pub killer_id : ℕ
  pub weapon_vehicle : String
  pub weapon_name : String
  pub weapon_magazine : String
  pub event_text : String
  pub distance : ℕ

pub record MarkerMove : Type 0 where
  pub marker_name : String
  pub capture_frame : Frame
  pub position : Position3D
  pub direction : ℕ
  pub alpha : ℕ
  pub text : String
  pub color : String
  pub size : String
  pub marker_type : String
  pub brush : String
  pub shape : String
  pub time : Timestamp

abbrev pub Parse : Type 0 → Type 0
Parse A = List String → Result A

pub record Service : Type 0 where
  pub parse_mission : Parse (Mission × World)
  pub parse_soldier : Parse Soldier
  pub parse_vehicle : Parse Vehicle
  pub parse_soldier_state : Parse SoldierState
  pub parse_vehicle_state : Parse VehicleState
  pub parse_projectile_event : Parse ParsedProjectile
  pub parse_general_event : Parse GeneralEvent
  pub parse_sector_event : Parse SectorEvent
  pub parse_end_mission_event : Parse EndMissionEvent
  pub parse_kill_event : Parse ParsedKill
  pub parse_chat_event : Parse ChatEvent
  pub parse_radio_event : Parse RadioEvent
  pub parse_time_state : Parse TimeState
  pub parse_ace3_death_event : Parse Ace3DeathEvent
  pub parse_ace3_unconscious_event : Parse Ace3UnconsciousEvent
  pub parse_marker_create : Parse Marker
  pub parse_marker_move : Parse MarkerMove
  pub parse_marker_delete : Parse DeleteMarker
  pub parse_soldier_delete : Parse (ℕ × Frame)
  pub parse_vehicle_delete : Parse (ℕ × Frame)
  pub parse_telemetry_event : Parse TelemetryEvent
  pub parse_placed_object : Parse PlacedObject
  pub parse_placed_object_event : Parse PlacedObjectEvent
  pub parse_focus_start : Parse Frame
  pub parse_focus_end : Parse Frame
