-- ===== src/Export/Data.antt =====
-- internal/storage/memory/export/v1: what the export is built from (builder.go) and its root
-- structures (types.go).
use ocap2_extension.Prelude.{ℕ, ℤ, String, List, Option}
use ocap2_extension.Prelude.Map.{Map}
use ocap2_extension.Core.{
  Row, Mission, World, Soldier, SoldierState, Vehicle, VehicleState, Marker, MarkerState,
  PlacedObject, PlacedObjectEvent, FiredEvent, GeneralEvent, SectorEvent, EndMissionEvent, HitEvent,
  KillEvent, TimeState, ProjectileEvent,
}

pub record SoldierRecord : Type 0 where
  pub soldier : Soldier
  pub states : List SoldierState
  pub fired_events : List FiredEvent

pub record VehicleRecord : Type 0 where
  pub vehicle : Vehicle
  pub states : List VehicleState

pub record MarkerRecord : Type 0 where
  pub marker : Marker
  pub states : List MarkerState

pub record PlacedObjectRecord : Type 0 where
  pub placed_object : PlacedObject
  pub events : List PlacedObjectEvent

-- `Mission` and `World` are pointers, which `Build` dereferences.
pub record MissionData : Type 0 where
  pub mission : Option Mission
  pub world : Option World
  pub soldiers : Map ℕ SoldierRecord
  pub vehicles : Map ℕ VehicleRecord
  pub markers : Map String MarkerRecord
  pub placed_objects : Map ℕ PlacedObjectRecord
  pub general_events : List GeneralEvent
  pub sector_events : List SectorEvent
  pub end_mission_events : List EndMissionEvent
  pub hit_events : List HitEvent
  pub kill_events : List KillEvent
  pub time_states : List TimeState
  pub projectile_events : List ProjectileEvent

pub record Time : Type 0 where
  pub date : String
  pub frame_num : ℤ
  pub system_time_utc : String
  pub time : ℕ
  pub time_multiplier : ℕ

pub record Entity : Type 0 where
  pub id : ℕ
  pub name : String
  pub group : String
  pub side : String
  pub is_player : ℤ
  pub kind : String
  pub role : String
  pub class : String
  pub start_frame_num : ℤ
  pub positions : List Row
  pub frames_fired : List Row

pub record Export : Type 0 where
  pub addon_version : String
  pub extension_version : String
  pub extension_build : String
  pub mission_name : String
  pub mission_author : String
  pub world_name : String
  pub end_frame : ℤ
  pub capture_delay : ℕ
  pub tags : String
  pub times : List Time
  pub entities : List Entity
  pub events : List Row
  pub markers : List Row
