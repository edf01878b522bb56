-- ===== src/Memory/State.antt =====
-- internal/storage/memory/memory.go: the state. Each method holds `b.mu` for its whole body, so it
-- is one step. Markers are shared by pointer between two maps: `marker_heap` holds the records by
-- address, and the maps hold addresses; `next_address` is the allocator.
use ocap2_extension.Prelude.{ℕ, String, List, [], Option, none}
use ocap2_extension.Prelude.Map.{Map}
use ocap2_extension.Core.{
  Frame, FocusRange, UploadMetadata, Mission, World, Soldier, SoldierState, Vehicle, VehicleState,
  Marker, MarkerState, PlacedObject, PlacedObjectEvent, FiredEvent, GeneralEvent, SectorEvent,
  EndMissionEvent, HitEvent, KillEvent, ChatEvent, RadioEvent, TelemetryEvent, TimeState,
  Ace3DeathEvent, Ace3UnconsciousEvent, ProjectileEvent,
}

pub record SoldierRecord : Type 0 where
  pub soldier : Soldier
  pub states : List SoldierState
  pub fired_events : List FiredEvent

pub record VehicleRecord : Type 0 where
  pub vehicle : Vehicle
  pub states : List VehicleState

pub record MarkerRecord : Type 0 where
  pub marker : Marker
  pub states : List MarkerState

pub record PlacedObjectRecord : Type 0 where
  pub placed_object : PlacedObject
  pub events : List PlacedObjectEvent

-- The event slices that are only ever appended to.
pub record EventLog : Type 0 where
  pub general_events : List GeneralEvent
  pub sector_events : List SectorEvent
  pub end_mission_events : List EndMissionEvent
  pub hit_events : List HitEvent
  pub kill_events : List KillEvent
  pub chat_events : List ChatEvent
  pub radio_events : List RadioEvent
  pub telemetry_events : List TelemetryEvent
  pub time_states : List TimeState
  pub ace3_death_events : List Ace3DeathEvent
  pub ace3_unconscious_events : List Ace3UnconsciousEvent
  pub projectile_events : List ProjectileEvent

-- The two marker maps, the records that they point to, and the id counter.
pub record MarkerStore : Type 0 where
  pub markers : Map String ℕ
  pub markers_by_id : Map ℕ ℕ
  pub marker_heap : Map ℕ MarkerRecord
  pub next_address : ℕ
  pub next_marker_id : ℕ

pub record FocusState : Type 0 where
  pub focus_ranges : List FocusRange
  pub focus_open_start : Option Frame

pub record Backend : Type 0 where
  pub mission : Option Mission
  pub world : Option World
  pub last_export_path : String
  pub last_export_metadata : UploadMetadata
  pub soldiers : Map ℕ SoldierRecord
  pub vehicles : Map ℕ VehicleRecord
  pub placed : Map ℕ PlacedObjectRecord
  pub marker_store : MarkerStore
  pub log : EventLog
  pub focus : FocusState

abbrev pub empty_log : EventLog
empty_log = record {
  general_events = [];
  sector_events = [];
  end_mission_events = [];
  hit_events = [];
  kill_events = [];
  chat_events = [];
  radio_events = [];
  telemetry_events = [];
  time_states = [];
  ace3_death_events = [];
  ace3_unconscious_events = [];
  projectile_events = [];
}

abbrev pub empty_markers : MarkerStore
empty_markers = record {
  markers = [];
  markers_by_id = [];
  marker_heap = [];
  next_address = 0;
  next_marker_id = 0;
}

abbrev pub empty_focus : FocusState
empty_focus = record { focus_ranges = []; focus_open_start = none }

-- The zero value `core.UploadMetadata{}`.
abbrev pub no_metadata : UploadMetadata
no_metadata = record {
  world_name = "";
  mission_name = "";
  mission_duration = 0;
  tag = "";
  end_frame = 0;
  focus_ranges = [];
}

-- `New`
abbrev pub new : Backend
new = record {
  mission = none;
  world = none;
  last_export_path = "";
  last_export_metadata = no_metadata;
  soldiers = [];
  vehicles = [];
  placed = [];
  marker_store = empty_markers;
  log = empty_log;
  focus = empty_focus;
}
