-- ===== src/Core/Telemetry.antt =====
-- pkg/core/events.go, lines 170 to 270: the server's telemetry snapshot.
use ocap2_extension.Prelude.{ℕ, String, List}
use ocap2_extension.Core.Types.{Frame, Timestamp}

pub record EntityLocality : Type 0 where
  pub units_total : ℕ
  pub units_alive : ℕ
  pub units_dead : ℕ
  pub groups : ℕ
  pub vehicles : ℕ
  pub weapon_holders : ℕ

pub record SideEntityCount : Type 0 where
  pub local : EntityLocality
  pub remote : EntityLocality

pub record SideEntityCounts : Type 0 where
  pub east : SideEntityCount
  pub west : SideEntityCount
  pub independent : SideEntityCount
  pub civilian : SideEntityCount

pub record GlobalEntityCount : Type 0 where
  pub units_alive : ℕ
  pub units_dead : ℕ
  pub groups : ℕ
  pub vehicles : ℕ
  pub weapon_holders : ℕ
  pub players_alive : ℕ
  pub players_dead : ℕ
  pub players_connected : ℕ

pub record ScriptCounts : Type 0 where
  pub spawn : ℕ
  pub exec_vm : ℕ
  pub exec : ℕ
  pub exec_fsm : ℕ
  pub pfh : ℕ

pub record WeatherData : Type 0 where
  pub fog : ℕ
  pub overcast : ℕ
  pub rain : ℕ
  pub humidity : ℕ
  pub waves : ℕ
  pub wind_dir : ℕ
  pub wind_str : ℕ
  pub gusts : ℕ
  pub lightnings : ℕ
  pub moon_intensity : ℕ
  pub moon_phase : ℕ
  pub sun_or_moon : ℕ

pub record PlayerNetworkData : Type 0 where
  pub uid : String
  pub name : String
  pub ping : ℕ
  pub bw : ℕ
  pub desync : ℕ

pub record TelemetryEvent : Type 0 where
  pub time : Timestamp
  pub capture_frame : Frame
  pub fps_average : ℕ
  pub fps_min : ℕ
  pub side_entity_counts : SideEntityCounts
  pub global_counts : GlobalEntityCount
  pub scripts : ScriptCounts
  pub weather : WeatherData
  pub players : List PlayerNetworkData
