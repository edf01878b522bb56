-- ===== src/Core/Types.antt =====
-- pkg/core/types.go, mission.go. A `Frame` is an unsigned 64-bit number, `FrameForever` is 0.
-- A `time.Time` is only copied: a number stands for it.
use ocap2_extension.Prelude.{ℕ, String, Bool, List}

abbrev pub Frame : Type 0
Frame = ℕ

abbrev pub frame_forever : Frame
frame_forever = 0

abbrev pub Timestamp : Type 0
Timestamp = ℕ

pub record Position3D : Type 0 where
  pub x : ℕ
  pub y : ℕ
  pub z : ℕ

pub record Position2D : Type 0 where
  pub x : ℕ
  pub y : ℕ

abbrev pub Polyline : Type 0
Polyline = List Position2D

pub record SoldierScores : Type 0 where
  pub infantry_kills : ℕ
  pub vehicle_kills : ℕ
  pub armor_kills : ℕ
  pub air_kills : ℕ
  pub deaths : ℕ
  pub total_score : ℕ

pub record PlayableSlots : Type 0 where
  pub west : ℕ
  pub east : ℕ
  pub independent : ℕ
  pub civilian : ℕ
  pub logic : ℕ

pub record SideFriendly : Type 0 where
  pub east_west : Bool
  pub east_independent : Bool
  pub west_independent : Bool

pub record FocusRange : Type 0 where
  pub start : Frame
  pub end : Frame

pub record UploadMetadata : Type 0 where
  pub world_name : String
  pub mission_name : String
  pub mission_duration : ℕ
  pub tag : String
  pub end_frame : Frame
  pub focus_ranges : List FocusRange

pub record World : Type 0 where
  pub id : ℕ
  pub author : String
  pub workshop_id : String
  pub display_name : String
  pub world_name : String
  pub world_name_original : String
  pub world_size : ℕ
  pub latitude : ℕ
  pub longitude : ℕ
  pub location : Position3D

pub record Addon : Type 0 where
  pub id : ℕ
  pub name : String
  pub workshop_id : String

pub record Mission : Type 0 where
  pub id : ℕ
  pub mission_name : String
  pub briefing_name : String
  pub mission_name_source : String
  pub on_load_name : String
  pub author : String
  pub server_name : String
  pub server_profile : String
  pub start_time : Timestamp
  pub world_id : ℕ
  pub capture_delay : ℕ
  pub addon_version : String
  pub extension_version : String
  pub extension_build : String
  pub ocap_recorder_extension_version : String
  pub tag : String
  pub playable_slots : PlayableSlots
  pub side_friendly : SideFriendly
  pub addons : List Addon
