-- ===== src/Streaming.antt =====
-- pkg/streaming/messages.go: the types of the messages to the web server, and what each carries.
use ocap2_extension.Prelude.{ℕ, String}
use ocap2_extension.Core.{
  Frame, Mission, World, Soldier, SoldierState, Vehicle, VehicleState, Marker, MarkerState,
  DeleteMarker, PlacedObject, PlacedObjectEvent, FiredEvent, GeneralEvent, SectorEvent,
  EndMissionEvent, HitEvent, KillEvent, ChatEvent, RadioEvent, TelemetryEvent, TimeState,
  Ace3DeathEvent, Ace3UnconsciousEvent, ProjectileEvent,
}

-- The constants `TypeStartMission` and so on.
pub data MessageType : Type 0 where
  start_mission : MessageType
  end_mission : MessageType
  add_soldier : MessageType
  add_vehicle : MessageType
  add_marker : MessageType
  soldier_state : MessageType
  vehicle_state : MessageType
  marker_state : MessageType
  delete_marker : MessageType
  delete_soldier : MessageType
  delete_vehicle : MessageType
  fired_event : MessageType
  projectile_event : MessageType
  general_event : MessageType
  sector_event : MessageType
  end_mission_event : MessageType
  hit_event : MessageType
  kill_event : MessageType
  chat_event : MessageType
  radio_event : MessageType
  telemetry : MessageType
  time_state : MessageType
  ace3_death : MessageType
  ace3_unconscious : MessageType
  add_placed : MessageType
  placed_event : MessageType
  mission_focus_start : MessageType
  mission_focus_end : MessageType

abbrev pub name : MessageType → String
name start_mission = "start_mission"
name end_mission = "end_mission"
name add_soldier = "add_soldier"
name add_vehicle = "add_vehicle"
name add_marker = "add_marker"
name soldier_state = "soldier_state"
name vehicle_state = "vehicle_state"
name marker_state = "marker_state"
name delete_marker = "delete_marker"
name delete_soldier = "delete_soldier"
name delete_vehicle = "delete_vehicle"
name fired_event = "fired_event"
name projectile_event = "projectile_event"
name general_event = "general_event"
name sector_event = "sector_event"
name end_mission_event = "end_mission_event"
name hit_event = "hit_event"
name kill_event = "kill_event"
name chat_event = "chat_event"
name radio_event = "radio_event"
name telemetry = "telemetry"
name time_state = "time_state"
name ace3_death = "ace3_death"
name ace3_unconscious = "ace3_unconscious"
name add_placed = "add_placed"
name placed_event = "placed_event"
name mission_focus_start = "mission_focus_start"
name mission_focus_end = "mission_focus_end"

-- What a backend hands to `json.Marshal`: the maps with an id and a frame, or a frame, among it.
pub data Payload : Type 0 where
  nothing : Payload
  a_mission : Mission → World → Payload
  a_soldier : Soldier → Payload
  a_vehicle : Vehicle → Payload
  a_marker : Marker → Payload
  id_and_frame : ℕ → Frame → Payload
  a_frame : Frame → Payload
  a_soldier_state : SoldierState → Payload
  a_vehicle_state : VehicleState → Payload
  a_marker_state : MarkerState → Payload
  a_deletion : DeleteMarker → Payload
  a_shot : FiredEvent → Payload
  a_projectile : ProjectileEvent → Payload
  a_general_event : GeneralEvent → Payload
  a_sector_event : SectorEvent → Payload
  an_end : EndMissionEvent → Payload
  a_hit : HitEvent → Payload
  a_kill : KillEvent → Payload
  a_chat : ChatEvent → Payload
  a_radio : RadioEvent → Payload
  a_telemetry : TelemetryEvent → Payload
  a_time : TimeState → Payload
  a_death : Ace3DeathEvent → Payload
  an_unconscious : Ace3UnconsciousEvent → Payload
  a_placed_object : PlacedObject → Payload
  a_placed_event : PlacedObjectEvent → Payload

pub record Envelope : Type 0 where
  pub type : MessageType
  pub payload : String

-- The server's answer, with the name of the message type that it answers.
pub record AckMessage : Type 0 where
  pub for : String
