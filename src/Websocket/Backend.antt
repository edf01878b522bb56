-- ===== src/Websocket/Backend.antt =====
-- internal/storage/websocket/websocket.go: each method of the backend is one message.
use ocap2_extension.Prelude.{ℕ, String, Option, none, some, [], ◌∷◌, ◌+◌, ◌%◌}
use ocap2_extension.Core.{
  Exec, Frame, Mission, World, Soldier, SoldierState, Vehicle, VehicleState, Marker, MarkerState,
  DeleteMarker, PlacedObject, PlacedObjectEvent, FiredEvent, GeneralEvent, SectorEvent,
  EndMissionEvent, HitEvent, KillEvent, ChatEvent, RadioEvent, TelemetryEvent, TimeState,
  Ace3DeathEvent, Ace3UnconsciousEvent, ProjectileEvent,
}
use ocap2_extension.Core.Dynamic.{str}
use ocap2_extension.Core.Result.{Result, Outcome, ok, err, errorf, or_fail}
use ocap2_extension.Storage.{Storage}
use ocap2_extension.Streaming
use ocap2_extension.Streaming.{
  MessageType, Payload, AckMessage, Envelope, name, nothing, a_mission, a_marker, id_and_frame,
  a_frame, a_soldier, a_vehicle, a_soldier_state, a_vehicle_state, a_marker_state, a_deletion,
  a_shot, a_projectile, a_general_event, a_sector_event, an_end, a_hit, a_kill, a_chat, a_radio,
  a_telemetry, a_time, a_death, an_unconscious, a_placed_object, a_placed_event,
}
use ocap2_extension.Websocket.Connection.{Connection, Wait, send, send_and_wait}

pub record Backend : Type 0 where
  pub conn : Connection
  pub next_marker_id : ℕ

-- `json.Marshal`, and the texts of its errors.
pub record Encoder : Type 0 where
  pub marshal : Payload → Option String
  pub marshal_envelope : Envelope → Option String
  pub marshal_error : String

-- How the wait goes for the answer to a message of a type.
abbrev pub Server : Type 0
Server = MessageType → Wait

-- The id of the next marker: a 64-bit counter.
abbrev pub following : ℕ → ℕ
following n = (n + 1) % 18_446_744_073_709_551_616

module _ (e : Encoder) where
  -- marshalEnvelope
  unfoldable pub envelope_text : MessageType → Payload → Result String
  envelope_text type payload = elim (e.marshal payload) [
    | none ↦ err (errorf "marshal %s payload: %w" (str (name type) ∷ str e.marshal_error ∷ []))
    | some raw ↦
        or_fail (errorf "marshal %s envelope: %w" (str (name type) ∷ str e.marshal_error ∷ []))
          (e.marshal_envelope (record { type = type; payload = raw }))
  ]

  abbrev pub sending : Result String → Exec Backend (Unit {0})
  sending (err x) b = (err x, b)
  sending (ok text) b = (ok tt, record b { conn = send text b.conn })

  unfoldable pub send_envelope : MessageType → Payload → Exec Backend (Unit {0})
  send_envelope type payload b = sending (envelope_text type payload) b

  abbrev pub waiting :
      Server
      → MessageType
      → (String → Connection → Connection)
      → Result String
      → Exec Backend (Unit {0})
  waiting server type prepare (err x) b = (err x, b)
  waiting server type prepare (ok text) b =
      let (r, c) = send_and_wait text (name type) (server type) (prepare text b.conn) in
      (r, record b { conn = c })

  -- The start message is kept for a reconnect before it is sent.
  unfoldable pub start_mission : Server → Mission → World → Exec Backend (Unit {0})
  start_mission server m w b =
      waiting server Streaming.start_mission (λ text c. record c { cached_start_msg = some text })
        (envelope_text Streaming.start_mission (a_mission m w)) b

  -- Whatever the wait comes to, the start message and the marker ids are reset.
  unfoldable pub end_mission : Server → Exec Backend (Unit {0})
  end_mission server b =
      let (r, c) =
        waiting server Streaming.end_mission (λ text c. c)
          (envelope_text Streaming.end_mission nothing) b in
      (r, record { conn = record c.conn { cached_start_msg = none }; next_marker_id = 0 })

  -- The id is returned also with an error.
  unfoldable pub add_marker : Marker → Backend → (ℕ × Outcome) × Backend
  add_marker m b =
      let id = following b.next_marker_id in
      let (r, c) =
        send_envelope Streaming.add_marker (a_marker (record m { id = id }))
          (record b { next_marker_id = id }) in
      ((id, r), c)

  -- As the interface's callers read it: with an error they do not look at the id.
  abbrev pub id_or_error : ℕ × Outcome → Result ℕ
  id_or_error (id, ok t) = ok id
  id_or_error (id, err x) = err x

  abbrev pub marker_added : Marker → Exec Backend ℕ
  marker_added m b = let (r, c) = add_marker m b in (id_or_error r, c)

  abbrev pub delete_soldier : ℕ → Frame → Exec Backend (Unit {0})
  delete_soldier id frame b = send_envelope Streaming.delete_soldier (id_and_frame id frame) b

  abbrev pub delete_vehicle : ℕ → Frame → Exec Backend (Unit {0})
  delete_vehicle id frame b = send_envelope Streaming.delete_vehicle (id_and_frame id frame) b

  abbrev pub add_soldier : Soldier → Exec Backend (Unit {0})
  add_soldier x b = send_envelope Streaming.add_soldier (a_soldier x) b

  abbrev pub add_vehicle : Vehicle → Exec Backend (Unit {0})
  add_vehicle x b = send_envelope Streaming.add_vehicle (a_vehicle x) b

  abbrev pub record_soldier_state : SoldierState → Exec Backend (Unit {0})
  record_soldier_state x b = send_envelope Streaming.soldier_state (a_soldier_state x) b

  abbrev pub record_vehicle_state : VehicleState → Exec Backend (Unit {0})
  record_vehicle_state x b = send_envelope Streaming.vehicle_state (a_vehicle_state x) b

  abbrev pub record_marker_state : MarkerState → Exec Backend (Unit {0})
  record_marker_state x b = send_envelope Streaming.marker_state (a_marker_state x) b

  abbrev pub delete_marker : DeleteMarker → Exec Backend (Unit {0})
  delete_marker x b = send_envelope Streaming.delete_marker (a_deletion x) b

  abbrev pub record_fired_event : FiredEvent → Exec Backend (Unit {0})
  record_fired_event x b = send_envelope Streaming.fired_event (a_shot x) b

  abbrev pub record_projectile_event : ProjectileEvent → Exec Backend (Unit {0})
  record_projectile_event x b = send_envelope Streaming.projectile_event (a_projectile x) b

  abbrev pub record_general_event : GeneralEvent → Exec Backend (Unit {0})
  record_general_event x b = send_envelope Streaming.general_event (a_general_event x) b

  abbrev pub record_sector_event : SectorEvent → Exec Backend (Unit {0})
  record_sector_event x b = send_envelope Streaming.sector_event (a_sector_event x) b

  abbrev pub record_end_mission_event : EndMissionEvent → Exec Backend (Unit {0})
  record_end_mission_event x b = send_envelope Streaming.end_mission_event (an_end x) b

  abbrev pub record_hit_event : HitEvent → Exec Backend (Unit {0})
  record_hit_event x b = send_envelope Streaming.hit_event (a_hit x) b

  abbrev pub record_kill_event : KillEvent → Exec Backend (Unit {0})
  record_kill_event x b = send_envelope Streaming.kill_event (a_kill x) b

  abbrev pub record_chat_event : ChatEvent → Exec Backend (Unit {0})
  record_chat_event x b = send_envelope Streaming.chat_event (a_chat x) b

  abbrev pub record_radio_event : RadioEvent → Exec Backend (Unit {0})
  record_radio_event x b = send_envelope Streaming.radio_event (a_radio x) b

  abbrev pub record_telemetry_event : TelemetryEvent → Exec Backend (Unit {0})
  record_telemetry_event x b = send_envelope Streaming.telemetry (a_telemetry x) b

  abbrev pub record_time_state : TimeState → Exec Backend (Unit {0})
  record_time_state x b = send_envelope Streaming.time_state (a_time x) b

  abbrev pub record_ace3_death_event : Ace3DeathEvent → Exec Backend (Unit {0})
  record_ace3_death_event x b = send_envelope Streaming.ace3_death (a_death x) b

  abbrev pub record_ace3_unconscious_event : Ace3UnconsciousEvent → Exec Backend (Unit {0})
  record_ace3_unconscious_event x b = send_envelope Streaming.ace3_unconscious (an_unconscious x) b

  abbrev pub set_focus_start : Frame → Exec Backend (Unit {0})
  set_focus_start x b = send_envelope Streaming.mission_focus_start (a_frame x) b

  abbrev pub set_focus_end : Frame → Exec Backend (Unit {0})
  set_focus_end x b = send_envelope Streaming.mission_focus_end (a_frame x) b

  abbrev pub add_placed_object : PlacedObject → Exec Backend (Unit {0})
  add_placed_object x b = send_envelope Streaming.add_placed (a_placed_object x) b

  abbrev pub record_placed_object_event : PlacedObjectEvent → Exec Backend (Unit {0})
  record_placed_object_event x b = send_envelope Streaming.placed_event (a_placed_event x) b

  abbrev pub websocket : Server → Storage Backend
  websocket server = record {
    start_mission = λ m w. start_mission server m w;
    end_mission = end_mission server;
    add_marker = marker_added;
    delete_soldier = delete_soldier;
    delete_vehicle = delete_vehicle;
    add_soldier = add_soldier;
    add_vehicle = add_vehicle;
    record_soldier_state = record_soldier_state;
    record_vehicle_state = record_vehicle_state;
    record_marker_state = record_marker_state;
    delete_marker = delete_marker;
    record_fired_event = record_fired_event;
    record_projectile_event = record_projectile_event;
    record_general_event = record_general_event;
    record_sector_event = record_sector_event;
    record_end_mission_event = record_end_mission_event;
    record_hit_event = record_hit_event;
    record_kill_event = record_kill_event;
    record_chat_event = record_chat_event;
    record_radio_event = record_radio_event;
    record_telemetry_event = record_telemetry_event;
    record_time_state = record_time_state;
    record_ace3_death_event = record_ace3_death_event;
    record_ace3_unconscious_event = record_ace3_unconscious_event;
    set_focus_start = set_focus_start;
    set_focus_end = set_focus_end;
    add_placed_object = add_placed_object;
    record_placed_object_event = record_placed_object_event;
  }
