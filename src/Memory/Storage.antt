-- ===== src/Memory/Storage.antt =====
-- internal/storage/memory as a `storage.Backend`. Only the focus methods and EndMission can fail.
use ocap2_extension.Core.{Std, Exec, nil_error}
use ocap2_extension.Core.Result.{ok}
use ocap2_extension.Storage.{Storage}
use ocap2_extension.Memory.State.{Backend}
use ocap2_extension.Memory.Lifecycle
use ocap2_extension.Memory.Lifecycle.{Exported}
use ocap2_extension.Memory.Record
use ocap2_extension.Memory.Markers
use ocap2_extension.Memory.Focus

abbrev pub succeeding : (Backend → Backend) → Exec Backend (Unit {0})
succeeding f b = (nil_error, f b)

abbrev pub memory : Std → Exported → Storage Backend
memory std how = record {
  start_mission = λ m w. succeeding (Lifecycle.start_mission m w);
  end_mission = Lifecycle.end_mission std how;
  add_soldier = λ s. succeeding (Record.add_soldier s);
  add_vehicle = λ v. succeeding (Record.add_vehicle v);
  add_marker = λ m b. let (id, b') = Markers.add_marker m b in (ok id, b');
  delete_soldier = λ id frame. succeeding (Record.delete_soldier id frame);
  delete_vehicle = λ id frame. succeeding (Record.delete_vehicle id frame);
  record_soldier_state = λ s. succeeding (Record.record_soldier_state s);
  record_vehicle_state = λ v. succeeding (Record.record_vehicle_state v);
  record_marker_state = λ s. succeeding (Markers.record_marker_state s);
  delete_marker = λ dm. succeeding (Markers.delete_marker dm);
  record_fired_event = λ e. succeeding (Record.record_fired_event e);
  record_projectile_event = λ e. succeeding (Record.record_projectile_event e);
  record_general_event = λ e. succeeding (Record.record_general_event e);
  record_sector_event = λ e. succeeding (Record.record_sector_event e);
  record_end_mission_event = λ e. succeeding (Record.record_end_mission_event e);
  record_hit_event = λ e. succeeding (Record.record_hit_event e);
  record_kill_event = λ e. succeeding (Record.record_kill_event e);
  record_chat_event = λ e. succeeding (Record.record_chat_event e);
  record_radio_event = λ e. succeeding (Record.record_radio_event e);
  record_telemetry_event = λ e. succeeding (Record.record_telemetry_event e);
  record_time_state = λ t. succeeding (Record.record_time_state t);
  record_ace3_death_event = λ e. succeeding (Record.record_ace3_death_event e);
  record_ace3_unconscious_event = λ e. succeeding (Record.record_ace3_unconscious_event e);
  add_placed_object = λ p. succeeding (Record.add_placed_object p);
  record_placed_object_event = λ e. succeeding (Record.record_placed_object_event e);
  set_focus_start = Focus.focus_start;
  set_focus_end = Focus.focus_end;
}
