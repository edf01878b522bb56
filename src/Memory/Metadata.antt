-- ===== src/Memory/Metadata.antt =====
-- memory.go: GetExportMetadata and computeExportMetadata.
use ocap2_extension.Prelude.{ℕ, [], ◌∷◌, ◌++◌, Option, none, some, ltb, raise, if◌then◌else◌, List}
use ocap2_extension.Prelude.Map.{Map}
use ocap2_extension.Core.{
  Frame, FocusRange, UploadMetadata, Mission, World, SoldierState, VehicleState, PlacedObjectEvent,
  Std,
}
use ocap2_extension.Memory.State.{
  SoldierRecord, VehicleRecord, PlacedObjectRecord, FocusState, Backend, no_metadata,
}

unfoldable pub raise_soldier_states : Frame → List SoldierState → Frame
raise_soldier_states m [] = m
raise_soldier_states m (s ∷ ss) = raise_soldier_states (raise m s.capture_frame) ss

unfoldable pub raise_vehicle_states : Frame → List VehicleState → Frame
raise_vehicle_states m [] = m
raise_vehicle_states m (s ∷ ss) = raise_vehicle_states (raise m s.capture_frame) ss

unfoldable pub raise_placed_events : Frame → List PlacedObjectEvent → Frame
raise_placed_events m [] = m
raise_placed_events m (e ∷ es) = raise_placed_events (raise m e.capture_frame) es

unfoldable pub raise_soldiers : Frame → Map ℕ SoldierRecord → Frame
unfolding raise_soldier_states
raise_soldiers m [] = m
raise_soldiers m ((k, r) ∷ rs) = raise_soldiers (raise_soldier_states m r.states) rs

unfoldable pub raise_vehicles : Frame → Map ℕ VehicleRecord → Frame
unfolding raise_vehicle_states
raise_vehicles m [] = m
raise_vehicles m ((k, r) ∷ rs) = raise_vehicles (raise_vehicle_states m r.states) rs

unfoldable pub raise_placed : Frame → Map ℕ PlacedObjectRecord → Frame
unfolding raise_placed_events
raise_placed m [] = m
raise_placed m ((k, r) ∷ rs) = raise_placed (raise_placed_events m r.events) rs

unfoldable pub end_frame : Backend → Frame
unfolding raise_soldiers raise_vehicles raise_placed
end_frame b = raise_placed (raise_vehicles (raise_soldiers 0 b.soldiers) b.vehicles) b.placed

-- The completed ranges, and the open one closed at the end frame if that leaves it non-empty.
unfoldable pub all_ranges : FocusState → Frame → List FocusRange
all_ranges f last = elim f.focus_open_start [
  | none ↦ f.focus_ranges
  | some start ↦
      if ltb start last
      then f.focus_ranges ++ record { start = start; end = last } ∷ []
      else f.focus_ranges
]

module _ (std : Std) where
  metadata_of : Mission → World → Backend → UploadMetadata
  metadata_of m w b =
      let last = end_frame b in
      record {
        world_name = w.world_name;
        mission_name = m.mission_name;
        mission_duration = std.mul64 (std.f64_of_uint last) (std.to_f64 m.capture_delay);
        tag = m.tag;
        end_frame = last;
        focus_ranges = all_ranges b.focus last;
      }

  metadata_for : Option Mission → Option World → Backend → UploadMetadata
  unfolding metadata_of
  metadata_for (some m) (some w) b = metadata_of m w b
  metadata_for _ _ b = no_metadata

  unfoldable pub compute_export_metadata : Backend → UploadMetadata
  unfolding metadata_for
  compute_export_metadata b = metadata_for b.mission b.world b

  live_metadata : Option Mission → Option World → Backend → UploadMetadata
  unfolding compute_export_metadata
  live_metadata (some m) (some w) b = compute_export_metadata b
  live_metadata _ _ b = b.last_export_metadata

  unfoldable pub get_export_metadata : Backend → UploadMetadata
  unfolding live_metadata
  get_export_metadata b = live_metadata b.mission b.world b
