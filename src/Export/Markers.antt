-- ===== src/Export/Markers.antt =====
-- builder.go: the marker rows, of static markers, placed objects and projectiles.
use Prim.Native.String.{◌++◌ as append}
use ocap2_extension.Prelude.{
  ℕ, ℤ, pos, negsuc, String, ◌||◌, List, [], ◌∷◌, map, Option, none, some, nat_beq, string_eq,
  nat_eq, ◌==◌, if◌then◌else◌, last?,
}
use ocap2_extension.Prelude.Map.{Map, lookup}
use ocap2_extension.Core.{
  Any, int, f32, f64, str, arr_of, Row, Std, Position2D, Marker, MarkerState, PlacedObjectEvent,
  ProjectileEvent, TrajectoryPoint,
}
use ocap2_extension.Export.Data.{MarkerRecord, PlacedObjectRecord, VehicleRecord}
use ocap2_extension.Export.Frames.{frame_to_v1}
use ocap2_extension.Export.Names.{
  extract_filename, trim_hash, side_to_index, parse_marker_size, global_side, one64,
}
use ocap2_extension.Export.Rows.{coordinates}

point : Position2D → Any
point p = arr_of (f64 p.x ∷ f64 p.y ∷ [])

module _ (std : Std) where
  -- One entry of a static marker's positions, at the given coordinates.
  marker_position : Marker → Any → Any
  marker_position m at = arr_of (
      int (frame_to_v1 m.capture_frame)
      ∷ at
      ∷ f32 m.direction
      ∷ f32 m.alpha
      ∷ str m.text
      ∷ str (trim_hash m.color)
      ∷ parse_marker_size std m.size
      ∷ str m.marker_type
      ∷ str m.brush
      ∷ str m.shape
      ∷ [])

  state_position : MarkerState → Any
  state_position st = arr_of (
      int (frame_to_v1 st.capture_frame)
      ∷ coordinates st.position
      ∷ f32 st.direction
      ∷ f32 st.alpha
      ∷ str st.text
      ∷ str (trim_hash st.color)
      ∷ parse_marker_size std st.size
      ∷ str st.marker_type
      ∷ str st.brush
      ∷ str st.shape
      ∷ [])

  -- A polyline has one entry with all its points; any other marker one for each state too.
  marker_positions : MarkerRecord → List Any
  unfolding point marker_position state_position
  marker_positions r =
      if r.marker.shape == "POLYLINE"
      then marker_position r.marker (arr_of (map point r.marker.polyline)) ∷ []
      else marker_position r.marker (coordinates r.marker.position) ∷ map state_position r.states

  unfoldable pub marker_row : MarkerRecord → Row
  unfolding marker_positions
  marker_row r =
      str r.marker.marker_type
      ∷ str r.marker.text
      ∷ int (frame_to_v1 r.marker.capture_frame)
      ∷ int (frame_to_v1 r.marker.end_frame)
      ∷ int r.marker.owner_id
      ∷ str (trim_hash r.marker.color)
      ∷ int (side_to_index r.marker.side)
      ∷ arr_of (marker_positions r)
      ∷ parse_marker_size std r.marker.size
      ∷ str r.marker.shape
      ∷ str r.marker.brush
      ∷ []

-- The frame of the first event that ends a placed object, or -1.
unfoldable pub placed_end_frame : List PlacedObjectEvent → ℤ
placed_end_frame [] = negsuc 0
placed_end_frame (evt ∷ evts) =
    if evt.event_type == "detonated" || evt.event_type == "deleted"
    then frame_to_v1 evt.capture_frame
    else placed_end_frame evts

icon : String → String → String
icon path fallback =
    let name = extract_filename path in if name == "" then fallback else append "magIcons/" name

unit_size : Any
unit_size = arr_of (f64 one64 ∷ f64 one64 ∷ [])

unfoldable pub placed_row : PlacedObjectRecord → Row
unfolding icon unit_size
placed_row r =
    let p = r.placed_object in
    str (icon p.magazine_icon "Minefield")
    ∷ str p.display_name
    ∷ int (frame_to_v1 p.join_frame)
    ∷ int (placed_end_frame r.events)
    ∷ int (pos p.owner_id)
    ∷ str "D96600"
    ∷ int global_side
    ∷ arr_of (
        arr_of
          (int (frame_to_v1 p.join_frame) ∷ coordinates p.position ∷ int (pos 0) ∷ f64 one64 ∷ [])
        ∷ [])
    ∷ unit_size
    ∷ str "ICON"
    ∷ str "Solid"
    ∷ []

trajectory_entry : TrajectoryPoint → Any
trajectory_entry tp =
    arr_of (int (frame_to_v1 tp.frame_num) ∷ coordinates tp.position ∷ int (pos 0) ∷ f64 one64 ∷ [])

-- The last trajectory point's frame, or -1.
trajectory_end : List TrajectoryPoint → ℤ
trajectory_end ps = elim (last? ps) [ none ↦ negsuc 0 | some p ↦ frame_to_v1 p.frame_num ]

vehicle_name : Option VehicleRecord → String
vehicle_name none = ""
vehicle_name (some r) = r.vehicle.display_name

from_vehicle : ProjectileEvent → String → String
from_vehicle pe name =
    append name (append " " (append pe.muzzle_display (append " - " pe.magazine_display)))

on_foot : ProjectileEvent → String
on_foot pe =
    if pe.simulation_type == "shotGrenade"
    then pe.magazine_display
    else append pe.muzzle_display (append " - " pe.magazine_display)

projectile_text : Map ℕ VehicleRecord → ProjectileEvent → String
unfolding vehicle_name from_vehicle on_foot
projectile_text vehicles pe = elim pe.vehicle_object_id [
  | none ↦ on_foot pe
  | some v ↦
      if nat_beq v pe.firer_object_id
      then on_foot pe
      else from_vehicle pe (vehicle_name (lookup v vehicles))
]

unfoldable pub projectile_row : Map ℕ VehicleRecord → ProjectileEvent → Row
unfolding icon unit_size trajectory_entry trajectory_end projectile_text
projectile_row vehicles pe =
    str (icon pe.magazine_icon "mil_triangle")
    ∷ str (projectile_text vehicles pe)
    ∷ int (frame_to_v1 pe.capture_frame)
    ∷ int (trajectory_end pe.trajectory)
    ∷ int (pos pe.firer_object_id)
    ∷ str (if extract_filename pe.magazine_icon == "" then "ColorRed" else "ColorWhite")
    ∷ int global_side
    ∷ arr_of (map trajectory_entry pe.trajectory)
    ∷ unit_size
    ∷ str "ICON"
    ∷ str "Solid"
    ∷ []
