-- ===== src/Parser/Map.antt =====
-- internal/parser: parse_marker.go and parse_placed.go, what stands on the map.
use ocap2_extension.Prelude.{
  ℕ, ℤ, negsuc, String, false, List, [], map, Option, none, some, length, leb, string_eq, ◌==◌,
  if◌then◌else◌,
}
use ocap2_extension.Core.{
  Marker, DeleteMarker, PlacedObject, PlacedObjectEvent, Position3D, Polyline, frame_forever,
}
use ocap2_extension.Core.Result.{Result, ok, wrapping}
use ocap2_extension.Parser.{Parse, MarkerMove}
use ocap2_extension.Parser.Decode.{
  Decoder, clean, arg, if_error, uint16, frame, float32, ensure, if_given, got,
  parse_uint_from_float, position3d_from_string, bracketed_position, parse_polyline_to_core, ◌>>=◌,
  ◌>>◌,
}
use ocap2_extension.Prelude.Decimal.{parse_int}

-- The bits of `float32(1.0)`, the alpha of a marker whose own cannot be read.
abbrev pub opaque : ℕ
opaque = 1_065_353_216

abbrev pub nowhere : Position3D
nowhere = record { x = 0; y = 0; z = 0 }

-- The owner of a marker; -1 where it cannot be read.
abbrev pub owner_of : String → ℤ
owner_of s = if_error (negsuc 0) (parse_int s)

module _ (d : Decoder) where
  -- A position, or for a polyline its points.
  unfoldable pub place_of : String → String → Result (Position3D × Polyline)
  place_of shape text =
      if shape == "POLYLINE"
      then (do
        points ← wrapping "error parsing polyline" (parse_polyline_to_core d text)
        ok (nowhere, points))
      else (do
        position ← wrapping "error parsing position" (bracketed_position d text)
        ok (position, []))

  unfoldable pub parse_marker_create : Parse Marker
  unfolding place_of
  parse_marker_create raw = do
    let args = map clean raw
    marker_name ← arg args 0
    direction_text ← arg args 1
    direction ← wrapping "error parsing direction" (float32 d direction_text)
    marker_type ← arg args 2
    text ← arg args 3
    frame_text ← arg args 4
    capframe ← wrapping "error parsing capture frame" (frame d frame_text)
    owner_text ← arg args 6
    color ← arg args 7
    size ← arg args 8
    side ← arg args 9
    shape ← arg args 11
    position_text ← arg args 10
    (position, polyline) ← place_of shape position_text
    alpha_text ← arg args 12
    brush ← arg args 13
    ok (record {
      id = 0;
      time = d.now;
      capture_frame = capframe;
      end_frame = frame_forever;
      marker_name = marker_name;
      direction = direction;
      marker_type = marker_type;
      text = text;
      owner_id = owner_of owner_text;
      color = color;
      size = size;
      side = side;
      position = position;
      polyline = polyline;
      shape = shape;
      alpha = if_error opaque (d.parse_float32 alpha_text);
      brush = brush;
      is_deleted = false;
    })

  unfoldable pub parse_marker_move : Parse MarkerMove
  parse_marker_move raw = do
    ensure (leb 11 (length raw)) (got "insufficient data fields: got %d, need 11" raw)
    let args = map clean raw
    marker_name ← arg args 0
    frame_text ← arg args 1
    capframe ← wrapping "error parsing capture frame" (frame d frame_text)
    position_text ← arg args 2
    position ← wrapping "error parsing position" (bracketed_position d position_text)
    direction_text ← arg args 3
    alpha_text ← arg args 4
    text ← arg args 5
    color ← arg args 6
    size ← arg args 7
    marker_type ← arg args 8
    brush ← arg args 9
    shape ← arg args 10
    ok (record {
      marker_name = marker_name;
      capture_frame = capframe;
      position = position;
      direction = if_error 0 (d.parse_float32 direction_text);
      alpha = if_error opaque (d.parse_float32 alpha_text);
      text = text;
      color = color;
      size = size;
      marker_type = marker_type;
      brush = brush;
      shape = shape;
      time = d.now;
    })

  unfoldable pub parse_marker_delete : Parse DeleteMarker
  parse_marker_delete raw = do
    let args = map clean raw
    frame_text ← arg args 1
    capframe ← wrapping "error parsing capture frame" (frame d frame_text)
    name ← arg args 0
    ok (record { name = name; end_frame = capframe })

  unfoldable pub parse_placed_object : Parse PlacedObject
  parse_placed_object raw = do
    ensure (leb 9 (length raw)) (got "insufficient data fields: got %d, need 9" raw)
    let args = map clean raw
    frame_text ← arg args 0
    capframe ← wrapping "error parsing captureFrame" (frame d frame_text)
    id_text ← arg args 1
    placed_id ← wrapping "error parsing placedId" (parse_uint_from_float d id_text)
    class_name ← arg args 2
    display_name ← arg args 3
    position_text ← arg args 4
    position ← wrapping "error parsing position" (position3d_from_string d position_text)
    owner_text ← arg args 5
    owner_id ← wrapping "error parsing firerOcapId" (parse_uint_from_float d owner_text)
    side ← arg args 6
    weapon ← arg args 7
    magazine_icon ← arg args 8
    ok (record {
      id = uint16 placed_id;
      join_time = d.now;
      join_frame = capframe;
      class_name = class_name;
      display_name = display_name;
      position = position;
      owner_id = uint16 owner_id;
      side = side;
      weapon = weapon;
      magazine_icon = magazine_icon;
    })

  -- The unit that was hit, if there is a fifth argument.
  unfoldable pub hit_entity : List String → Result (Option ℕ)
  hit_entity args = if_given (leb 5 (length args)) none do
    text ← arg args 4
    hit ← wrapping "error parsing hitEntityOcapId" (parse_uint_from_float d text)
    ok (some (uint16 hit))

  unfoldable pub parse_placed_object_event : Parse PlacedObjectEvent
  unfolding hit_entity
  parse_placed_object_event raw = do
    ensure (leb 4 (length raw)) (got "insufficient data fields: got %d, need 4" raw)
    let args = map clean raw
    frame_text ← arg args 0
    capframe ← wrapping "error parsing captureFrame" (frame d frame_text)
    id_text ← arg args 1
    placed_id ← wrapping "error parsing placedId" (parse_uint_from_float d id_text)
    event_type ← arg args 2
    position_text ← arg args 3
    position ← wrapping "error parsing position" (position3d_from_string d position_text)
    hit_entity_id ← hit_entity args
    ok (record {
      capture_frame = capframe;
      placed_id = uint16 placed_id;
      event_type = event_type;
      position = position;
      hit_entity_id = hit_entity_id;
    })
