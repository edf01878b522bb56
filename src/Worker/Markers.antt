-- ===== src/Worker/Markers.antt =====
-- internal/worker/dispatch.go: the handlers of markers and of the mission's focus.
use ocap2_extension.Prelude.{ℕ, String, List, [], ◌∷◌}
use ocap2_extension.Core.{MarkerState, str}
use ocap2_extension.Core.Result.{errorf, Exec, ◌>>=◌}
use ocap2_extension.Cache.MarkerCache.{get, set}
use ocap2_extension.Parser.{Service, MarkerMove}
use ocap2_extension.Storage.{Storage}
use ocap2_extension.Worker.State.{Manager, parsed, storing, calling, caching_marker, or_error}

-- The state that a move records. Its own id is the zero value.
abbrev pub moved : ℕ → MarkerMove → MarkerState
moved id m = record {
  id = 0;
  marker_id = id;
  time = m.time;
  capture_frame = m.capture_frame;
  position = m.position;
  direction = m.direction;
  alpha = m.alpha;
  text = m.text;
  color = m.color;
  size = m.size;
  marker_type = m.marker_type;
  brush = m.brush;
  shape = m.shape;
}

module _ {S : Type 0} (p : Service) (b : Storage S) where
  unfoldable pub handle_marker_create : List String → Exec (Manager S) (Unit {0})
  handle_marker_create args = do
    marker ← parsed "failed to create marker" (p.parse_marker_create args)
    id ← storing "add marker" (b.add_marker marker)
    caching_marker (λ c. set c marker.marker_name id)

  -- `m.deps.MarkerCache.Get(parsed.MarkerName)`
  abbrev pub marker_id : MarkerMove → Exec (Manager S) ℕ
  marker_id move m = (
    or_error (errorf "marker %q not found in cache" (str move.marker_name ∷ []))
        (get m.marker_cache move.marker_name),
    m,
  )

  unfoldable pub handle_marker_move : List String → Exec (Manager S) (Unit {0})
  handle_marker_move args = do
    move ← parsed "failed to log marker move" (p.parse_marker_move args)
    id ← marker_id move
    storing "record marker state" (b.record_marker_state (moved id move))

  unfoldable pub handle_marker_delete : List String → Exec (Manager S) (Unit {0})
  handle_marker_delete args = do
    dm ← parsed "failed to delete marker" (p.parse_marker_delete args)
    storing "delete marker" (b.delete_marker dm)

  unfoldable pub handle_focus_start : List String → Exec (Manager S) (Unit {0})
  handle_focus_start args = do
    frame ← parsed "failed to parse focus start" (p.parse_focus_start args)
    calling (b.set_focus_start frame)

  unfoldable pub handle_focus_end : List String → Exec (Manager S) (Unit {0})
  handle_focus_end args = do
    frame ← parsed "failed to parse focus end" (p.parse_focus_end args)
    calling (b.set_focus_end frame)
