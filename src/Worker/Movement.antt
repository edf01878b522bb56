-- ===== src/Worker/Movement.antt =====
-- internal/worker/dispatch.go: the handlers of the state updates.
use ocap2_extension.Prelude.{
  String, List, [], ◌∷◌, Bool, true, not, ◌&&◌, ◌||◌, if◌then◌else◌, string_eq, ◌==◌, nat_eq,
}
use ocap2_extension.Core.{Soldier, SoldierState, uint}
use ocap2_extension.Core.Result.{Error, errorf, Exec, ◌>>=◌, ◌>>◌}
use ocap2_extension.Cache.EntityCache.{
  EntityCache, get_soldier, get_vehicle, get_placed_object, update_soldier,
}
use ocap2_extension.Parser.{Service}
use ocap2_extension.Storage.{Storage}
use ocap2_extension.Worker.State.{Manager, parsed, storing, caching, finding}

abbrev pub too_early : Error
too_early = errorf "too early for state association" []

-- The group and the side of the cached soldier where the state has none.
abbrev pub filled : Soldier → SoldierState → SoldierState
filled soldier obj = record obj {
  group_id = if obj.group_id == "" then soldier.group_id else obj.group_id;
  side = if obj.side == "" then soldier.side else obj.side;
}

-- Whether the state shows a player who takes over the unit, or a new name for one.
unfoldable pub takes_over : Soldier → SoldierState → Bool
takes_over soldier obj =
    obj.is_player
    && (not soldier.is_player
        || (not (obj.unit_name == "") && not (soldier.unit_name == obj.unit_name)))

unfoldable pub taken_over : Soldier → SoldierState → Soldier
taken_over soldier obj = record soldier {
  is_player = true;
  unit_name = if obj.unit_name == "" then soldier.unit_name else obj.unit_name;
}

unfoldable pub note_player : Soldier → SoldierState → EntityCache → EntityCache
unfolding takes_over taken_over
note_player soldier obj c =
    if takes_over soldier obj then update_soldier c (taken_over soldier obj) else c

module _ {S : Type 0} (p : Service) (b : Storage S) where
  unfoldable pub handle_soldier_state : List String → Exec (Manager S) (Unit {0})
  handle_soldier_state args = do
    obj ← parsed "failed to log soldier state" (p.parse_soldier_state args)
    soldier ← finding too_early (λ c. get_soldier c obj.soldier_id)
    caching (note_player soldier obj)
    storing "record soldier state" (b.record_soldier_state (filled soldier obj))

  unfoldable pub handle_vehicle_state : List String → Exec (Manager S) (Unit {0})
  handle_vehicle_state args = do
    obj ← parsed "failed to log vehicle state" (p.parse_vehicle_state args)
    vehicle ← finding too_early (λ c. get_vehicle c obj.vehicle_id)
    storing "record vehicle state" (b.record_vehicle_state obj)

  unfoldable pub handle_placed_event : List String → Exec (Manager S) (Unit {0})
  handle_placed_event args = do
    obj ← parsed "failed to parse placed event" (p.parse_placed_object_event args)
    placed ←
        finding (errorf "placed object %d not found in cache" (uint obj.placed_id ∷ []))
          (λ c. get_placed_object c obj.placed_id)
    storing "record placed event" (b.record_placed_object_event obj)

  unfoldable pub handle_time_state : List String → Exec (Manager S) (Unit {0})
  handle_time_state args = do
    obj ← parsed "failed to log time state" (p.parse_time_state args)
    storing "record time state" (b.record_time_state obj)
