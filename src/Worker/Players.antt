-- ===== src/Worker/Players.antt =====
-- The player of a unit: the soldier in the cache against the record of the backend and the name
-- that the export derives from it.
use ocap2_extension.Prelude.{
  ℕ, String, List, [], ◌∷◌, ◌++◌, some, Option-cases, Bool, true, false, Bool-cases, ◌≡◌, inl, inr,
  refl, sym, ◌∙◌, ap, arith, nat_eq, string_eq, nat_beq, ◌==◌, if◌then◌else◌, eq_of_beq,
}
use ocap2_extension.Prelude.Map.{Map, lookup, insert, adjust, lookup-insert, lookup-adjust}
use ocap2_extension.Core.{Std, Soldier, SoldierState, Frame}
use ocap2_extension.Cache.EntityCache.{EntityCache}
use ocap2_extension.Parser.{Service}
use ocap2_extension.Export.Entities.{identity}
use ocap2_extension.Memory.State.{Backend, SoldierRecord}
use ocap2_extension.Memory.Lifecycle.{Exported}
use ocap2_extension.Memory.Storage.{memory}
use ocap2_extension.Memory.Record.{
  new_soldier, end_soldier, push_soldier_state, add_soldier, delete_soldier, record_soldier_state,
  add_vehicle, add_placed_object, delete_vehicle, record_vehicle_state, record_placed_object_event,
  record_projectile_event, record_general_event, record_sector_event, record_end_mission_event,
  record_kill_event, record_chat_event, record_radio_event, record_telemetry_event,
  record_time_state, record_ace3_death_event, record_ace3_unconscious_event,
}
use ocap2_extension.Memory.Markers.{add_marker, record_marker_state, delete_marker}
use ocap2_extension.Memory.Focus.{focus_start, focus_end}
use ocap2_extension.Worker.State.{Manager}
use ocap2_extension.Worker.Entities.{
  handle_new_soldier, handle_new_vehicle, handle_new_placed, handle_soldier_delete,
  handle_vehicle_delete,
}
use ocap2_extension.Worker.Movement.{
  filled, takes_over, taken_over, note_player, handle_soldier_state, handle_vehicle_state,
  handle_placed_event, handle_time_state,
}
use ocap2_extension.Worker.Events.{
  handle_projectile_event, handle_general_event, handle_sector_event, handle_end_mission_event,
  handle_kill_event, handle_chat_event, handle_radio_event, handle_telemetry_event,
  handle_ace3_death_event, handle_ace3_unconscious_event,
}
use ocap2_extension.Worker.Markers.{
  handle_marker_create, handle_marker_move, handle_marker_delete, handle_focus_start,
  handle_focus_end,
}
use ocap2_extension.Worker.Commands.{Command, handle, soldier_create, soldier_state, soldier_delete}
use ocap2_extension.Worker.Atomic.{Result-cases}

-- Who the unit is by its record: whether a player ever had it, and the last player's name.
abbrev pub identity_of : SoldierRecord → Bool × String
identity_of r = identity r.soldier.is_player r.soldier.unit_name r.states

-- Every cached soldier stands under its own id and has a record, which shows the same player.
abbrev pub Agrees : Map ℕ Soldier → Map ℕ SoldierRecord → Type 0
Agrees cs rs =
    (id : ℕ) (s : Soldier)
    → lookup id cs ≡ some s
    → (s.id ≡ id)
      × (r : SoldierRecord) × (lookup id rs ≡ some r)
      × (identity_of r ≡ (s.is_player, s.unit_name))

identity-snoc :
    (ss : List SoldierState) (p : Bool) (n : String) (x : SoldierState)
    → identity p n (ss ++ x ∷ []) ≡ identity (identity p n ss).0 (identity p n ss).1 (x ∷ [])
unfolding identity
identity-snoc [] p n x = refl
identity-snoc (s ∷ ss) p n x = identity-snoc ss _ _ x

add_soldier-Agrees :
    (s : Soldier) (cs : Map ℕ Soldier) (rs : Map ℕ SoldierRecord)
    → Agrees cs rs
    → Agrees (insert s.id s cs) (insert s.id (new_soldier s) rs)
unfolding identity
add_soldier-Agrees s cs rs h id t e = elim (Bool-cases (nat_beq s.id id)) [
  | inl same ↦
      let found : t ≡ s = ground (arith, lookup-insert id s.id s cs) in
      (
        ground arith,
        new_soldier s,
        ground (arith, lookup-insert id s.id (new_soldier s) rs),
        rw found refl,
      )
  | inr other ↦
      let (k, r, l, i) = h id t (ground (arith, lookup-insert id s.id s cs)) in
      (k, r, ground (arith, lookup-insert id s.id (new_soldier s) rs), i)
]

delete_soldier-Agrees :
    (i : ℕ) (f : Frame) (cs : Map ℕ Soldier) (rs : Map ℕ SoldierRecord)
    → Agrees cs rs
    → Agrees cs (adjust (end_soldier f) i rs)
delete_soldier-Agrees i f cs rs h id t e =
    let (k, r, l, q) = h id t e in
    elim (Bool-cases (nat_beq i id)) [
      | inl same ↦ (k, end_soldier f r, ground (arith, lookup-adjust (end_soldier f) id i rs), q)
      | inr other ↦ (k, r, ground (arith, lookup-adjust (end_soldier f) id i rs), q)
    ]

-- The cached soldier after a state, in one expression.
abbrev pub seen : Soldier → SoldierState → Bool × String
seen s x = (
  if x.is_player then true else s.is_player,
  if x.is_player then (if x.unit_name == "" then s.unit_name else x.unit_name) else s.unit_name,
)

seen-takes_over :
    (s : Soldier) (x : SoldierState)
    → takes_over s x ≡ true
    → ((taken_over s x).is_player, (taken_over s x).unit_name) ≡ seen s x
unfolding takes_over taken_over
seen-takes_over s x h = ground arith

seen-keeps :
    (s : Soldier) (x : SoldierState)
    → takes_over s x ≡ false
    → (s.is_player, s.unit_name) ≡ seen s x
unfolding takes_over
seen-keeps s x h = ground (arith, eq_of_beq s.unit_name x.unit_name)

identity-pushed :
    (r : SoldierRecord) (s : Soldier) (x : SoldierState)
    → identity_of r ≡ (s.is_player, s.unit_name)
    → identity_of (push_soldier_state (filled s x) r) ≡ seen s x
unfolding identity
identity-pushed r s x h =
    identity-snoc r.states r.soldier.is_player r.soldier.unit_name (filled s x)
    ∙ ap (λ i. identity i.0 i.1 (filled s x ∷ [])) h

-- The soldier that the cache holds after a state.
abbrev pub after : Soldier → SoldierState → Soldier
after s x = if takes_over s x then taken_over s x else s

seen-after :
    (s : Soldier) (x : SoldierState) → seen s x ≡ ((after s x).is_player, (after s x).unit_name)
seen-after s x = elim (Bool-cases (takes_over s x)) [
  | inl t ↦ rw t (sym (seen-takes_over s x t))
  | inr t ↦ rw t (sym (seen-keeps s x t))
]

after-id : (s : Soldier) (x : SoldierState) → (after s x).id ≡ s.id
unfolding taken_over
after-id s x = ground arith

lookup-note_player :
    (s : Soldier) (x : SoldierState) (c : EntityCache) (id : ℕ)
    → lookup s.id c.soldiers ≡ some s
    → lookup id (note_player s x c).soldiers
      ≡ (if nat_beq s.id id then some (after s x) else lookup id c.soldiers)
unfolding note_player taken_over
lookup-note_player s x c id h = ground (arith, lookup-insert id s.id (taken_over s x) c.soldiers)

soldier_state-Agrees :
    (s : Soldier) (x : SoldierState) (c : EntityCache) (rs : Map ℕ SoldierRecord)
    → Agrees c.soldiers rs
    → lookup x.soldier_id c.soldiers ≡ some s
    → Agrees (note_player s x c).soldiers (adjust (push_soldier_state (filled s x)) x.soldier_id rs)
soldier_state-Agrees s x c rs h found id t e =
    let (own, r, l, q) = h x.soldier_id s found in
    let look = lookup-note_player s x c id (ap (λ i. lookup i c.soldiers) own ∙ found) in
    let push = lookup-adjust (push_soldier_state (filled s x)) id x.soldier_id rs in
    elim (Bool-cases (nat_beq s.id id)) [
      | inl same ↦
          let is : t ≡ after s x = ground (arith, look) in
          (
            rw is (ground (arith, after-id s x)),
            push_soldier_state (filled s x) r,
            ground (arith, push),
            identity-pushed r s x q ∙ (seen-after s x ∙ rw is refl),
          )
      | inr other ↦
          let (k, u, v, i) = h id t (ground (arith, look)) in (k, u, ground (arith, push), i)
    ]

same-Agrees :
    {cs cs' : Map ℕ Soldier} {rs rs' : Map ℕ SoldierRecord}
    → cs' ≡ cs
    → rs' ≡ rs
    → Agrees cs rs
    → Agrees cs' rs'
same-Agrees e q h = rw (e, q) h

module _ (p : Service) (std : Std) (how : Exported) where
  pub handle-Agrees :
      (c : Command) (args : List String) (m : Manager Backend)
      → Agrees m.entity_cache.soldiers m.backend.soldiers
      → let m' = (handle p (memory std how) c args m).1 in
        Agrees m'.entity_cache.soldiers m'.backend.soldiers
  unfolding handle handle_new_soldier handle_new_vehicle handle_new_placed handle_soldier_delete
      handle_vehicle_delete handle_soldier_state handle_vehicle_state handle_placed_event
      handle_time_state handle_projectile_event handle_general_event handle_sector_event
      handle_end_mission_event handle_kill_event handle_chat_event handle_radio_event
      handle_telemetry_event handle_ace3_death_event handle_ace3_unconscious_event
      handle_marker_create handle_marker_move handle_marker_delete handle_focus_start
      handle_focus_end note_player add_soldier delete_soldier record_soldier_state add_vehicle
      add_placed_object delete_vehicle record_vehicle_state record_placed_object_event
      record_projectile_event record_general_event record_sector_event record_end_mission_event
      record_kill_event record_chat_event record_radio_event record_telemetry_event
      record_time_state record_ace3_death_event record_ace3_unconscious_event add_marker
      record_marker_state delete_marker focus_start focus_end
  handle-Agrees soldier_create args m h = elim (Result-cases (p.parse_soldier args)) [
    | inl (e, q) ↦ rw q h
    | inr (s, q) ↦ rw q (add_soldier-Agrees s _ _ h)
  ]
  handle-Agrees soldier_delete args m h = elim (Result-cases (p.parse_soldier_delete args)) [
    | inl (e, q) ↦ rw q h
    | inr ((id, frame), q) ↦ rw q (delete_soldier-Agrees id frame _ _ h)
  ]
  handle-Agrees soldier_state args m h = elim (Result-cases (p.parse_soldier_state args)) [
    | inl (e, q) ↦ rw q h
    | inr (x, q) ↦ rw q (elim (Option-cases (lookup x.soldier_id m.entity_cache.soldiers)) [
      | inl n ↦ rw n h
      | inr (s, n) ↦ rw n (soldier_state-Agrees s x m.entity_cache _ h n)
    ])
  ]
  handle-Agrees _ args m h = same-Agrees (ground arith) (ground arith) h
