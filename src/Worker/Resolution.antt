-- ===== src/Worker/Resolution.antt =====
-- The ids in recorded kills through each change that a handler makes to the caches and the records.
use ocap2_extension.Prelude.{
  ℕ, List, [], ◌∷◌, ◌++◌, some, Bool-cases, ◌≡◌, inl, inr, refl, arith, nat_eq, string_eq, All-snoc,
}
use ocap2_extension.Prelude.Map.{Map, lookup, insert, adjust, contains, lookup-insert}
use ocap2_extension.Core.{Soldier, SoldierState, Vehicle, KillEvent}
use ocap2_extension.Cache.EntityCache.{EntityCache}
use ocap2_extension.Parser.{ParsedKill}
use ocap2_extension.Memory.State.{Backend, SoldierRecord, VehicleRecord}
use ocap2_extension.Worker.State.{Manager}
use ocap2_extension.Worker.Movement.{takes_over, taken_over, note_player}
use ocap2_extension.Worker.Events.{kill_of}
use ocap2_extension.Worker.References.{
  KillRefers, Within, IsResolved, KillRefers-mono, Within-insert, insert-Within, adjust-Within,
  classify_entity-Refers,
}

abbrev pub Resolved : Manager Backend → Type 0
Resolved m =
    IsResolved m.entity_cache.soldiers m.entity_cache.vehicles m.backend.soldiers m.backend.vehicles
      m.backend.log.kill_events

pub create_soldier-IsResolved :
    (s : Soldier) (r : SoldierRecord) (cs : Map ℕ Soldier) (cv : Map ℕ Vehicle)
    (rs : Map ℕ SoldierRecord) (vs : Map ℕ VehicleRecord) (ks : List KillEvent)
    → IsResolved cs cv rs vs ks
    → IsResolved (insert s.id s cs) cv (insert s.id r rs) vs ks
create_soldier-IsResolved s r cs cv rs vs ks h = record {
  own_ids = λ id t e. ground (arith, lookup-insert id s.id s cs, h.own_ids id t);
  soldiers = Within-insert s.id s r cs rs h.soldiers;
  vehicles = h.vehicles;
  kills = KillRefers-mono rs _ vs vs ks (insert-Within s.id r rs) (λ id c. c) h.kills;
}

pub create_vehicle-IsResolved :
    (v : Vehicle) (r : VehicleRecord) (cs : Map ℕ Soldier) (cv : Map ℕ Vehicle)
    (rs : Map ℕ SoldierRecord) (vs : Map ℕ VehicleRecord) (ks : List KillEvent)
    → IsResolved cs cv rs vs ks
    → IsResolved cs (insert v.id v cv) rs (insert v.id r vs) ks
create_vehicle-IsResolved v r cs cv rs vs ks h = record {
  own_ids = h.own_ids;
  soldiers = h.soldiers;
  vehicles = Within-insert v.id v r cv vs h.vehicles;
  kills = KillRefers-mono rs rs vs _ ks (λ id c. c) (insert-Within v.id r vs) h.kills;
}

pub adjust_soldier-IsResolved :
    (f : SoldierRecord → SoldierRecord) (i : ℕ) (cs : Map ℕ Soldier) (cv : Map ℕ Vehicle)
    (rs : Map ℕ SoldierRecord) (vs : Map ℕ VehicleRecord) (ks : List KillEvent)
    → IsResolved cs cv rs vs ks
    → IsResolved cs cv (adjust f i rs) vs ks
adjust_soldier-IsResolved f i cs cv rs vs ks h = record {
  own_ids = h.own_ids;
  soldiers = λ id c. adjust-Within f i rs id (h.soldiers id c);
  vehicles = h.vehicles;
  kills = KillRefers-mono rs _ vs vs ks (adjust-Within f i rs) (λ id c. c) h.kills;
}

pub adjust_vehicle-IsResolved :
    (f : VehicleRecord → VehicleRecord) (i : ℕ) (cs : Map ℕ Soldier) (cv : Map ℕ Vehicle)
    (rs : Map ℕ SoldierRecord) (vs : Map ℕ VehicleRecord) (ks : List KillEvent)
    → IsResolved cs cv rs vs ks
    → IsResolved cs cv rs (adjust f i vs) ks
adjust_vehicle-IsResolved f i cs cv rs vs ks h = record {
  own_ids = h.own_ids;
  soldiers = h.soldiers;
  vehicles = λ id c. adjust-Within f i vs id (h.vehicles id c);
  kills = KillRefers-mono rs rs vs _ ks (λ id c. c) (adjust-Within f i vs) h.kills;
}

-- A soldier that the cache has may change there, but for its id.
pub recache-IsResolved :
    (s t : Soldier) (i : ℕ) (cs : Map ℕ Soldier) (cv : Map ℕ Vehicle) (rs : Map ℕ SoldierRecord)
    (vs : Map ℕ VehicleRecord) (ks : List KillEvent)
    → lookup i cs ≡ some s
    → t.id ≡ s.id
    → IsResolved cs cv rs vs ks
    → IsResolved (insert t.id t cs) cv rs vs ks
unfolding contains
recache-IsResolved s t i cs cv rs vs ks e same h = record {
  own_ids = λ id u q. ground (arith, lookup-insert id t.id t cs, h.own_ids id u);
  soldiers = λ id c. ground (arith, lookup-insert id t.id t cs, h.own_ids i s e, h.soldiers id);
  vehicles = h.vehicles;
  kills = h.kills;
}

kill_of-KillRefers :
    (c : EntityCache) (k : ParsedKill) (rs : Map ℕ SoldierRecord) (vs : Map ℕ VehicleRecord)
    → Within c.soldiers rs
    → Within c.vehicles vs
    → KillRefers rs vs (kill_of c k)
unfolding kill_of
kill_of-KillRefers c k rs vs s v =
    let (a, b) = classify_entity-Refers c k.victim_id rs vs s v in
    let (x, y) = classify_entity-Refers c k.killer_id rs vs s v in (a, b, x, y)

pub note_player-IsResolved :
    (s : Soldier) (x : SoldierState) (c : EntityCache) (rs : Map ℕ SoldierRecord)
    (vs : Map ℕ VehicleRecord) (ks : List KillEvent)
    → lookup x.soldier_id c.soldiers ≡ some s
    → IsResolved c.soldiers c.vehicles rs vs ks
    → IsResolved (note_player s x c).soldiers (note_player s x c).vehicles rs vs ks
unfolding note_player taken_over
note_player-IsResolved s x c rs vs ks e h = elim (Bool-cases (takes_over s x)) [
  | inl t ↦
      rw (t, note_player)
        (recache-IsResolved s (taken_over s x) x.soldier_id c.soldiers c.vehicles rs vs ks e refl h)
  | inr t ↦ rw (t, note_player) h
]

pub add_kill-IsResolved :
    (c : EntityCache) (k : ParsedKill) (rs : Map ℕ SoldierRecord) (vs : Map ℕ VehicleRecord)
    (ks : List KillEvent)
    → IsResolved c.soldiers c.vehicles rs vs ks
    → IsResolved c.soldiers c.vehicles rs vs (ks ++ kill_of c k ∷ [])
add_kill-IsResolved c k rs vs ks h = record {
  own_ids = h.own_ids;
  soldiers = h.soldiers;
  vehicles = h.vehicles;
  kills =
      All-snoc (KillRefers rs vs) ks (kill_of c k) h.kills
        (kill_of-KillRefers c k rs vs h.soldiers h.vehicles);
}

pub same-IsResolved :
    {cs cs' : Map ℕ Soldier} {cv cv' : Map ℕ Vehicle} {rs rs' : Map ℕ SoldierRecord}
    {vs vs' : Map ℕ VehicleRecord} {ks ks' : List KillEvent}
    → cs' ≡ cs
    → cv' ≡ cv
    → rs' ≡ rs
    → vs' ≡ vs
    → ks' ≡ ks
    → IsResolved cs cv rs vs ks
    → IsResolved cs' cv' rs' vs' ks'
same-IsResolved a b c d e h = rw (a, b, c, d, e) h
