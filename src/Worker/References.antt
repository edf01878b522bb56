-- ===== src/Worker/References.antt =====
-- The ids in recorded kills: what it is for one to name a recorded unit, and classifyEntity.
use ocap2_extension.Prelude.{
  ℕ, List, Option, none, some, Option-cases, true, ◌≡◌, inl, inr, ◌∙◌, arith, nat_eq, string_eq,
  All, All-mono,
}
use ocap2_extension.Prelude.Map.{
  Map, lookup, insert, adjust, contains, contains-insert, contains-adjust,
}
use ocap2_extension.Core.{Soldier, Vehicle, KillEvent}
use ocap2_extension.Cache.EntityCache.{EntityCache}
use ocap2_extension.Memory.State.{SoldierRecord, VehicleRecord}
use ocap2_extension.Worker.Events.{classify_entity}

-- An id that is set names an entry.
abbrev pub Refers {κ} : {V : Type κ} → Option ℕ → Map ℕ V → Type 0
Refers none m = Unit
Refers (some id) m = contains id m ≡ true

abbrev pub KillRefers : Map ℕ SoldierRecord → Map ℕ VehicleRecord → KillEvent → Type 0
KillRefers rs vs k =
    Refers k.victim_soldier_id rs
    × Refers k.victim_vehicle_id vs
    × Refers k.killer_soldier_id rs
    × Refers k.killer_vehicle_id vs

abbrev pub Within {κ μ} : {V : Type κ} {W : Type μ} → Map ℕ V → Map ℕ W → Type 0
Within m n = (id : ℕ) → contains id m ≡ true → contains id n ≡ true

-- The caches hold only units that the backend has, each soldier under its own id, and every recorded
-- kill names such units.
pub record IsResolved (cs : Map ℕ Soldier) (cv : Map ℕ Vehicle) (rs : Map ℕ SoldierRecord)
    (vs : Map ℕ VehicleRecord) (ks : List KillEvent) : Type 0 where
  pub own_ids : (id : ℕ) (s : Soldier) → lookup id cs ≡ some s → s.id ≡ id
  pub soldiers : Within cs rs
  pub vehicles : Within cv vs
  pub kills : All (KillRefers rs vs) ks

Refers-mono {κ μ} :
    {V : Type κ} {W : Type μ} (o : Option ℕ) (m : Map ℕ V) (n : Map ℕ W)
    → Within m n
    → Refers o m
    → Refers o n
Refers-mono none m n w h = tt
Refers-mono (some id) m n w h = w id h

pub KillRefers-mono :
    (rs rs' : Map ℕ SoldierRecord) (vs vs' : Map ℕ VehicleRecord) (ks : List KillEvent)
    → Within rs rs'
    → Within vs vs'
    → All (KillRefers rs vs) ks
    → All (KillRefers rs' vs') ks
KillRefers-mono rs rs' vs vs' ks r v h =
    All-mono ks
      (λ k (a, b, c, d). (
        Refers-mono k.victim_soldier_id rs rs' r a,
        Refers-mono k.victim_vehicle_id vs vs' v b,
        Refers-mono k.killer_soldier_id rs rs' r c,
        Refers-mono k.killer_vehicle_id vs vs' v d,
      ))
      h

pub Within-insert {κ μ} :
    {V : Type κ} {W : Type μ} (i : ℕ) (v : V) (w : W) (m : Map ℕ V) (n : Map ℕ W)
    → Within m n
    → Within (insert i v m) (insert i w n)
Within-insert i v w m n h id c =
    ground (arith, contains-insert id i v m, contains-insert id i w n, h id)

pub insert-Within {κ} : {V : Type κ} (i : ℕ) (v : V) (m : Map ℕ V) → Within m (insert i v m)
insert-Within i v m id c = ground (arith, contains-insert id i v m)

pub adjust-Within {κ} : {V : Type κ} (f : V → V) (i : ℕ) (m : Map ℕ V) → Within m (adjust f i m)
adjust-Within f i m id c = contains-adjust f id i m ∙ c

pub classify_entity-Refers :
    (c : EntityCache) (id : ℕ) (rs : Map ℕ SoldierRecord) (vs : Map ℕ VehicleRecord)
    → Within c.soldiers rs
    → Within c.vehicles vs
    → Refers (classify_entity c id).0 rs × Refers (classify_entity c id).1 vs
unfolding classify_entity contains
classify_entity-Refers c id rs vs s v = elim (Option-cases (lookup id c.soldiers)) [
  | inl n ↦ elim (Option-cases (lookup id c.vehicles)) [
    | inl k ↦ rw (n, k, classify_entity) (tt, tt)
    | inr (w, k) ↦ rw (n, k, classify_entity) (tt, v id (ground arith))
  ]
  | inr (r, n) ↦ rw (n, classify_entity) (s id (ground arith), tt)
]
