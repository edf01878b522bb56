-- ===== src/Postgres/Writer.antt =====
-- writeQueue: it takes all rows of a queue, stamps them with the mission and writes them in one
-- transaction; if that fails it puts them back. Other goroutines push between its two halves.
use ocap2_extension.Prelude.{ℕ, Bool, true, false, List, [], ◌∷◌, ◌++◌, map, Option, none, some}
use ocap2_extension.Queue.{Queue, push, empty, get_and_empty}

-- A queue, the rows that the writer holds, the table, the rows of transactions whose commit failed,
-- the id of the mission and the id that the writer has read for its cycle.
pub record Writing (A : Type 0) : Type 0 where
  pub queue : Queue A
  pub hand : Option (List A)
  pub table : List A
  pub forgotten : List A
  pub mission_id : ℕ
  pub cycle_id : ℕ

abbrev pub held : {A : Type 0} → Option (List A) → List A
held none = []
held (some rows) = rows

pub data Action (A : Type 0) : Type 0 where
  pushes : List A → Action A
  starts_mission : ℕ → Action A
  begins_cycle : Action A
  takes : Action A
  commits : Action A
  commit_fails : Action A
  rolls_back : Action A

module _ {A : Type 0} (stamp : ℕ → A → A) where
  -- Up to the transaction's insert. An empty queue is left alone.
  abbrev pub take : Bool → Option (List A) → Writing A → Writing A
  take true hand s = s
  take false (some rows) s = s
  take false none s =
      let (rows, q) = get_and_empty s.queue in
      record s { queue = q; hand = some (map (stamp s.cycle_id) rows) }

  abbrev pub commit : Option (List A) → Writing A → Writing A
  commit none s = s
  commit (some rows) s = record s { hand = none; table = s.table ++ rows }

  -- `tx.Commit()` is called for its effect: its error is not looked at, and the rows are not kept.
  abbrev pub fail_commit : Option (List A) → Writing A → Writing A
  fail_commit none s = s
  fail_commit (some rows) s = record s { hand = none; forgotten = s.forgotten ++ rows }

  -- The insert failed.
  abbrev pub roll_back : Option (List A) → Writing A → Writing A
  roll_back none s = s
  roll_back (some rows) s = record s { hand = none; queue = push rows s.queue }

  unfoldable pub act : Action A → Writing A → Writing A
  act (pushes rows) s = record s { queue = push rows s.queue }
  act (starts_mission id) s = record s { mission_id = id }
  act begins_cycle s = record s { cycle_id = s.mission_id }
  act takes s = take (empty s.queue) s.hand s
  act commits s = commit s.hand s
  act commit_fails s = fail_commit s.hand s
  act rolls_back s = roll_back s.hand s

  unfoldable pub act_all : List (Action A) → Writing A → Writing A
  act_all [] s = s
  act_all (a ∷ as') s = act_all as' (act a s)
