-- ===== src/Examples/Writing.antt =====
-- The database writer at two rows, a failed transaction and a new mission.
use ocap2_extension.Prelude.{
  ℕ, String, Bool, ◌+◌, refl, ◌≡◌, List, [], ◌∷◌, none, string_eq, ◌==◌, ◌++◌, map,
}
use ocap2_extension.Queue
use ocap2_extension.Queue.{push, empty, get_and_empty}
use ocap2_extension.Postgres.Writer.{
  Writing, Action, pushes, starts_mission, begins_cycle, takes, commits, rolls_back, act, act_all,
}
use ocap2_extension.Postgres.Conservation.{count_all, pushed_in, act_all-count}
use ocap2_extension.Postgres.Order.{line, rows_of, act_all-line}

-- A row is its mission id and a name.
abbrev Named : Type 0
Named = ℕ × String

abbrev stamp : ℕ → Named → Named
stamp id (m, name) = (id, name)

abbrev is_ann : Named → Bool
is_ann (m, name) = name == "Ann"

abbrev before : Writing Named
before = record {
  queue = Queue.new;
  hand = none;
  table = [];
  forgotten = [];
  mission_id = 1;
  cycle_id = 1;
}

-- The second push comes while the writer holds the first row, and the insert fails. The next one
-- succeeds when a new mission has started.
abbrev actions : List (Action Named)
actions =
    pushes ((0, "Ann") ∷ [])
    ∷ takes
    ∷ pushes ((0, "Bob") ∷ [])
    ∷ rolls_back
    ∷ starts_mission 2
    ∷ begins_cycle
    ∷ takes
    ∷ commits
    ∷ []

-- The first row is in the table, the second in the writer's hand and the third in the queue.
abbrev smooth : List (Action Named)
smooth =
    pushes ((0, "Ann") ∷ [])
    ∷ takes
    ∷ pushes ((0, "Bob") ∷ [])
    ∷ commits
    ∷ takes
    ∷ pushes ((0, "Cid") ∷ [])
    ∷ []

abbrev name_of : Named → String
name_of (m, name) = name

act_all-line_example :
    line name_of (act_all stamp smooth before) ≡ line name_of before ++ map name_of (rows_of smooth)
act_all-line_example = act_all-line stamp name_of (λ id a. refl) smooth before tt

act_all-count_example :
    count_all is_ann (act_all stamp actions before)
    ≡ count_all is_ann before + pushed_in is_ann actions
act_all-count_example = act_all-count stamp is_ann (λ id a. refl) actions before

-- Both rows carry the id of the new mission, in another order than they were pushed.
stamped_late : (act_all stamp actions before).table ≡ (2, "Bob") ∷ (2, "Ann") ∷ []
unfolding act_all act push empty get_and_empty
stamped_late = refl
