-- ===== src/Postgres/Conservation.antt =====
-- What becomes of the rows that are pushed.
use ocap2_extension.Prelude.{
  ℕ, ◌+◌, Bool, true, false, List, [], ◌∷◌, ◌++◌, map, Option, none, some, ◌≡◌, refl, ap, arith,
  if◌then◌else◌,
}
use ocap2_extension.Queue.{push, empty, get_and_empty}
use ocap2_extension.Postgres.Writer.{
  Writing, held, Action, pushes, starts_mission, begins_cycle, takes, commits, commit_fails,
  rolls_back, take, commit, fail_commit, roll_back, act, act_all,
}

module _ {A : Type 0} (test : A → Bool) where
  -- How many rows satisfy a test.
  unfoldable pub count : List A → ℕ
  count [] = 0
  count (a ∷ as') = (if test a then 1 else 0) + count as'

  count-append : (xs ys : List A) → count (xs ++ ys) ≡ count xs + count ys
  unfolding count
  count-append [] ys = omega arith
  count-append (x ∷ xs) ys = omega (arith, count-append xs ys)

  -- Those in the table, of failed commits, in the writer's hand and in the queue.
  abbrev pub count_all : Writing A → ℕ
  count_all s = count s.table + count s.forgotten + count (held s.hand) + count s.queue.items

  abbrev pub pushed_in : List (Action A) → ℕ
  pushed_in [] = 0
  pushed_in (pushes rows ∷ as') = count rows + pushed_in as'
  pushed_in (_ ∷ as') = pushed_in as'

module _ {A : Type 0} (stamp : ℕ → A → A) (test : A → Bool)
    (blind : (id : ℕ) (a : A) → test (stamp id a) ≡ test a) where
  count-stamp : (id : ℕ) (xs : List A) → count test (map (stamp id) xs) ≡ count test xs
  unfolding count
  count-stamp id [] = refl
  count-stamp id (x ∷ xs) =
      rw (blind id x) (ap (λ n. (if test x then 1 else 0) + n) (count-stamp id xs))

  hand-count :
      (s : Writing A) (h : Option (List A))
      → s.hand ≡ h
      → count test (held s.hand) ≡ count test (held h)
  hand-count s h e = ap (λ o. count test (held o)) e

  take-count :
      (b : Bool) (h : Option (List A)) (s : Writing A)
      → s.hand ≡ h
      → count_all test (take stamp b h s) ≡ count_all test s
  unfolding count get_and_empty
  take-count true h s e = refl
  take-count false (some rows) s e = refl
  take-count false none s e =
      omega (arith, hand-count s none e, count-stamp s.cycle_id s.queue.items)

  commit-count :
      (h : Option (List A)) (s : Writing A)
      → s.hand ≡ h
      → count_all test (commit stamp h s) ≡ count_all test s
  unfolding count
  commit-count none s e = refl
  commit-count (some rows) s e =
      omega (arith, hand-count s (some rows) e, count-append test s.table rows)

  fail_commit-count :
      (h : Option (List A)) (s : Writing A)
      → s.hand ≡ h
      → count_all test (fail_commit stamp h s) ≡ count_all test s
  unfolding count
  fail_commit-count none s e = refl
  fail_commit-count (some rows) s e =
      omega (arith, hand-count s (some rows) e, count-append test s.forgotten rows)

  roll_back-count :
      (h : Option (List A)) (s : Writing A)
      → s.hand ≡ h
      → count_all test (roll_back stamp h s) ≡ count_all test s
  unfolding count push
  roll_back-count none s e = refl
  roll_back-count (some rows) s e =
      omega (arith, hand-count s (some rows) e, count-append test s.queue.items rows)

  act-count :
      (a : Action A) (s : Writing A)
      → count_all test (act stamp a s) ≡ count_all test s + pushed_in test (a ∷ [])
  unfolding act push get_and_empty
  act-count (pushes rows) s = omega (arith, count-append test s.queue.items rows)
  act-count (starts_mission id) s = omega arith
  act-count begins_cycle s = omega arith
  act-count takes s = omega (arith, take-count (empty s.queue) s.hand s refl)
  act-count commits s = omega (arith, commit-count s.hand s refl)
  act-count commit_fails s = omega (arith, fail_commit-count s.hand s refl)
  act-count rolls_back s = omega (arith, roll_back-count s.hand s refl)

  pushed_in-cons :
      (a : Action A) (as' : List (Action A))
      → pushed_in test (a ∷ as') ≡ pushed_in test (a ∷ []) + pushed_in test as'
  pushed_in-cons (pushes rows) as' = omega arith
  pushed_in-cons _ as' = omega arith

  -- Whatever pushes, starts of missions and of write cycles, takes, failed inserts, commits and failed
  -- commits follow each other: for every test that does not look at the mission id, the rows that
  -- satisfy it in the table, in the writer's hand, in the queue and in transactions whose commit failed
  -- are as many as before and those pushed since. No row is written twice, and only a failed commit,
  -- whose error the code does not look at, loses rows.
  pub act_all-count :
      (as' : List (Action A)) (s : Writing A)
      → count_all test (act_all stamp as' s) ≡ count_all test s + pushed_in test as'
  unfolding act_all
  act_all-count [] s = omega arith
  act_all-count (a ∷ as') s =
      omega (arith, act_all-count as' (act stamp a s), act-count a s, pushed_in-cons a as')
