-- ===== src/Postgres/Order.antt =====
-- The order of the rows as long as no transaction fails.
use ocap2_extension.Prelude.{
  ℕ, Bool, true, false, List, [], ◌∷◌, ◌++◌, map, Option, none, some, ◌≡◌, refl, sym, ap, ◌∙◌,
}
use mathlib.Core.List.{map-append, append_assoc, append-nil}
use ocap2_extension.Queue.{push, empty, get_and_empty}
use ocap2_extension.Postgres.Writer.{
  Writing, held, Action, pushes, starts_mission, begins_cycle, takes, commits, commit_fails,
  rolls_back, take, commit, act, act_all,
}

module _ {A : Type 0} where
  -- No transaction of the sequence fails.
  abbrev pub NoFailure : List (Action A) → Type 0
  NoFailure [] = Unit
  NoFailure (rolls_back ∷ as') = ⊥
  NoFailure (commit_fails ∷ as') = ⊥
  NoFailure (_ ∷ as') = NoFailure as'

  -- All rows pushed, in the order of the pushes.
  abbrev pub rows_of : List (Action A) → List A
  rows_of [] = []
  rows_of (pushes rows ∷ as') = rows ++ rows_of as'
  rows_of (_ ∷ as') = rows_of as'

module _ {A B : Type 0} (key : A → B) where
  -- The rows from the oldest on: those in the table, in the writer's hand and in the queue.
  abbrev pub line : Writing A → List B
  line s = map key s.table ++ (map key (held s.hand) ++ map key s.queue.items)

module _ {A B : Type 0} (stamp : ℕ → A → A) (key : A → B)
    (blind : (id : ℕ) (a : A) → key (stamp id a) ≡ key a) where
  map-stamp : (id : ℕ) (xs : List A) → map key (map (stamp id) xs) ≡ map key xs
  map-stamp id [] = refl
  map-stamp id (x ∷ xs) = rw (blind id x, map-stamp id xs) refl

  push-line :
      (rows : List A) (s : Writing A)
      → line key (act stamp (pushes rows) s) ≡ line key s ++ map key rows
  unfolding act push
  push-line rows s = simp (map-append, append_assoc)

  take-line :
      (b : Bool) (h : Option (List A)) (s : Writing A)
      → s.hand ≡ h
      → line key (take stamp b h s) ≡ line key s
  unfolding get_and_empty
  take-line true h s e = refl
  take-line false (some rows) s e = refl
  take-line false none s e =
      rw (e, map-stamp s.cycle_id s.queue.items, append-nil (map key s.queue.items)) refl

  commit-line :
      (h : Option (List A)) (s : Writing A) → s.hand ≡ h → line key (commit stamp h s) ≡ line key s
  commit-line none s e = refl
  commit-line (some rows) s e = rw (e) (simp (map-append, append_assoc))

  -- As long as no transaction fails, whatever pushes, takes, commits and starts of missions and of write
  -- cycles follow each other: the rows in the table, then those in the writer's hand, then those in the queue, are the
  -- rows that were there before, in the same order, followed by those pushed since in the order of the
  -- pushes, up to what the stamp of the mission id changes.
  pub act_all-line :
      (as' : List (Action A)) (s : Writing A)
      → NoFailure as'
      → line key (act_all stamp as' s) ≡ line key s ++ map key (rows_of as')
  unfolding act_all act
  act_all-line [] s h = sym (append-nil (line key s))
  act_all-line (pushes rows ∷ as') s h =
      act_all-line as' (act stamp (pushes rows) s) h
      ∙ rw (push-line rows s) (simp (map-append, append_assoc))
  act_all-line (starts_mission id ∷ as') s h = act_all-line as' (record s { mission_id = id }) h
  act_all-line (begins_cycle ∷ as') s h = act_all-line as' (record s { cycle_id = s.mission_id }) h
  act_all-line (takes ∷ as') s h =
      act_all-line as' (act stamp takes s) h
      ∙ ap (λ l. l ++ map key (rows_of as')) (take-line (empty s.queue) s.hand s refl)
  act_all-line (commits ∷ as') s h =
      act_all-line as' (act stamp commits s) h
      ∙ ap (λ l. l ++ map key (rows_of as')) (commit-line s.hand s refl)
  act_all-line (rolls_back ∷ as') s h = absurd h
  act_all-line (commit_fails ∷ as') s h = absurd h
