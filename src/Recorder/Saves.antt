-- ===== src/Recorder/Saves.antt =====
-- Saves that are triggered while another one runs: the compare-and-swap of triggerMissionSave.
use ocap2_extension.Prelude.{
  ℕ, zero, suc, ◌+◌, ◌≡◌, refl, ap, sym, String, Bool, true, false, List, [], ◌∷◌, length,
  length-append, arith, if◌then◌else◌,
}
use ocap2_extension.Core.Result.{Result, ok, err, Error}
use ocap2_extension.Storage.{Storage}
use ocap2_extension.Worker.State.{Manager}
use ocap2_extension.Recorder.Lifecycle.{
  Recorder, Upload, unless_in_flight, trigger_mission_save, run_mission_save_worker,
}

-- The variables, the save goroutines that run, and how many triggers were accepted.
pub record Saving (S : Type 0) : Type 0 where
  pub recorder : Recorder S
  pub running : ℕ
  pub accepted : ℕ

-- A trigger, the end of a goroutine, or a message of the worker.
pub data Move (S : Type 0) : Type 0 where
  triggers : Move S
  finishes : Move S
  works : (Manager S → Manager S) → Move S

module _ {S : Type 0} (b : Storage S) (u : Upload S) (error_text : Error → String) where
  -- The reply "queued" comes with a goroutine, an error without one.
  abbrev pub triggered : Result String × Recorder S → Saving S → Saving S
  triggered (err e, r) s = record s { recorder = r }
  triggered (ok text, r) s = record {
    recorder = r;
    running = suc s.running;
    accepted = suc s.accepted;
  }

  abbrev pub finished : ℕ → Saving S → Saving S
  finished zero s = s
  finished (suc n) s = record s {
    recorder = run_mission_save_worker b u error_text s.recorder;
    running = n;
  }

  unfoldable pub move : Move S → Saving S → Saving S
  move triggers s = triggered (trigger_mission_save b u error_text s.recorder) s
  move finishes s = finished s.running s
  move (works f) s = record s { recorder = record s.recorder { workers = f s.recorder.workers } }

  unfoldable pub moves : List (Move S) → Saving S → Saving S
  moves [] s = s
  moves (m ∷ ms) s = moves ms (move m s)

  -- The flag says whether a goroutine runs, and each accepted save has reported or still runs.
  pub record IsSingle (before : ℕ) (s : Saving S) : Type 0 where
    pub flag : s.running ≡ (if s.recorder.in_flight then 1 else 0)
    pub reports : length s.recorder.callbacks + s.running ≡ before + s.accepted

  move-IsSingle :
      (before : ℕ) (m : Move S) (s : Saving S) → IsSingle before s → IsSingle before (move m s)
  unfolding move trigger_mission_save run_mission_save_worker
  move-IsSingle before triggers s i = go s.recorder.in_flight i.flag
    where
      go :
          (f : Bool)
          → s.running ≡ (if f then 1 else 0)
          → IsSingle before (triggered (unless_in_flight b u error_text f s.recorder) s)
      go true h = record { flag = i.flag; reports = i.reports }
      go false h = record { flag = omega (arith, h); reports = omega (arith, i.reports) }
  move-IsSingle before finishes s i = go s.running refl
    where
      go : (n : ℕ) → s.running ≡ n → IsSingle before (finished n s)
      go zero h = i
      go (suc n) h = record {
        flag = ground (arith, h, i.flag);
        reports = omega (arith, h, i.reports, length-append s.recorder.callbacks (_ ∷ []));
      }
  move-IsSingle before (works f) s i = record { flag = i.flag; reports = i.reports }

  abbrev pub idle : Recorder S → Saving S
  idle r = record { recorder = r; running = 0; accepted = 0 }

  moves-kept :
      (before : ℕ) (ms : List (Move S)) (s : Saving S)
      → IsSingle before s
      → IsSingle before (moves ms s)
  unfolding moves
  moves-kept before [] s i = i
  moves-kept before (m ∷ ms) s i = moves-kept before ms (move m s) (move-IsSingle before m s i)

  -- Whatever triggers, ends of saves and messages follow each other from a recorder without a save, at
  -- most one save goroutine runs, the flag is set exactly while it does, and each accepted save has
  -- told the game its result or still runs.
  pub moves-IsSingle :
      (ms : List (Move S)) (r : Recorder S)
      → r.in_flight ≡ false
      → IsSingle (length r.callbacks) (moves ms (idle r))
  moves-IsSingle ms r h =
      moves-kept (length r.callbacks) ms (idle r)
        (record { flag = ap (λ f. if f then 1 else 0) (sym h); reports = omega arith })
