-- ===== src/Worker/Atomic.antt =====
-- The handlers of internal/worker/dispatch.go over the memory backend: how much one message does.
use ocap2_extension.Prelude.{
  ℕ, String, List, [], ◌∷◌, ◌++◌, Option, none, some, Option-cases, nat_eq, string_eq, ◌≡◌, ◌⊎◌,
  inl, inr, refl, sym, ◌∙◌, ap,
}
use ocap2_extension.Core.{Std, Error}
use ocap2_extension.Core.Result.{Result, ok, err}
use ocap2_extension.Parser.{Service}
use ocap2_extension.Memory.State.{Backend}
use ocap2_extension.Memory.Lifecycle.{Exported}
use ocap2_extension.Memory.Storage.{memory}
use ocap2_extension.Memory.FocusOrder.{focus_start-refused, focus_end-refused}
use ocap2_extension.Memory.Trace.{
  Op, step, run, adds_soldier, adds_vehicle, adds_placed, adds_marker, deletes_soldier,
  deletes_vehicle, deletes_marker, soldier_moves, vehicle_moves, placed_fires, marker_moves, times,
  general, sector, ends_mission, telemetry, kills, projectile, chats, radios, focuses, unfocuses,
}
use ocap2_extension.Cache.EntityCache.{get_soldier, get_vehicle, get_placed_object}
use ocap2_extension.Cache.MarkerCache.{get}
use ocap2_extension.Worker.State.{Manager}
use ocap2_extension.Worker.Asked.{asked}
use ocap2_extension.Worker.Entities.{
  handle_new_soldier, handle_new_vehicle, handle_new_placed, handle_soldier_delete,
  handle_vehicle_delete,
}
use ocap2_extension.Worker.Movement.{
  handle_soldier_state, handle_vehicle_state, handle_placed_event, handle_time_state,
}
use ocap2_extension.Worker.Events.{
  any_soldier, any_unit, handle_projectile_event, handle_general_event, handle_sector_event,
  handle_end_mission_event, handle_kill_event, handle_chat_event, handle_radio_event,
  handle_telemetry_event, handle_ace3_death_event, handle_ace3_unconscious_event,
}
use ocap2_extension.Worker.Markers.{
  handle_marker_create, handle_marker_move, handle_marker_delete, handle_focus_start,
  handle_focus_end,
}
use ocap2_extension.Worker.Commands.{
  Command, handle, handle_all, soldier_create, vehicle_create, soldier_state, vehicle_state,
  time_state, event_projectile, event_kill, event_general, event_sector, event_endmission,
  event_chat, event_radio, telemetry_frame, ace3_death, ace3_unconscious, placed_create,
  placed_event, soldier_delete, vehicle_delete, marker_create, marker_state, marker_delete,
  mission_focus_start, mission_focus_end,
}

pub Result-cases {ℓ} :
    {A : Type ℓ} (r : Result A) → ((e : Error) × (r ≡ err e)) ⊎ ((a : A) × (r ≡ ok a))
Result-cases (ok a) = inr (a, refl)
Result-cases (err e) = inl (e, refl)

-- What a message does whose operation is given: the operation and no error; without an operation an
-- error and no change at all; and where the backend refuses the operation, an error and no change.
pub data IsAtomic (m : Manager Backend)
    : Option Op → Result (Unit {0}) × Manager Backend → Type 0 where
  did :
      (o : Op) (m' : Manager Backend)
      → m'.backend ≡ step o m.backend
      → IsAtomic m (some o) (ok tt, m')
  refused : (e : Error) → IsAtomic m none (err e, m)
  rejected : (o : Op) (e : Error) → step o m.backend ≡ m.backend → IsAtomic m (some o) (err e, m)

-- An optional id is absent, or names nothing, or names something.
asked_cases :
    {A : Type 0} (f : ℕ → Option A) (o : Option ℕ)
    → (o ≡ none)
      ⊎ ((id : ℕ) × (o ≡ some id) × (f id ≡ none))
      ⊎ ((id : ℕ) × (o ≡ some id) × (a : A) × (f id ≡ some a))
asked_cases f none = inl refl
asked_cases f (some id) = elim (Option-cases (f id)) [
  | inl n ↦ inr (inl (id, refl, n))
  | inr (a, k) ↦ inr (inr (id, refl, a, k))
]

calling-IsAtomic :
    (o : Op) (x : Result (Unit {0}) × Backend) (m : Manager Backend)
    → x.1 ≡ step o m.backend
    → ((e : Error) → x.0 ≡ err e → x.1 ≡ m.backend)
    → IsAtomic m (some o) (x.0, record m { backend = x.1 })
calling-IsAtomic o (ok tt, b) m d k = did o _ d
calling-IsAtomic o (err e, b) m d k = rw (k e refl) (rejected o e (sym d ∙ k e refl))

-- The history of no operation or one.
abbrev pub at_most_one : Option Op → List Op
at_most_one none = []
at_most_one (some o) = o ∷ []

IsAtomic-run :
    (m : Manager Backend) (o : Option Op) (x : Result (Unit {0}) × Manager Backend) (os : List Op)
    → IsAtomic m o x
    → run os x.1.backend ≡ run (at_most_one o ++ os) m.backend
unfolding run
IsAtomic-run m _ _ os (did o m' d) = ap (run os) d
IsAtomic-run m _ _ os (refused e) = refl
IsAtomic-run m _ _ os (rejected o e d) = ap (run os) (sym d)

module _ (p : Service) (std : Std) (how : Exported) where
  pub handle-IsAtomic :
      (c : Command) (args : List String) (m : Manager Backend)
      → IsAtomic m (asked p c args m) (handle p (memory std how) c args m)
  unfolding handle handle_new_soldier handle_new_vehicle handle_new_placed handle_soldier_delete
      handle_vehicle_delete handle_soldier_state handle_vehicle_state handle_placed_event
      handle_time_state handle_projectile_event handle_general_event handle_sector_event
      handle_end_mission_event handle_kill_event handle_chat_event handle_radio_event
      handle_telemetry_event handle_ace3_death_event handle_ace3_unconscious_event
      handle_marker_create handle_marker_move handle_marker_delete handle_focus_start
      handle_focus_end step asked
  handle-IsAtomic soldier_create args m = elim (Result-cases (p.parse_soldier args)) [
    | inl (e, h) ↦ rw h (refused _)
    | inr (a, h) ↦ rw h (did (adds_soldier _) _ refl)
  ]
  handle-IsAtomic vehicle_create args m = elim (Result-cases (p.parse_vehicle args)) [
    | inl (e, h) ↦ rw h (refused _)
    | inr (a, h) ↦ rw h (did (adds_vehicle _) _ refl)
  ]
  handle-IsAtomic placed_create args m = elim (Result-cases (p.parse_placed_object args)) [
    | inl (e, h) ↦ rw h (refused _)
    | inr (a, h) ↦ rw h (did (adds_placed _) _ refl)
  ]
  handle-IsAtomic time_state args m = elim (Result-cases (p.parse_time_state args)) [
    | inl (e, h) ↦ rw h (refused _)
    | inr (a, h) ↦ rw h (did (times _) _ refl)
  ]
  handle-IsAtomic event_projectile args m = elim (Result-cases (p.parse_projectile_event args)) [
    | inl (e, h) ↦ rw h (refused _)
    | inr (a, h) ↦ rw h (did (projectile _) _ refl)
  ]
  handle-IsAtomic event_kill args m = elim (Result-cases (p.parse_kill_event args)) [
    | inl (e, h) ↦ rw h (refused _)
    | inr (a, h) ↦ rw h (did (kills _) _ refl)
  ]
  handle-IsAtomic event_general args m = elim (Result-cases (p.parse_general_event args)) [
    | inl (e, h) ↦ rw h (refused _)
    | inr (a, h) ↦ rw h (did (general _) _ refl)
  ]
  handle-IsAtomic event_sector args m = elim (Result-cases (p.parse_sector_event args)) [
    | inl (e, h) ↦ rw h (refused _)
    | inr (a, h) ↦ rw h (did (sector _) _ refl)
  ]
  handle-IsAtomic event_endmission args m = elim (Result-cases (p.parse_end_mission_event args)) [
    | inl (e, h) ↦ rw h (refused _)
    | inr (a, h) ↦ rw h (did (ends_mission _) _ refl)
  ]
  handle-IsAtomic telemetry_frame args m = elim (Result-cases (p.parse_telemetry_event args)) [
    | inl (e, h) ↦ rw h (refused _)
    | inr (a, h) ↦ rw h (did (telemetry _) _ refl)
  ]
  handle-IsAtomic marker_create args m = elim (Result-cases (p.parse_marker_create args)) [
    | inl (e, h) ↦ rw h (refused _)
    | inr (a, h) ↦ rw h (did (adds_marker _) _ refl)
  ]
  handle-IsAtomic marker_delete args m = elim (Result-cases (p.parse_marker_delete args)) [
    | inl (e, h) ↦ rw h (refused _)
    | inr (a, h) ↦ rw h (did (deletes_marker _) _ refl)
  ]
  handle-IsAtomic soldier_delete args m = elim (Result-cases (p.parse_soldier_delete args)) [
    | inl (e, h) ↦ rw h (refused _)
    | inr ((id, frame), h) ↦ rw h (did (deletes_soldier id frame) _ refl)
  ]
  handle-IsAtomic vehicle_delete args m = elim (Result-cases (p.parse_vehicle_delete args)) [
    | inl (e, h) ↦ rw h (refused _)
    | inr ((id, frame), h) ↦ rw h (did (deletes_vehicle id frame) _ refl)
  ]
  handle-IsAtomic soldier_state args m = elim (Result-cases (p.parse_soldier_state args)) [
    | inl (e, h) ↦ rw h (refused _)
    | inr (a, h) ↦ rw h (elim (Option-cases (get_soldier m.entity_cache a.soldier_id)) [
      | inl n ↦ rw n (refused _)
      | inr (found, k) ↦ rw k (did (soldier_moves _) _ refl)
    ])
  ]
  handle-IsAtomic vehicle_state args m = elim (Result-cases (p.parse_vehicle_state args)) [
    | inl (e, h) ↦ rw h (refused _)
    | inr (a, h) ↦ rw h (elim (Option-cases (get_vehicle m.entity_cache a.vehicle_id)) [
      | inl n ↦ rw n (refused _)
      | inr (found, k) ↦ rw k (did (vehicle_moves _) _ refl)
    ])
  ]
  handle-IsAtomic placed_event args m = elim (Result-cases (p.parse_placed_object_event args)) [
    | inl (e, h) ↦ rw h (refused _)
    | inr (a, h) ↦ rw h (elim (Option-cases (get_placed_object m.entity_cache a.placed_id)) [
      | inl n ↦ rw n (refused _)
      | inr (found, k) ↦ rw k (did (placed_fires _) _ refl)
    ])
  ]
  handle-IsAtomic marker_state args m = elim (Result-cases (p.parse_marker_move args)) [
    | inl (e, h) ↦ rw h (refused _)
    | inr (a, h) ↦ rw h (elim (Option-cases (get m.marker_cache a.marker_name)) [
      | inl n ↦ rw n (refused _)
      | inr (found, k) ↦ rw k (did (marker_moves _) _ refl)
    ])
  ]
  handle-IsAtomic event_chat args m = elim (Result-cases (p.parse_chat_event args)) [
    | inl (e, h) ↦ rw h (refused _)
    | inr (a, h) ↦ rw h (elim (asked_cases (any_soldier m.entity_cache) a.soldier_id) [
      | inl n ↦ rw n (did (chats _) _ refl)
      | inr (inl (id, n, k)) ↦ rw (n, k) (refused _)
      | inr (inr (id, n, s, k)) ↦ rw (n, k) (did (chats _) _ refl)
    ])
  ]
  handle-IsAtomic event_radio args m = elim (Result-cases (p.parse_radio_event args)) [
    | inl (e, h) ↦ rw h (refused _)
    | inr (a, h) ↦ rw h (elim (asked_cases (any_soldier m.entity_cache) a.soldier_id) [
      | inl n ↦ rw n (did (radios _) _ refl)
      | inr (inl (id, n, k)) ↦ rw (n, k) (refused _)
      | inr (inr (id, n, s, k)) ↦ rw (n, k) (did (radios _) _ refl)
    ])
  ]
  handle-IsAtomic ace3_unconscious args m =
      elim (Result-cases (p.parse_ace3_unconscious_event args)) [
        | inl (e, h) ↦ rw h (refused _)
        | inr (a, h) ↦ rw h (elim (Option-cases (any_soldier m.entity_cache a.soldier_id)) [
          | inl n ↦ rw n (refused _)
          | inr (found, k) ↦ rw k (did (Op.ace3_unconscious _) _ refl)
        ])
      ]
  handle-IsAtomic ace3_death args m = elim (Result-cases (p.parse_ace3_death_event args)) [
    | inl (e, h) ↦ rw h (refused _)
    | inr (a, h) ↦ rw h (elim (Option-cases (any_soldier m.entity_cache a.soldier_id)) [
      | inl n ↦ rw n (refused _)
      | inr (found, k) ↦
          rw k (elim (asked_cases (any_unit m.entity_cache) a.last_damage_source_id) [
            | inl n ↦ rw n (did (Op.ace3_death _) _ refl)
            | inr (inl (id, n, q)) ↦ rw (n, q) (refused _)
            | inr (inr (id, n, s, q)) ↦ rw (n, q) (did (Op.ace3_death _) _ refl)
          ])
    ])
  ]
  handle-IsAtomic mission_focus_start args m = elim (Result-cases (p.parse_focus_start args)) [
    | inl (e, h) ↦ rw h (refused _)
    | inr (frame, h) ↦
        rw h (calling-IsAtomic (focuses frame) _ m refl (focus_start-refused frame m.backend))
  ]
  handle-IsAtomic mission_focus_end args m = elim (Result-cases (p.parse_focus_end args)) [
    | inl (e, h) ↦ rw h (refused _)
    | inr (frame, h) ↦
        rw h (calling-IsAtomic (unfocuses frame) _ m refl (focus_end-refused frame m.backend))
  ]

  -- The operations that the messages stand for, each with the caches that it finds.
  unfoldable pub asked_all : List (Command × List String) → Manager Backend → List Op
  asked_all [] m = []
  asked_all ((c, args) ∷ ms) m =
      at_most_one (asked p c args m) ++ asked_all ms (handle p (memory std how) c args m).1

  -- A run of messages leaves the memory backend as the history does of the operations that the messages
  -- stand for, in the order of the messages: one for each message whose arguments parse and whose
  -- references are in the caches at that time, and none for the others.
  pub handle_all-run :
      (ms : List (Command × List String)) (m : Manager Backend)
      → (handle_all p (memory std how) ms m).backend ≡ run (asked_all ms m) m.backend
  unfolding handle_all run asked_all
  handle_all-run [] m = refl
  handle_all-run ((c, args) ∷ ms) m =
      handle_all-run ms (handle p (memory std how) c args m).1
      ∙ IsAtomic-run m (asked p c args m) (handle p (memory std how) c args m) _
          (handle-IsAtomic c args m)
