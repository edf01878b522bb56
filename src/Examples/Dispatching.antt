-- ===== src/Examples/Dispatching.antt =====
-- The dispatcher's theorems at one buffered command behind a gate.
use ocap2_extension.Prelude.{
  ℕ, ◌+◌, String, List, [], ◌∷◌, ◌++◌, some, false, ◌≡◌, refl, pos, arith, string_eq,
}
use ocap2_extension.Core.{int}
use ocap2_extension.Core.Result.{ok}
use ocap2_extension.Dispatcher.State.{Event, Handler, returned, Config, Dispatcher, new, register}
use ocap2_extension.Dispatcher.Actions.{Action, dispatches, receives, finishes, closes, perform_all}
use ocap2_extension.Prelude.Map.{lookup, insert}
use ocap2_extension.Dispatcher.Order.{in_hand, accepted_all, finished_all}
use ocap2_extension.Dispatcher.Handled.{Logs, perform_all-log}
use ocap2_extension.Dispatcher.Gates.{IsWaiting, IsWaiting-finished_all}

-- The handler counts its calls.
abbrev counting : Handler ℕ
counting e n = (returned (ok (int (pos n))), n + 1)

abbrev two_places : Config
two_places = record { buffer_size = 2; blocking = false; ready = some 7 }

abbrev ready : Dispatcher ℕ
ready = register ":EVENT:" counting two_places (new 0)

abbrev event : String → Event
event arg = record { command = ":EVENT:"; args = arg ∷ []; timestamp = 0 }

abbrev rush : List Action
rush =
    dispatches (event "a")
    ∷ dispatches (event "b")
    ∷ dispatches (event "c")
    ∷ receives 0
    ∷ finishes 0
    ∷ []

-- The handler writes its events to the shared state.
abbrev logging : Handler (List Event)
logging e seen = (returned (ok (int (pos 0))), seen ++ e ∷ [])

abbrev logged : Dispatcher (List Event)
logged = register ":EVENT:" logging two_places (new [])

logged-Logs : Logs (λ seen. seen) 0 logged
unfolding register lookup insert
logged-Logs = record {
  workers = λ j h q e s. ground (arith, q);
  directs = λ command h q e s. absurd (ground (arith, q));
  gateds = λ command g h q e s. absurd (ground (arith, q));
}

perform_all-log_example :
    let actions = closes 7 ∷ rush in
    (perform_all actions logged).shared ++ in_hand 0 (perform_all actions logged)
    ≡ logged.shared ++ (in_hand 0 logged ++ accepted_all 0 actions logged)
perform_all-log_example = perform_all-log (λ seen. seen) 0 (closes 7 ∷ rush) logged logged-Logs

ready-IsWaiting : IsWaiting 7 0 ready
unfolding register
ready-IsWaiting = (refl, refl)

IsWaiting-finished_all_example : finished_all 0 rush ready ≡ []
IsWaiting-finished_all_example =
    IsWaiting-finished_all rush 7 0 ready (tt, (tt, (tt, (tt, (tt, tt))))) ready-IsWaiting
