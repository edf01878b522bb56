-- ===== src/Memory/Focus.antt =====
-- memory.go: SetFocusStart and SetFocusEnd.
use ocap2_extension.Prelude.{
  [], ◌∷◌, ◌++◌, Option, none, some, ltb, leb, nat_beq, if◌then◌else◌, List, last?,
}
use ocap2_extension.Core.{Frame, frame_forever, FocusRange, uint, Outcome, nil_error}
use ocap2_extension.Core.Result.{errorf, err}
use ocap2_extension.Memory.State.{FocusState, Backend}

-- `if len(b.focusRanges) > 0 { lastEnd := …; if frame < lastEnd { return … } }`
unfoldable pub before_last : List FocusRange → Frame → Option Frame
before_last ranges frame = elim (last? ranges) [
  | none ↦ none
  | some r ↦ if ltb frame r.end then some r.end else none
]

unfoldable pub open_range : Frame → FocusState → Outcome × FocusState
unfolding before_last
open_range frame s = elim (before_last s.focus_ranges frame) [
  | some last_end ↦ (
    err (
        errorf "focus start frame %d must be >= end of previous range %d"
          (uint frame ∷ uint last_end ∷ [])),
    s,
  )
  | none ↦ (nil_error, record s { focus_open_start = some frame })
]

unfoldable pub set_focus_start : Frame → FocusState → Outcome × FocusState
unfolding open_range
set_focus_start frame s =
    if nat_beq frame frame_forever
    then (err (errorf "focus start frame must be > 0" []), s)
    else elim s.focus_open_start [ some start ↦ (nil_error, s) | none ↦ open_range frame s ]

unfoldable pub set_focus_end : Frame → FocusState → Outcome × FocusState
set_focus_end frame s = elim s.focus_open_start [
  | none ↦ (nil_error, s)
  | some start ↦
      if leb frame start
      then (
        err (errorf "focus end frame %d must be > start frame %d" (uint frame ∷ uint start ∷ [])),
        s,
      )
      else (
        nil_error,
        record {
          focus_ranges = s.focus_ranges ++ record { start = start; end = frame } ∷ [];
          focus_open_start = none;
        },
      )
]

unfoldable pub focus_start : Frame → Backend → Outcome × Backend
focus_start frame b = let (r, f) = set_focus_start frame b.focus in (r, record b { focus = f })

unfoldable pub focus_end : Frame → Backend → Outcome × Backend
focus_end frame b = let (r, f) = set_focus_end frame b.focus in (r, record b { focus = f })
