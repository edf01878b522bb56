-- ===== src/Memory/FocusOrder.antt =====
-- memory.go: the order of the focus ranges.
use ocap2_extension.Prelude.{
  ◌≤◌, ◌<◌, List, [], ◌∷◌, ◌++◌, Option, none, some, ◌≡◌, refl, ◌∙◌, arith, last?, Option-cases,
  inl, inr,
}
use ocap2_extension.Core.Result.{Error, err}
use ocap2_extension.Core.{Frame, FocusRange, Std, Mission, World}
use ocap2_extension.Memory.State.{FocusState, Backend, empty_focus}
use ocap2_extension.Memory.Focus.{set_focus_start, set_focus_end, focus_start, focus_end}
use ocap2_extension.Memory.Metadata.{all_ranges, get_export_metadata, end_frame}
use ocap2_extension.Memory.Lifecycle.{start_mission}
use ocap2_extension.Memory.Trace.{Op, focuses, unfocuses, step, run, run-mission, run-world}

-- Each range is non-empty and starts where the one before it ended, or later.
abbrev pub Ordered : Frame → List FocusRange → Type 0
Ordered lo [] = Unit
Ordered lo (r ∷ rs) = (lo ≤ r.start) × (r.start < r.end) × Ordered r.end rs

abbrev pub end_of : Frame → List FocusRange → Frame
end_of lo [] = lo
end_of lo (r ∷ rs) = end_of r.end rs

abbrev pub OpensAfter : Frame → Option Frame → Type 0
OpensAfter lo none = Unit
OpensAfter lo (some start) = lo ≤ start

-- The completed ranges are ordered, from frame 1 on, and an open one starts no earlier than the
-- last of them ended.
pub record IsFocused (f : FocusState) : Type 0 where
  pub ordered : Ordered 1 f.focus_ranges
  pub later : OpensAfter (end_of 1 f.focus_ranges) f.focus_open_start

empty-IsFocused : IsFocused empty_focus
empty-IsFocused = record { ordered = tt; later = tt }

last?-cons : (y : FocusRange) (rs : List FocusRange) → ¬ (last? (y ∷ rs) ≡ none)
last?-cons y [] h = ground arith
last?-cons y (z ∷ rs) h = last?-cons z rs h

Ordered-snoc :
    (lo : Frame) (rs : List FocusRange) (r : FocusRange)
    → Ordered lo rs
    → end_of lo rs ≤ r.start
    → r.start < r.end
    → Ordered lo (rs ++ r ∷ [])
Ordered-snoc lo [] r o h k = (h, k, tt)
Ordered-snoc lo (x ∷ rs) r (p, q, o) h k = (p, q, Ordered-snoc x.end rs r o h k)

end_of-none : (lo : Frame) (rs : List FocusRange) → last? rs ≡ none → end_of lo rs ≡ lo
end_of-none lo [] h = refl
end_of-none lo (x ∷ []) h = ground arith
end_of-none lo (x ∷ y ∷ rs) h = absurd (last?-cons y rs h)

end_of-snoc :
    (lo : Frame) (rs : List FocusRange) (r : FocusRange) → end_of lo (rs ++ r ∷ []) ≡ r.end
end_of-snoc lo [] r = refl
end_of-snoc lo (x ∷ rs) r = end_of-snoc x.end rs r

end_of-last :
    (lo : Frame) (rs : List FocusRange) (r : FocusRange) → last? rs ≡ some r → end_of lo rs ≡ r.end
end_of-last lo [] r h = ground arith
end_of-last lo (x ∷ []) r h = ground arith
end_of-last lo (x ∷ y ∷ rs) r h = end_of-last x.end (y ∷ rs) r h

pub set_focus_start-IsFocused :
    (frame : Frame) (f : FocusState) → IsFocused f → IsFocused (set_focus_start frame f).1
unfolding set_focus_start
set_focus_start-IsFocused frame f v = elim (Option-cases (last? f.focus_ranges)) [
  | inl e ↦ ground (arith, end_of-none 1 f.focus_ranges)
  | inr (r, e) ↦ ground (arith, end_of-last 1 f.focus_ranges r)
]

pub set_focus_end-IsFocused :
    (frame : Frame) (f : FocusState) → IsFocused f → IsFocused (set_focus_end frame f).1
unfolding set_focus_end
set_focus_end-IsFocused frame f v = elim (Option-cases f.focus_open_start) [
  | inl e ↦ rw (e, set_focus_end) v
  | inr (start, e) ↦ ground (
    arith,
    Ordered-snoc 1 f.focus_ranges (record { start = start; end = frame }),
    end_of-snoc 1 f.focus_ranges (record { start = start; end = frame }),
  )
]

step-IsFocused : (o : Op) (b : Backend) → IsFocused b.focus → IsFocused (step o b).focus
unfolding step
step-IsFocused (focuses frame) b v = set_focus_start-IsFocused frame b.focus v
step-IsFocused (unfocuses frame) b v = set_focus_end-IsFocused frame b.focus v
step-IsFocused _ b v = v

run-IsFocused : (os : List Op) (b : Backend) → IsFocused b.focus → IsFocused (run os b).focus
unfolding run
run-IsFocused [] b v = v
run-IsFocused (o ∷ os) b v = run-IsFocused os (step o b) (step-IsFocused o b v)

all_ranges-Ordered : (f : FocusState) (last : Frame) → IsFocused f → Ordered 1 (all_ranges f last)
unfolding all_ranges
all_ranges-Ordered f last v = elim (Option-cases f.focus_open_start) [
  | inl e ↦ rw (e, all_ranges) v.ordered
  | inr (start, e) ↦
      ground (arith, Ordered-snoc 1 f.focus_ranges (record { start = start; end = last }))
]

live-focus_ranges :
    (std : Std) (b : Backend) (m : Mission) (w : World)
    → b.mission ≡ some m
    → b.world ≡ some w
    → (get_export_metadata std b).focus_ranges ≡ all_ranges b.focus (end_frame b)
unfolding get_export_metadata
live-focus_ranges std b m w h k = ground arith

-- The focus ranges that the upload metadata carries after a mission's start and any history, the
-- open range closed at the last frame included, are non-empty, in order and do not overlap.
pub get_export_metadata-Ordered :
    (std : Std) (m : Mission) (w : World) (os : List Op) (b : Backend)
    → Ordered 1 (get_export_metadata std (run os (start_mission m w b))).focus_ranges
get_export_metadata-Ordered std m w os b =
    let b' = run os (start_mission m w b) in
    let v : IsFocused b'.focus =
      run-IsFocused os (start_mission m w b) (unfold start_mission in empty-IsFocused) in
    rw
      (live-focus_ranges std b' m w
        (run-mission os (start_mission m w b) ∙ unfold start_mission in refl)
        (run-world os (start_mission m w b) ∙ unfold start_mission in refl))
      (all_ranges-Ordered b'.focus (end_frame b') v)

-- A refused focus event changes nothing.
pub focus_start-refused :
    (frame : Frame) (b : Backend) (e : Error)
    → (focus_start frame b).0 ≡ err e
    → (focus_start frame b).1 ≡ b
unfolding focus_start set_focus_start
focus_start-refused frame b e h = ground arith

pub focus_end-refused :
    (frame : Frame) (b : Backend) (e : Error)
    → (focus_end frame b).0 ≡ err e
    → (focus_end frame b).1 ≡ b
unfolding focus_end set_focus_end
focus_end-refused frame b e h = ground arith
