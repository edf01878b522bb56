-- ===== src/Export/Gaps.antt =====
-- builder.go's buildSoldierEntity: the gap fill.
use ocap2_extension.Prelude.{
  ℕ, ◌+◌, ◌-◌, ◌≤◌, ◌<◌, suc, zero, pos, List, [], ◌∷◌, ◌++◌, some, ◌≡◌, refl, ◌∙◌, ap, arith,
  if◌then◌else◌, ltb, length, get_elem?, replicate, length-append, length-replicate, ◌⊎◌, inl, inr,
  true, false,
}
use ocap2_extension.Core.{Frame, SoldierState}
use ocap2_extension.Export.Frames.{frame_to_v1, max_int, rounds, dec}
use ocap2_extension.Export.Entities.{fill, soldier_position, end_of_last}

get_elem?-replicate {ℓ} :
    {A : Type ℓ} (n k : ℕ) (a : A) → k < n → get_elem? (replicate n a) k ≡ some a
get_elem?-replicate zero k a h = ground arith
get_elem?-replicate (suc n) zero a h = refl
get_elem?-replicate (suc n) (suc k) a h = get_elem?-replicate n k a (omega arith)

module _ {ℓ} {A : Type ℓ} where
  get_elem?-append_left :
      (xs ys : List A) (k : ℕ) → k < length xs → get_elem? (xs ++ ys) k ≡ get_elem? xs k
  get_elem?-append_left [] ys k h = ground arith
  get_elem?-append_left (x ∷ xs) ys zero h = refl
  get_elem?-append_left (x ∷ xs) ys (suc k) h = get_elem?-append_left xs ys k (omega arith)

  get_elem?-append_right :
      (xs ys : List A) (k : ℕ)
      → length xs ≤ k
      → get_elem? (xs ++ ys) k ≡ get_elem? ys (k - length xs)
  get_elem?-append_right [] ys k h = ground arith
  get_elem?-append_right (x ∷ xs) ys zero h = ground arith
  get_elem?-append_right (x ∷ xs) ys (suc k) h = ground (arith, get_elem?-append_right xs ys k)

ltb-cases : (a b : ℕ) → ((ltb a b ≡ true) × (a < b)) ⊎ ((ltb a b ≡ false) × (b ≤ a))
ltb-cases a b = ground arith

get_elem?-run {ℓ} :
    {A : Type ℓ} (n k : ℕ) (x : A) (rest : List A)
    → (k < n → get_elem? (replicate n x ++ rest) k ≡ some x)
      × (n ≤ k → get_elem? (replicate n x ++ rest) k ≡ get_elem? rest (k - n))
get_elem?-run n k x rest =
    let len : length (replicate n x) ≡ n = length-replicate n x in
    (
      λ h.
          get_elem?-append_left (replicate n x) rest k (omega (arith, len))
          ∙ get_elem?-replicate n k x h,
      λ h.
          get_elem?-append_right (replicate n x) rest k (omega (arith, len))
          ∙ ap (λ m. get_elem? rest (k - m)) len,
    )

-- The frames of the states start at `lo`, never fall, and end by `hi`.
abbrev pub InOrder : Frame → Frame → List SoldierState → Type 0
InOrder lo hi [] = (lo ≤ hi) × (hi < max_int)
InOrder lo hi (s ∷ ss) = (lo ≤ s.capture_frame) × InOrder s.capture_frame hi ss

-- The state in force at a frame: the last one recorded by then.
abbrev pub in_force : SoldierState → List SoldierState → Frame → SoldierState
in_force s [] f = s
in_force s (t ∷ ss) f = if ltb f t.capture_frame then s else in_force t ss f

-- Where the entity ends.
abbrev pub last_frame : Frame → Frame → Frame
last_frame delete_frame max_frame = if ltb 0 delete_frame then delete_frame else max_frame

InOrder-bounds :
    (lo hi : Frame) (ss : List SoldierState) → InOrder lo hi ss → (lo ≤ hi) × (hi < max_int)
InOrder-bounds lo hi [] h = h
InOrder-bounds lo hi (s ∷ ss) (le, h) = ground (arith, InOrder-bounds s.capture_frame hi ss h)

frame_to_v1-pred : (f : Frame) → 1 ≤ f → f ≤ max_int → frame_to_v1 f ≡ pos (f - 1)
unfolding frame_to_v1
frame_to_v1-pred f l h = ground arith

end_of_last_lem : (df mf : Frame) → end_of_last df mf ≡ frame_to_v1 (last_frame df mf)
end_of_last_lem df mf = ground arith

fill-last :
    (df mf : Frame) (s : SoldierState)
    → 1 ≤ s.capture_frame
    → s.capture_frame ≤ last_frame df mf
    → last_frame df mf < max_int
    → fill df mf (s ∷ []) ≡ replicate (last_frame df mf + 1 - s.capture_frame) (soldier_position s)
unfolding fill
fill-last df mf s l h m = ap (λ n. replicate n (soldier_position s)) counted
  where
    counted :
        rounds (frame_to_v1 s.capture_frame) (end_of_last df mf)
        ≡ last_frame df mf + 1 - s.capture_frame
    counted =
        rw
          (
            end_of_last_lem df mf,
            frame_to_v1-pred s.capture_frame l (omega arith),
            frame_to_v1-pred (last_frame df mf) (omega arith) (omega arith),
          )
          (omega arith)

fill-next :
    (df mf : Frame) (s t : SoldierState) (ss : List SoldierState)
    → 1 ≤ s.capture_frame
    → s.capture_frame ≤ t.capture_frame
    → t.capture_frame < max_int
    → fill df mf (s ∷ t ∷ ss)
      ≡ replicate (t.capture_frame - s.capture_frame) (soldier_position s) ++ fill df mf (t ∷ ss)
unfolding fill
fill-next df mf s t ss l h m =
    ap (λ n. replicate n (soldier_position s) ++ fill df mf (t ∷ ss)) counted
  where
    counted :
        rounds (frame_to_v1 s.capture_frame) (dec (frame_to_v1 t.capture_frame))
        ≡ t.capture_frame - s.capture_frame
    counted =
        rw
          (
            frame_to_v1-pred s.capture_frame l (omega arith),
            frame_to_v1-pred t.capture_frame (omega arith) (omega arith),
          )
          (ground arith)

-- For states in the order of their frames, the first not before frame 1 and the last not after the
-- end of the entity, the export holds one position for each frame from the first state to the end,
-- and each is that of the state in force at the frame.
pub fill-in_force :
    (df mf : Frame) (s : SoldierState) (ss : List SoldierState)
    → InOrder 1 (last_frame df mf) (s ∷ ss)
    → (length (fill df mf (s ∷ ss)) ≡ last_frame df mf + 1 - s.capture_frame)
      × ((k : ℕ)
          → s.capture_frame + k ≤ last_frame df mf
          → get_elem? (fill df mf (s ∷ ss)) k
            ≡ some (soldier_position (in_force s ss (s.capture_frame + k))))
fill-in_force df mf s [] (l, (h, m)) =
    let e = fill-last df mf s l h m in
    let n = last_frame df mf + 1 - s.capture_frame in
    (
      ap length e ∙ length-replicate n (soldier_position s),
      λ k le.
          ap (λ r. get_elem? r k) e ∙ get_elem?-replicate n k (soldier_position s) (omega arith),
    )
fill-in_force df mf s (t ∷ ss) (l, (h, o)) =
    let b = InOrder-bounds t.capture_frame (last_frame df mf) ss o in
    let e = fill-next df mf s t ss l h (omega (arith, b)) in
    let n = t.capture_frame - s.capture_frame in
    let head = replicate n (soldier_position s) in
    let rest = fill-in_force df mf t ss (omega arith, o) in
    let lh : length head ≡ n = length-replicate n (soldier_position s) in
    (
      ap length e ∙ (length-append head (fill df mf (t ∷ ss)) ∙ omega (arith, lh, rest.0, b)),
      λ k le. ap (λ r. get_elem? r k) e ∙ elim (ltb-cases (s.capture_frame + k) t.capture_frame) [
        | inl (c, lt) ↦
            let small : k < n = omega (arith, lt) in
            rw c ((get_elem?-run n k (soldier_position s) (fill df mf (t ∷ ss))).0 small)
        | inr (c, ge) ↦
            let same : t.capture_frame + (k - n) ≡ s.capture_frame + k = omega (arith, ge, h) in
            rw c (
              (get_elem?-run n k (soldier_position s) _).1 (omega (arith, ge, h))
              ∙ (rest.1 (k - n) (omega (arith, ge, h, le))
                  ∙ ap (λ f. some (soldier_position (in_force t ss f))) same))
      ],
    )
