-- ===== src/Parser/Rows.antt =====
-- internal/parser/parse_events.go: the rows of nested arrays, of a projectile and of the telemetry. A
-- row with a value of another type than expected is skipped, as in the source.
use ocap2_extension.Prelude.{ℕ, String, List, [], ◌∷◌, ◌++◌, Option, none, some}
use ocap2_extension.Prelude.Panic.{◌>>=◌}
use ocap2_extension.Core.{TrajectoryPoint, PlayerNetworkData, Any, Row}
use ocap2_extension.Core.Dynamic.{Anys, str, f64, arr, nil, cons}
use ocap2_extension.Parser.{HitPart}
use ocap2_extension.Parser.Decode.{Decoder, value_of, position3d_from_string}

-- `v.(float64)` and `v.(string)` with the second result
abbrev pub as_float : Any → Option ℕ
as_float (f64 x) = some x
as_float _ = none

abbrev pub as_string : Any → Option String
as_string (str s) = some s
as_string _ = none

-- A row's value goes behind the others, or the row is skipped.
abbrev pub append_if {ℓ} : {A : Type ℓ} → List A → Option A → List A
append_if out none = out
append_if out (some a) = out ++ a ∷ []

abbrev pub collect {ℓ} : {A : Type ℓ} → (Row → Option A) → List Row → List A → List A
collect f [] out = out
collect f (r ∷ rs) out = collect f rs (append_if out (f r))

-- The texts among the values.
strings_of : Anys → List String
strings_of nil = []
strings_of (cons (str s) vs) = s ∷ strings_of vs
strings_of (cons _ vs) = strings_of vs

-- What a projectile hit: one text, or the texts of an array.
hit_components : Any → List String
unfolding strings_of
hit_components (str s) = s ∷ []
hit_components (arr vs) = strings_of vs
hit_components _ = []

module _ (d : Decoder) where
  -- `[tickTime, frameNo, "x,y,z"]`
  unfoldable pub trajectory_point : Row → Option TrajectoryPoint
  trajectory_point (_ ∷ frame_no ∷ text ∷ _) = do
    f ← as_float frame_no
    s ← as_string text
    position ← value_of (position3d_from_string d s)
    some (record { position = position; frame_num = d.uint_of_f64 f })
  trajectory_point _ = none

  -- `[entityId, components, "x,y,z", frameNo]`
  unfoldable pub hit_part : Row → Option HitPart
  unfolding hit_components
  hit_part (entity ∷ components ∷ text ∷ frame_no ∷ _) = do
    id ← as_float entity
    s ← as_string text
    position ← value_of (position3d_from_string d s)
    f ← as_float frame_no
    some (record {
      entity_id = d.uint16_of_f64 id;
      components_hit = hit_components components;
      capture_frame = d.uint_of_f64 f;
      position = position;
    })
  hit_part _ = none

  -- `[playerUID, playerName, avgPing, avgBandwidth, desync]`
  unfoldable pub player_of : Row → Option PlayerNetworkData
  player_of (a ∷ b ∷ c ∷ e ∷ f ∷ _) = do
    uid ← as_string a
    name ← as_string b
    ping ← as_float c
    bw ← as_float e
    desync ← as_float f
    some (record {
      uid = uid;
      name = name;
      ping = d.std.to_f32 ping;
      bw = d.std.to_f32 bw;
      desync = d.std.to_f32 desync;
    })
  player_of _ = none
