-- ===== src/Export/Json.antt =====
-- encoding/json, as the export uses it: the encoder of each type is a parameter, which may fail (on a
-- float that is not finite); the object and the array around them are written out as the encoder
-- writes a struct by its tags (types.go) and a slice.
use Prim.Native.String.{◌++◌ as append}
use ocap2_extension.Prelude.{
  ℕ, ℤ, String, Bool, true, false, List, [], ◌∷◌, Option, none, some, if◌then◌else◌,
}
use ocap2_extension.Prelude.Panic.{◌>>=◌}
use ocap2_extension.Core.{Row}
use ocap2_extension.Export.Data.{Time, Entity, Export}

pub record Json : Type 0 where
  pub marshal_text : String → Option String
  pub marshal_int : ℤ → Option String
  pub marshal_f32 : ℕ → Option String
  pub marshal_times : List Time → Option String
  pub marshal_entity : Entity → Option String
  pub marshal_rows : List Row → Option String

-- What has been written so far, or an error.
abbrev pub Writer : Type 0
Writer = String → Option String

abbrev pub write : String → Writer
write s out = some (append out s)

infixl 6 ◌then_write◌
abbrev pub ◌then_write◌ : Writer → Writer → Writer
◌then_write◌ v w out = v out >>= w

module _ (json : Json) where
  -- `bw.Write` of marshalled bytes
  abbrev pub write_bytes : Option String → Writer
  write_bytes none out = none
  write_bytes (some s) out = some (append out s)

  -- An object's field; all but the first follow a comma.
  unfoldable pub write_field : Bool → String → Option String → Writer
  write_field leading key value =
      (if leading then write "," else write "")
      then_write write_bytes (json.marshal_text key)
      then_write write ":"
      then_write write_bytes value

  -- The elements of an array.
  unfoldable pub write_elements : Bool → List Entity → Writer
  write_elements leading [] out = some out
  write_elements leading (e ∷ es) out =
      ((if leading then write "," else write "") then_write write_bytes (json.marshal_entity e)) out
      >>= λ out'. write_elements true es out'

  -- The struct `Export` as JSON.
  unfoldable pub encode_export : Export → Writer
  encode_export x =
      write "{"
      then_write write_field false "addonVersion" (json.marshal_text x.addon_version)
      then_write write_field true "extensionVersion" (json.marshal_text x.extension_version)
      then_write write_field true "extensionBuild" (json.marshal_text x.extension_build)
      then_write write_field true "missionName" (json.marshal_text x.mission_name)
      then_write write_field true "missionAuthor" (json.marshal_text x.mission_author)
      then_write write_field true "worldName" (json.marshal_text x.world_name)
      then_write write_field true "endFrame" (json.marshal_int x.end_frame)
      then_write write_field true "captureDelay" (json.marshal_f32 x.capture_delay)
      then_write write_field true "tags" (json.marshal_text x.tags)
      then_write write_field true "times" (json.marshal_times x.times)
      then_write write ",\"entities\":["
      then_write write_elements false x.entities
      then_write write "]"
      then_write write_field true "events" (json.marshal_rows x.events)
      then_write write_field true "Markers" (json.marshal_rows x.markers)
      then_write write "}"
