-- ===== src/Worker/FromText.antt =====
-- From the texts of a command to the record in the memory backend: a new soldier and a kill.
use ocap2_extension.Prelude.{ℕ, String, ◌≡◌, ◌≢◌, refl, ◌≤◌, ◌<◌, [], ◌∷◌, none, some, nat_eq}
use ocap2_extension.Core.{Std, Soldier}
use ocap2_extension.Core.Result.{ok}
use ocap2_extension.Cache.EntityCache.{get_soldier}
use ocap2_extension.Export.Names.{format_weapon_text}
use ocap2_extension.Memory.State.{Backend}
use ocap2_extension.Memory.Lifecycle.{Exported}
use ocap2_extension.Memory.Record.{record_kill_event}
use ocap2_extension.Memory.Storage.{memory}
use ocap2_extension.Prelude.Map.{lookup}
use ocap2_extension.Prelude.Decimal.{format_uint}
use ocap2_extension.Util.Arrays.{QuoteFree, sqf_array}
use ocap2_extension.Parser.Decode.{Decoder, clean}
use ocap2_extension.Parser.Filled.{parser}
use ocap2_extension.Parser.RoundTrip.{ReadsWhole, parse_kill_event-sqf_array}
use ocap2_extension.Worker.State.{Manager}
use ocap2_extension.Worker.Events.{handle_kill_event, kill_of, classify_entity}
use ocap2_extension.Worker.Commands.{handle, event_kill}

module _ (d : Decoder) (std : Std) (how : Exported) where
  -- The texts of a kill between two soldiers of the entity cache, with three weapon texts without
  -- quotes, the first of them not a comma alone, and floats that read whole numbers, become one
  -- kill event in the memory backend with both soldiers and the three texts; nothing else changes.
  pub handle-kill_texts :
      (f victim killer x : ℕ) (v w a distance : String) (m : Manager Backend) (sv sk : Soldier)
      → get_soldier m.entity_cache victim ≡ some sv
      → get_soldier m.entity_cache killer ≡ some sk
      → ReadsWhole d
      → f ≤ 9_007_199_254_740_992
      → victim < 65_536
      → killer < 65_536
      → QuoteFree v
      → QuoteFree w
      → QuoteFree a
      → v ≢ ","
      → d.parse_float (clean distance) ≡ some x
      → handle
          (parser d)
          (memory std how)
          event_kill
          (format_uint f
            ∷ format_uint victim
            ∷ format_uint killer
            ∷ sqf_array v w a
            ∷ distance
            ∷ [])
          m
        ≡ (
          ok tt,
          record m {
            backend =
                record_kill_event
                  (record {
                    id = 0;
                    time = d.now;
                    capture_frame = f;
                    victim_soldier_id = some victim;
                    victim_vehicle_id = none;
                    killer_soldier_id = some killer;
                    killer_vehicle_id = none;
                    weapon_vehicle = v;
                    weapon_name = w;
                    weapon_magazine = a;
                    event_text = format_weapon_text v w a;
                    distance = d.std.to_f32 x;
                  })
                  m.backend;
          },
        )
  unfolding handle handle_kill_event kill_of classify_entity record_kill_event lookup
      format_weapon_text
  handle-kill_texts f victim killer x v w a distance m sv sk gv gk r i j k hv hw ha n h =
      rw
        (parse_kill_event-sqf_array d f victim killer x v w a distance r i j k hv hw ha n h, gv, gk)
        refl
