-- ===== src/Examples/Streaming.antt =====
-- The theorems on the websocket backend at a small mission.
use ocap2_extension.Prelude.{
  ℕ, true, refl, ◌≡◌, ◌≤◌, ◌++◌, List, [], ◌∷◌, some, nat_beq, length, All, arith,
}
use ocap2_extension.Core.Result.{ok}
use ocap2_extension.Memory.Trace.{adds_soldier, adds_marker, soldier_moves, Op}
use ocap2_extension.Websocket.Connection.{
  Connection, Attempt, new_connection, reconnect, attempts, steps, step, send, write_next, replays,
  replay, next_backoff, sends, writes, reads, closes, meanwhile, receives, sees_closed, times_out,
}
use ocap2_extension.Websocket.Backend.{
  Backend, Encoder, Server, envelope_text, start_mission, websocket,
}
use ocap2_extension.Websocket.Sending.{perform_ops, transcript, take, perform_ops-transcript}
use ocap2_extension.Websocket.Reconnecting.{sum, reconnect-sleeps}
use ocap2_extension.Websocket.Waiting.{
  IsStopped, answers, start_mission-Unanswered, start_mission-stale,
}
use ocap2_extension.Examples.Data.{mission, world, rifleman, objective, seen_at}

abbrev encoder : Encoder
encoder = record {
  marshal = λ p. some "{}";
  marshal_envelope = λ e. some "{\"payload\":{}}";
  marshal_error = "unsupported value";
}

-- A server that answers another message first and is then lost.
abbrev server : Server
server type =
    meanwhile (reads (record { for = "end_mission" }))
      (receives (meanwhile closes (sees_closed times_out)))

abbrev open_backend : Backend
open_backend = record { conn = record new_connection { conn = some 0 }; next_marker_id = 0 }

abbrev history : List Op
history = adds_soldier rifleman ∷ adds_marker objective ∷ soldier_moves (seen_at 2 "Ann" true) ∷ []

perform_ops-transcript_example :
    (perform_ops (websocket encoder server) history open_backend).conn.send_ch
    ≡ take 10_000 ([] ++ transcript encoder 0 history)
perform_ops-transcript_example =
    perform_ops-transcript encoder server history open_backend (omega arith)

start_mission-Unanswered_example :
    IsStopped "start_mission" (start_mission encoder server mission world open_backend).0
unfolding envelope_text
start_mission-Unanswered_example =
    start_mission-Unanswered encoder server mission world open_backend "{\"payload\":{}}" refl tt
      (refl, (tt, tt))

-- An answer of an earlier mission is still in the channel, behind another one.
abbrev late_backend : Backend
late_backend = record open_backend {
  conn = record open_backend.conn {
    ack_ch = record { for = "end_mission" } ∷ record { for = "start_mission" } ∷ [];
  };
}

abbrev silent : Server
silent type = receives (receives times_out)

start_mission-stale_example : (start_mission encoder silent mission world late_backend).0 ≡ ok tt
unfolding envelope_text answers
start_mission-stale_example =
    start_mission-stale encoder silent mission world late_backend "{\"payload\":{}}" refl 2
      times_out refl (omega arith) refl

-- The third dial succeeds. A method sends a text before that, and a write loop of the old connection
-- writes it before the replay.
abbrev third : ℕ → Attempt
third n = record {
  dialled = nat_beq n 3;
  replayed = true;
  sleeping = sends "state" ∷ [];
  published = writes true ∷ [];
}

abbrev lost : Connection
lost = record new_connection { conn = some 0; cached_start_msg = some "start" }

reconnect-sleeps_example :
    let sleeps = (reconnect 1 third lost).1 in
    (length sleeps ≤ 10) × All (λ s. s ≤ 30) sleeps × (sum sleeps ≤ 181)
reconnect-sleeps_example = reconnect-sleeps 1 third lost

-- The text of the old write loop comes first.
third-wire : (reconnect 1 third lost).2.wire ≡ (3, "state") ∷ (3, "start") ∷ []
unfolding reconnect attempts steps step send write_next replays replay next_backoff
third-wire = refl
