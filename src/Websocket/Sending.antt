-- ===== src/Websocket/Sending.antt =====
-- What a history of the backend's methods leaves in the send channel.
use ocap2_extension.Prelude.{
  ℕ, zero, suc, String, Bool, true, false, List, [], ◌∷◌, ◌++◌, ◌≡◌, refl, ap, sym, ◌∙◌, ◌≤◌,
  length, length-append, ltb, Bool-cases, inl, inr, arith, if◌then◌else◌,
}
use ocap2_extension.Core.Result.{Result, ok, err}
use ocap2_extension.Storage.{Storage}
use ocap2_extension.Streaming
use ocap2_extension.Streaming.{
  MessageType, Payload, a_marker, id_and_frame, a_frame, a_soldier, a_vehicle, a_soldier_state,
  a_vehicle_state, a_marker_state, a_deletion, a_shot, a_projectile, a_general_event,
  a_sector_event, an_end, a_hit, a_kill, a_chat, a_radio, a_telemetry, a_time, a_death,
  an_unconscious, a_placed_object, a_placed_event,
}
use ocap2_extension.Memory.Trace.{
  Op, adds_soldier, adds_vehicle, adds_marker, adds_placed, deletes_soldier, deletes_vehicle,
  deletes_marker, soldier_moves, vehicle_moves, marker_moves, fires, placed_fires, projectile,
  general, sector, ends_mission, hits, kills, chats, radios, times, focuses, unfocuses,
}
use ocap2_extension.Websocket.Connection.{Connection, send}
use ocap2_extension.Websocket.Backend.{
  Backend, Encoder, Server, envelope_text, send_envelope, sending, add_marker, following, websocket,
}

-- A method of any backend, as a change of its state.
abbrev pub perform : {S : Type 0} → Storage S → Op → S → S
perform b (adds_soldier s) t = (b.add_soldier s t).1
perform b (adds_vehicle v) t = (b.add_vehicle v t).1
perform b (adds_marker m) t = (b.add_marker m t).1
perform b (adds_placed p) t = (b.add_placed_object p t).1
perform b (deletes_soldier id f) t = (b.delete_soldier id f t).1
perform b (deletes_vehicle id f) t = (b.delete_vehicle id f t).1
perform b (deletes_marker dm) t = (b.delete_marker dm t).1
perform b (soldier_moves s) t = (b.record_soldier_state s t).1
perform b (vehicle_moves s) t = (b.record_vehicle_state s t).1
perform b (marker_moves s) t = (b.record_marker_state s t).1
perform b (fires e) t = (b.record_fired_event e t).1
perform b (placed_fires e) t = (b.record_placed_object_event e t).1
perform b (projectile e) t = (b.record_projectile_event e t).1
perform b (general e) t = (b.record_general_event e t).1
perform b (sector e) t = (b.record_sector_event e t).1
perform b (ends_mission e) t = (b.record_end_mission_event e t).1
perform b (hits e) t = (b.record_hit_event e t).1
perform b (kills e) t = (b.record_kill_event e t).1
perform b (chats e) t = (b.record_chat_event e t).1
perform b (radios e) t = (b.record_radio_event e t).1
perform b (Op.telemetry e) t = (b.record_telemetry_event e t).1
perform b (times s) t = (b.record_time_state s t).1
perform b (Op.ace3_death e) t = (b.record_ace3_death_event e t).1
perform b (Op.ace3_unconscious e) t = (b.record_ace3_unconscious_event e t).1
perform b (focuses f) t = (b.set_focus_start f t).1
perform b (unfocuses f) t = (b.set_focus_end f t).1

abbrev pub perform_ops : {S : Type 0} → Storage S → List Op → S → S
perform_ops b [] t = t
perform_ops b (o ∷ os) t = perform_ops b os (perform b o t)

-- The message of a method, where the last marker had the given id, and the id of the last marker
-- after it.
unfoldable pub message : ℕ → Op → MessageType × Payload
message n (adds_soldier s) = (Streaming.add_soldier, a_soldier s)
message n (adds_vehicle v) = (Streaming.add_vehicle, a_vehicle v)
message n (adds_marker m) = (Streaming.add_marker, a_marker (record m { id = following n }))
message n (adds_placed p) = (Streaming.add_placed, a_placed_object p)
message n (deletes_soldier id f) = (Streaming.delete_soldier, id_and_frame id f)
message n (deletes_vehicle id f) = (Streaming.delete_vehicle, id_and_frame id f)
message n (deletes_marker dm) = (Streaming.delete_marker, a_deletion dm)
message n (soldier_moves s) = (Streaming.soldier_state, a_soldier_state s)
message n (vehicle_moves s) = (Streaming.vehicle_state, a_vehicle_state s)
message n (marker_moves s) = (Streaming.marker_state, a_marker_state s)
message n (fires e) = (Streaming.fired_event, a_shot e)
message n (placed_fires e) = (Streaming.placed_event, a_placed_event e)
message n (projectile e) = (Streaming.projectile_event, a_projectile e)
message n (general e) = (Streaming.general_event, a_general_event e)
message n (sector e) = (Streaming.sector_event, a_sector_event e)
message n (ends_mission e) = (Streaming.end_mission_event, an_end e)
message n (hits e) = (Streaming.hit_event, a_hit e)
message n (kills e) = (Streaming.kill_event, a_kill e)
message n (chats e) = (Streaming.chat_event, a_chat e)
message n (radios e) = (Streaming.radio_event, a_radio e)
message n (Op.telemetry e) = (Streaming.telemetry, a_telemetry e)
message n (times s) = (Streaming.time_state, a_time s)
message n (Op.ace3_death e) = (Streaming.ace3_death, a_death e)
message n (Op.ace3_unconscious e) = (Streaming.ace3_unconscious, an_unconscious e)
message n (focuses f) = (Streaming.mission_focus_start, a_frame f)
message n (unfocuses f) = (Streaming.mission_focus_end, a_frame f)

abbrev pub last_marker : ℕ → Op → ℕ
last_marker n (adds_marker m) = following n
last_marker n _ = n

abbrev pub with_text : Result String → List String → List String
with_text (ok text) rest = text ∷ rest
with_text (err x) rest = rest

-- The texts of a history's messages, without those that JSON cannot express.
unfoldable pub transcript : Encoder → ℕ → List Op → List String
transcript e n [] = []
transcript e n (o ∷ os) =
    with_text (envelope_text e (message n o).0 (message n o).1) (transcript e (last_marker n o) os)

-- The first texts, as many as fit.
unfoldable pub take : ℕ → List String → List String
take zero xs = []
take (suc n) [] = []
take (suc n) (x ∷ xs) = x ∷ take n xs

take-full : (n : ℕ) (q xs : List String) → length q ≡ n → take n (q ++ xs) ≡ q
unfolding take
take-full zero [] xs h = refl
take-full zero (x ∷ q) xs h = absurd (omega arith)
take-full (suc n) [] xs h = absurd (omega arith)
take-full (suc n) (x ∷ q) xs h = ap (λ ys. x ∷ ys) (take-full n q xs (omega arith))

take-all : (n : ℕ) (q : List String) → length q ≤ n → take n (q ++ []) ≡ q
unfolding take
take-all zero [] h = refl
take-all zero (x ∷ q) h = absurd (omega arith)
take-all (suc n) [] h = refl
take-all (suc n) (x ∷ q) h = ap (λ ys. x ∷ ys) (take-all n q (omega arith))

snoc-append : (q rest : List String) (t : String) → (q ++ t ∷ []) ++ rest ≡ q ++ t ∷ rest
snoc-append [] rest t = refl
snoc-append (x ∷ q) rest t = ap (λ ys. x ∷ ys) (snoc-append q rest t)

-- A channel of a size after one more text.
abbrev pushed : ℕ → String → List String → List String
pushed n t q = if ltb (length q) n then q ++ t ∷ [] else q

take-pushed :
    (n : ℕ) (t : String) (q rest : List String)
    → length q ≤ n
    → take n (pushed n t q ++ rest) ≡ take n (q ++ t ∷ rest)
take-pushed n t q rest h = elim (Bool-cases (ltb (length q) n)) [
  | inl k ↦ rw k (ap (take n) (snoc-append q rest t))
  | inr k ↦
      let full : length q ≡ n = ground arith in
      rw k (take-full n q rest full ∙ sym (take-full n q (t ∷ rest) full))
]

length-pushed : (n : ℕ) (t : String) (q : List String) → length q ≤ n → length (pushed n t q) ≤ n
length-pushed n t q h = elim (Bool-cases (ltb (length q) n)) [
  | inl k ↦ rw k (ground (arith, length-append q (t ∷ [])))
  | inr k ↦ rw k h
]

send-pushed : (t : String) (c : Connection) → (send t c).send_ch ≡ pushed 10_000 t c.send_ch
unfolding send
send-pushed t c = go (ltb (length c.send_ch) 10_000)
  where
    go :
        (b : Bool)
        → (if b then record c { send_ch = c.send_ch ++ t ∷ [] } else c).send_ch
          ≡ (if b then c.send_ch ++ t ∷ [] else c.send_ch)
    go true = refl
    go false = refl

-- What one method does to the backend, by its message.
sent : Encoder → ℕ → MessageType × Payload → Backend → Backend
sent e n m b = (send_envelope e m.0 m.1 (record b { next_marker_id = n })).1

sent-next_marker_id :
    (e : Encoder) (n : ℕ) (m : MessageType × Payload) (b : Backend)
    → (sent e n m b).next_marker_id ≡ n
unfolding sent send_envelope
sent-next_marker_id e n m b = go (envelope_text e m.0 m.1)
  where
    go : (r : Result String) → (sending e r (record b { next_marker_id = n })).1.next_marker_id ≡ n
    go (ok t) = refl
    go (err x) = refl

take-sent :
    (e : Encoder) (n : ℕ) (m : MessageType × Payload) (b : Backend) (rest : List String)
    → length b.conn.send_ch ≤ 10_000
    → take 10_000 ((sent e n m b).conn.send_ch ++ rest)
      ≡ take 10_000 (b.conn.send_ch ++ with_text (envelope_text e m.0 m.1) rest)
unfolding sent send_envelope
take-sent e n m b rest h = go (envelope_text e m.0 m.1)
  where
    go :
        (r : Result String)
        → take 10_000 ((sending e r (record b { next_marker_id = n })).1.conn.send_ch ++ rest)
          ≡ take 10_000 (b.conn.send_ch ++ with_text r rest)
    go (ok t) = rw (send-pushed t b.conn) (take-pushed 10_000 t b.conn.send_ch rest h)
    go (err x) = refl

length-sent :
    (e : Encoder) (n : ℕ) (m : MessageType × Payload) (b : Backend)
    → length b.conn.send_ch ≤ 10_000
    → length (sent e n m b).conn.send_ch ≤ 10_000
unfolding sent send_envelope
length-sent e n m b h = go (envelope_text e m.0 m.1)
  where
    go :
        (r : Result String)
        → length (sending e r (record b { next_marker_id = n })).1.conn.send_ch ≤ 10_000
    go (ok t) = rw (send-pushed t b.conn) (length-pushed 10_000 t b.conn.send_ch h)
    go (err x) = h

module _ (e : Encoder) (server : Server) where
  perform-sent :
      (o : Op) (b : Backend)
      → perform (websocket e server) o b
        ≡ sent e (last_marker b.next_marker_id o) (message b.next_marker_id o) b
  unfolding sent message add_marker
  perform-sent (adds_soldier s) b = refl
  perform-sent _ b = refl

  -- As long as nothing is taken out, the send channel after a history holds what it held and the
  -- texts of the history's messages in their order, cut off at 10,000; each marker carries the next
  -- number, and a message that JSON cannot express is left out.
  pub perform_ops-transcript :
      (os : List Op) (b : Backend)
      → length b.conn.send_ch ≤ 10_000
      → (perform_ops (websocket e server) os b).conn.send_ch
        ≡ take 10_000 (b.conn.send_ch ++ transcript e b.next_marker_id os)
  unfolding transcript
  perform_ops-transcript [] b h = sym (take-all 10_000 b.conn.send_ch h)
  perform_ops-transcript (o ∷ os) b h =
      let n = last_marker b.next_marker_id o in
      let m = message b.next_marker_id o in
      ap (λ w. (perform_ops (websocket e server) os w).conn.send_ch) (perform-sent o b)
      ∙ perform_ops-transcript os (sent e n m b) (length-sent e n m b h)
      ∙ ap (λ k. take 10_000 ((sent e n m b).conn.send_ch ++ transcript e k os))
          (sent-next_marker_id e n m b)
      ∙ take-sent e n m b (transcript e n os) h
