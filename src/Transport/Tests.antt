-- ===== src/Transport/Tests.antt =====
-- Runs of the transport, and its theorems at concrete sessions.
use asm_os.Prelude.{
  ℕ, ◌-◌, ◌%◌, ◌^◌, ◌≤◌, ◌<◌, ◌≡◌, refl, ◌↔◌, Bool, true, false, none, some, List, [], ◌∷◌, arith,
  length, replicate,
}
use asm_os.Transport.{
  max_payload, packet_max, Transport, no_session, crc_bit, crc_bits, crc_from, crc16_simple,
  batch_bytes, transport_send, transport_send_batch, transport_receive,
}
use asm_os.Transport.Packet.{transport_receive-send, transport_send_batch_overflow}
use asm_os.Transport.Failover.{
  Call, tick, reconnect, send, receive, send_batch, IsSound, run, ticks, run-IsSound,
  ticks_stay_disconnected, ticks_lose_session,
}

abbrev network : List (List ℕ) → List ℕ → Bool
network before p = true

abbrev session : Transport
session = record {
  session = record no_session { connected = true; local_seq = 0x1234 };
  tx_buf = replicate packet_max 0;
  rx_buf = replicate packet_max 7;
  initialized = true;
  transport_ticks = 199;
  next_reconnect_tick = 0;
  reconnect_attempts = 0;
  sent = [];
}

abbrev lost : Transport
lost = record session { session = no_session }

crc_runs : crc16_simple (0x31 ∷ 0x32 ∷ 0x33 ∷ []) ≡ 0x7A75
unfolding crc16_simple crc_from crc_bits crc_bit
crc_runs = refl

transport_receive-send_example :
    (p : List ℕ) × ((transport_send network 1 (some (5 ∷ 6 ∷ [])) 2 session).1.sent ≡ p ∷ [])
    × ((transport_receive network p true 64 session).0
        ≡ some (record { type = 1; seq = 0x1234; payload = 5 ∷ 6 ∷ [] }))
transport_receive-send_example =
    transport_receive-send network 1 64 (5 ∷ 6 ∷ []) session session refl refl (omega arith)
      (omega arith) (omega arith) (omega arith)

transport_send_batch_overflow_example :
    (transport_send_batch network ((1 ∷ []) ∷ (2 ∷ 3 ∷ []) ∷ []) session ≡ none) ↔ (
      (max_payload - 2 < length (batch_bytes ((1 ∷ []) ∷ (2 ∷ 3 ∷ []) ∷ [])))
      × (length (batch_bytes ((1 ∷ []) ∷ (2 ∷ 3 ∷ []) ∷ [])) % 2 ^ 16 ≤ max_payload - 2))
transport_send_batch_overflow_example =
    transport_send_batch_overflow network ((1 ∷ []) ∷ (2 ∷ 3 ∷ []) ∷ []) session refl (omega arith)
      (omega arith)

abbrev some_calls : List Call
some_calls =
    tick
    ∷ reconnect
    ∷ send 1 none 0
    ∷ receive [] true 64
    ∷ send_batch ((1 ∷ []) ∷ (2 ∷ 3 ∷ []) ∷ [])
    ∷ []

run-IsSound_example : (t' : Transport) × (run network session some_calls ≡ some t') × IsSound t'
unfolding batch_bytes
run-IsSound_example =
    run-IsSound network some_calls session (tt, (tt, (tt, (tt, (omega arith, tt)))))
      (record { alive = λ e. omega arith; tried = omega arith })

ticks_stay_disconnected_example :
    ((ticks network 100000 lost).session.connected ≡ false)
    × ((ticks network 100000 lost).reconnect_attempts ≡ 0)
ticks_stay_disconnected_example =
    ticks_stay_disconnected network 100000 lost refl refl (omega arith)

ticks_lose_session_example :
    ((ticks network 2 session).session.connected ≡ true)
    × ((ticks network 3 session).session.connected ≡ false)
ticks_lose_session_example =
    ticks_lose_session network session refl refl refl (omega arith) (omega arith)
