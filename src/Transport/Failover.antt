-- ===== src/Transport/Failover.antt =====
-- Heartbeats and reconnection of src/transport.c: what the session can be after any calls.
use asm_os.Prelude.{
  ℕ, zero, suc, ◌+◌, ◌^◌, ◌≤◌, ◌<◌, ◌≡◌, Bool, true, false, Option, none, some, refl, ap, inl, inr,
  not, ◌||◌, ◌-◌, ◌==◌, Bool-cases, length, List, [], ◌∷◌, arith, ltb,
}
use asm_os.Transport.{
  heartbeat_ticks, reconnect_ticks, max_missed_heartbeat, max_reconnect_attempts, type_heartbeat,
  Transport, transport_init, transport_shutdown, miss, advance, network_send, transport_send,
  transport_send_batch, batch_total, batch_bytes, max_payload, type_data, send_ack,
  transport_receive, tick_connected, tick_disconnected, transport_tick, transport_request_reconnect,
}
use asm_os.Transport.Packet.{length-batch_total}
use asm_os.Prelude.Words.{u8, u16}
use mathlib.Core.Option

-- The calls on the transport, with what the network has to give.
pub data Call : Type 0 where
  init shutdown tick reconnect : Call
  send : ℕ → Option (List ℕ) → ℕ → Call
  receive : List ℕ → Bool → ℕ → Call
  send_batch : List (List ℕ) → Call

-- A connected session has missed fewer than three heartbeats, and no more than ten reconnections
-- were tried.
pub record IsSound (t : Transport) : Type 0 where
  pub alive : t.session.connected ≡ true → t.session.heartbeat_missed < max_missed_heartbeat
  pub tried : t.reconnect_attempts ≤ max_reconnect_attempts

-- The payloads of a batch, with the two bytes of the length of each, are fewer than 2^16 bytes.
abbrev pub MayCall : Call → Type 0
MayCall (send_batch payloads) = length (batch_bytes payloads) < 2 ^ 16
MayCall init = Unit {0}
MayCall shutdown = Unit {0}
MayCall tick = Unit {0}
MayCall reconnect = Unit {0}
MayCall (send type payload len) = Unit {0}
MayCall (receive arrived with_out max_len) = Unit {0}

abbrev pub AllMayCall : List Call → Type 0
AllMayCall [] = Unit {0}
AllMayCall (c ∷ cs) = MayCall c × AllMayCall cs

module _ (net_send : List (List ℕ) → List ℕ → Bool) where
  -- The transport after a call, and `none` for a batch that is written past its buffer.
  pub step : Transport → Call → Option Transport
  step t init = some (transport_init t)
  step t shutdown = some (transport_shutdown t)
  step t tick = some (transport_tick net_send t)
  step t reconnect = some (transport_request_reconnect t)
  step t (send type payload len) = some (transport_send net_send type payload len t).1
  step t (receive arrived with_out max_len) =
      some (transport_receive net_send arrived with_out max_len t).1
  step t (send_batch payloads) = Option.map (λ r. r.1) (transport_send_batch net_send payloads t)

  pub run : Transport → List Call → Option Transport
  unfolding step
  run t [] = some t
  run t (c ∷ cs) = elim (step t c) [ none ↦ none | some t' ↦ run t' cs ]

  -- What a send leaves alone.
  transport_send-keeps :
      (type : ℕ) (payload : Option (List ℕ)) (len : ℕ) (t : Transport)
      → let t' = (transport_send net_send type payload len t).1 in
        (t'.session.connected ≡ t.session.connected)
        × (t'.session.heartbeat_missed ≡ t.session.heartbeat_missed)
        × (t'.session.last_heartbeat_ticks ≡ t.session.last_heartbeat_ticks)
        × (t'.reconnect_attempts ≡ t.reconnect_attempts)
        × (t'.transport_ticks ≡ t.transport_ticks)
        × (t'.initialized ≡ t.initialized)
  unfolding transport_send network_send
  transport_send-keeps type payload len t = ground arith

  receive-IsSound :
      (arrived : List ℕ) (with_out : Bool) (max_len : ℕ) (t : Transport)
      → IsSound t
      → IsSound (transport_receive net_send arrived with_out max_len t).1
  unfolding transport_receive send_ack network_send
  receive-IsSound arrived with_out max_len t v = ground arith

  tick-IsSound : (t : Transport) → IsSound t → IsSound (transport_tick net_send t)
  unfolding transport_tick tick_connected tick_disconnected
  tick-IsSound t v =
      ground
        (arith, transport_send-keeps type_heartbeat none 0 (miss net_send (advance net_send t)))

  send-IsSound :
      (type : ℕ) (payload : Option (List ℕ)) (len : ℕ) (t : Transport)
      → IsSound t
      → IsSound (transport_send net_send type payload len t).1
  send-IsSound type payload len t v = ground (arith, transport_send-keeps type payload len t)

  batch-IsSound :
      (payloads : List (List ℕ)) (t : Transport)
      → length (batch_bytes payloads) < 2 ^ 16
      → IsSound t
      → (r : Option ℕ × Transport) × (transport_send_batch net_send payloads t ≡ some r)
        × IsSound r.1
  unfolding transport_send_batch
  batch-IsSound payloads t h v =
      let sum = length-batch_total 0 payloads (omega arith) in
      elim (Bool-cases (not t.initialized || length payloads == 0 || ltb 4 (length payloads))) [
        | inl refused ↦ ((none, t), rw refused refl, v)
        | inr one_to_four ↦ elim (Bool-cases (ltb (max_payload - 2) (batch_total 0 payloads))) [
          | inl long ↦ ((none, t), rw (one_to_four, long) refl, v)
          | inr short ↦
              let batch = u8 (length payloads) ∷ 0 ∷ batch_bytes payloads in
              let room : ltb max_payload (length batch) ≡ false = ground (arith, sum, short) in
              (
                transport_send net_send type_data (some batch) (u16 (length batch)) t,
                rw (one_to_four, short, room) refl,
                send-IsSound type_data (some batch) (u16 (length batch)) t v,
              )
        ]
      ]

  step-IsSound :
      (c : Call) (t : Transport)
      → MayCall c
      → IsSound t
      → (t' : Transport) × (step t c ≡ some t') × IsSound t'
  unfolding step
  step-IsSound init t m v = (_, refl, unfold transport_init in ground arith)
  step-IsSound shutdown t m v = (_, refl, unfold transport_shutdown in ground arith)
  step-IsSound tick t m v = (_, refl, tick-IsSound t v)
  step-IsSound reconnect t m v = (_, refl, unfold transport_request_reconnect in ground arith)
  step-IsSound (send type payload len) t m v = (_, refl, send-IsSound type payload len t v)
  step-IsSound (receive arrived with_out max_len) t m v =
      (_, refl, receive-IsSound arrived with_out max_len t v)
  step-IsSound (send_batch payloads) t m v =
      let sent = batch-IsSound payloads t m v in
      (sent.0.1, ap (Option.map (λ r. r.1)) sent.1, sent.2)

  -- From a state in which a connected session has missed fewer than three heartbeats and at most ten
  -- reconnections were tried, every sequence of calls has a result, whatever the network does, and
  -- that state is one of this kind again. The payloads of each batch that is sent, with the two bytes
  -- of the length of each, are fewer than 2^16 bytes.
  pub run-IsSound :
      (cs : List Call) (t : Transport)
      → AllMayCall cs
      → IsSound t
      → (t' : Transport) × (run t cs ≡ some t') × IsSound t'
  unfolding run
  run-IsSound [] t m v = (t, refl, v)
  run-IsSound (c ∷ cs) t m v =
      let one = step-IsSound c t m.0 v in
      let all = run-IsSound cs one.0 m.1 one.2 in (all.0, rw (one.1, run) (all.1), all.2)

  pub ticks : ℕ → Transport → Transport
  ticks zero t = t
  ticks (suc n) t = ticks n (transport_tick net_send t)

  stays :
      (t : Transport)
      → t.session.connected ≡ false
      → t.reconnect_attempts ≡ 0
      → t.transport_ticks + 1 + reconnect_ticks < 2 ^ 32
      → let t' = transport_tick net_send t in
        (t'.session.connected ≡ false)
        × (t'.reconnect_attempts ≡ 0)
        × (t'.transport_ticks ≤ t.transport_ticks + 1)
  unfolding transport_tick tick_disconnected
  stays t c a h = ground arith

  -- A session that is lost before any reconnection stays lost: the time of the first attempt is put
  -- off by every tick. This holds until the tick counter comes near 2^32.
  pub ticks_stay_disconnected :
      (n : ℕ) (t : Transport)
      → t.session.connected ≡ false
      → t.reconnect_attempts ≡ 0
      → t.transport_ticks + n + reconnect_ticks < 2 ^ 32
      → ((ticks n t).session.connected ≡ false) × ((ticks n t).reconnect_attempts ≡ 0)
  unfolding ticks
  ticks_stay_disconnected zero t c a h = (c, a)
  ticks_stay_disconnected (suc n) t c a h =
      let one = stays t c a (omega arith) in
      ticks_stay_disconnected n (transport_tick net_send t) one.0 one.1 (omega (arith, one.2))

  -- One tick of a silent session.
  tick_silent :
      (t : Transport)
      → t.initialized ≡ true
      → t.session.connected ≡ true
      → t.session.heartbeat_missed < max_missed_heartbeat
      → t.transport_ticks + 1 < 2 ^ 32
      → t.session.last_heartbeat_ticks + heartbeat_ticks ≤ t.transport_ticks + 1
      → let t' = transport_tick net_send t in
        (t'.initialized ≡ true)
        × (t'.session.connected ≡ ltb (t.session.heartbeat_missed + 1) max_missed_heartbeat)
        × (t'.session.heartbeat_missed ≡ t.session.heartbeat_missed + 1)
        × (t'.session.last_heartbeat_ticks ≡ t.session.last_heartbeat_ticks)
        × (t'.transport_ticks ≡ t.transport_ticks + 1)
  unfolding transport_tick tick_connected
  tick_silent t i c m w s =
      ground
        (arith, transport_send-keeps type_heartbeat none 0 (miss net_send (advance net_send t)))

  -- Once a session has been silent for the heartbeat time it is lost two ticks after the first
  -- heartbeat: the silence is not measured anew from the heartbeat that was sent.
  pub ticks_lose_session :
      (t : Transport)
      → t.initialized ≡ true
      → t.session.connected ≡ true
      → t.session.heartbeat_missed ≡ 0
      → t.transport_ticks + 3 < 2 ^ 32
      → t.session.last_heartbeat_ticks + heartbeat_ticks ≤ t.transport_ticks + 1
      → ((ticks 2 t).session.connected ≡ true) × ((ticks 3 t).session.connected ≡ false)
  unfolding ticks
  ticks_lose_session t i c m w s =
      let one = tick_silent t i c (omega arith) (omega arith) s in
      let t1 = transport_tick net_send t in
      let two =
        tick_silent t1 one.0 (ground (arith, one.1)) (omega (arith, one.2)) (omega (arith, one.4))
          (omega (arith, one.3, one.4)) in
      let t2 = transport_tick net_send t1 in
      let still : t2.session.connected ≡ true = ground (arith, two.1, one.2) in
      let three =
        tick_silent t2 two.0 still (omega (arith, two.2, one.2)) (omega (arith, two.4, one.4))
          (omega (arith, two.3, two.4, one.3, one.4)) in
      (still, ground (arith, three.1, two.2, one.2))
