-- ===== src/Transport.antt =====
-- src/transport.c: packets with a header and a checksum, heartbeats and reconnection.
-- `tx_buf` and `rx_buf` are byte lists; a header field is stored little endian, as the target does.
-- The network is a parameter: `plat_net_send` takes a packet and says if it failed,
-- `plat_net_recv` gives the bytes that arrived, if any.
pub mod Packet
pub mod Failover
mod Tests
use asm_os.Prelude.{
  ℕ, zero, suc, ◌+◌, ◌-◌, ◌*◌, ◌/◌, ◌%◌, bit_and, bit_xor, Bool, true, false, not, ◌&&◌, ◌||◌,
  Option, none, some, List, [], ◌∷◌, ◌++◌, ltb, leb, ◌==◌, if◌then◌else◌, length, get_or, take,
  drop,
}
use asm_os.Prelude.Words.{u8, u16, u32, sub32}

abbrev pub header_size : ℕ
header_size = 12

abbrev pub max_payload : ℕ
max_payload = 1400

abbrev pub packet_max : ℕ
packet_max = 1412

abbrev pub heartbeat_ticks : ℕ
heartbeat_ticks = 2000 / 10

abbrev pub reconnect_ticks : ℕ
reconnect_ticks = 5000 / 10

abbrev pub max_missed_heartbeat : ℕ
max_missed_heartbeat = 3

abbrev pub max_reconnect_attempts : ℕ
max_reconnect_attempts = 10

abbrev pub type_data : ℕ
type_data = 1

abbrev pub type_ack : ℕ
type_ack = 2

abbrev pub type_heartbeat : ℕ
type_heartbeat = 3

-- `transport_session_t`.
pub record Session : Type 0 where
  pub local_seq : ℕ
  pub remote_seq : ℕ
  pub connected : Bool
  pub heartbeat_missed : ℕ
  pub last_heartbeat_ticks : ℕ

-- The static variables of the file, those of `transport_tick` too.
pub record Transport : Type 0 where
  pub session : Session
  pub tx_buf : List ℕ
  pub rx_buf : List ℕ
  pub initialized : Bool
  pub transport_ticks : ℕ
  pub next_reconnect_tick : ℕ
  pub reconnect_attempts : ℕ
  -- The packets handed to `plat_net_send`, the latest first.
  pub sent : List (List ℕ)

abbrev pub no_session : Session
no_session = record {
  local_seq = 0;
  remote_seq = 0;
  connected = false;
  heartbeat_missed = 0;
  last_heartbeat_ticks = 0;
}

-- One bit of `crc16_simple`.
pub crc_bit : ℕ → ℕ
crc_bit crc = if bit_and crc 1 == 0 then crc / 2 else u16 (bit_xor (crc / 2) 0xA001)

pub crc_bits : ℕ → ℕ → ℕ
crc_bits zero crc = crc
crc_bits (suc n) crc = crc_bits n (crc_bit crc)

pub crc_from : ℕ → List ℕ → ℕ
crc_from crc [] = crc
crc_from crc (x ∷ xs) = crc_from (crc_bits 8 (u16 (bit_xor crc x))) xs

pub crc16_simple : List ℕ → ℕ
crc16_simple data' = crc_from 0xFFFF data'

pub transport_init : Transport → Transport
transport_init t = if t.initialized then t else record t {
  session = record no_session { connected = true };
  transport_ticks = 0;
  initialized = true;
}

pub transport_shutdown : Transport → Transport
transport_shutdown t = record t {
  initialized = false;
  session = record (t.session) { connected = false };
}

abbrev pub low : ℕ → ℕ
low n = n % 256

abbrev pub high : ℕ → ℕ
high n = n / 256 % 256

-- The twelve bytes of `transport_header_t`: type, flags, seq, len, crc, reserved.
pub header : ℕ → ℕ → ℕ → ℕ → List ℕ
header type seq len crc =
    u8 type
    ∷ 0
    ∷ low seq
    ∷ high seq
    ∷ low len
    ∷ high len
    ∷ high (len / 256)
    ∷ high (len / 65536)
    ∷ low crc
    ∷ high crc
    ∷ 0
    ∷ 0
    ∷ []

-- `memcpy` of `bs` to the start of `buf`.
pub overwrite : List ℕ → List ℕ → List ℕ
overwrite bs buf = bs ++ drop (length bs) buf

-- What stands behind the header in `tx_buf`: the payload, or what was there for a null pointer.
pub body_of : Option (List ℕ) → ℕ → List ℕ → List ℕ
body_of none len tx_buf = take len (drop header_size tx_buf)
body_of (some bytes) len tx_buf = take len bytes

-- The loop that adds up the lengths of a batch in a `uint16_t`.
pub batch_total : ℕ → List (List ℕ) → ℕ
batch_total total [] = total
batch_total total (p ∷ ps) = batch_total (u16 (total + (2 + length p))) ps

-- What the second loop writes.
pub batch_bytes : List (List ℕ) → List ℕ
batch_bytes [] = []
batch_bytes (p ∷ ps) = low (length p) ∷ high (length p) ∷ p ++ batch_bytes ps

-- A little-endian field of `rx_buf`.
pub field16 : List ℕ → ℕ → ℕ
field16 buf i = get_or buf i 0 + 256 * get_or buf (i + 1) 0

pub field32 : List ℕ → ℕ → ℕ
unfolding field16
field32 buf i = field16 buf i + 65536 * field16 buf (i + 2)

-- What `transport_receive` accepts.
pub record Received : Type 0 where
  pub type : ℕ
  pub seq : ℕ
  pub payload : List ℕ

-- The checks of `transport_receive` on what stands in `rx_buf`, of which `n` bytes are new.
pub accept : ℕ → ℕ → List ℕ → Option Received
unfolding field16 field32 crc16_simple
accept n max_len rx =
    let len = u16 (field32 rx 4) in
    let payload = take len (drop header_size rx) in
    if ltb n header_size
      || ltb max_payload len
      || ltb max_len len
      || not (crc16_simple payload == field16 rx 8)
    then none
    else some (record { type = get_or rx 0 0; seq = field16 rx 2; payload = payload })

-- `net_send before packet`: `plat_net_send` takes the packet, after the packets `before`.
module _ (net_send : List (List ℕ) → List ℕ → Bool) where
  -- `do_network_send` of the first `total` bytes of `tx_buf`.
  pub network_send : ℕ → Transport → Bool × Transport
  network_send total t =
      let packet = take total t.tx_buf in
      (net_send t.sent packet, record t { sent = packet ∷ t.sent })

  -- The payload is `none` for a null pointer; `len` is a `uint16_t`. The result is `none` for -1.
  pub transport_send : ℕ → Option (List ℕ) → ℕ → Transport → Option ℕ × Transport
  unfolding network_send
  transport_send type payload len t =
      if not t.initialized || ltb max_payload len
      then (none, t)
      else (let body = body_of payload len t.tx_buf in
          let packet = header type t.session.local_seq len (crc16_simple body) ++ body in
          let t' : Transport = record t {
            session = record (t.session) { local_seq = u16 (t.session.local_seq + 1) };
            tx_buf = overwrite packet t.tx_buf;
          } in
          let (sent, t'') = network_send (header_size + len) t' in
          ((if sent then some len else none), t''))

  -- The payloads are not null, and `lens` holds their lengths. The outer `none` is a write behind
  -- the end of `batch_buf`.
  pub transport_send_batch : List (List ℕ) → Transport → Option (Option ℕ × Transport)
  unfolding batch_total batch_bytes transport_send
  transport_send_batch payloads t =
      if not t.initialized || length payloads == 0 || ltb 4 (length payloads)
      then some (none, t)
      else if ltb (max_payload - 2) (batch_total 0 payloads)
      then some (none, t)
      else (let batch = u8 (length payloads) ∷ 0 ∷ batch_bytes payloads in
          if ltb max_payload (length batch)
          then none
          else some (transport_send type_data (some batch) (u16 (length batch)) t))

  -- The acknowledgement of a packet, whose failure is ignored.
  pub send_ack : ℕ → Transport → Transport
  unfolding header overwrite network_send
  send_ack seq t =
      (network_send header_size
        (record t { tx_buf = overwrite (header type_ack seq 0 0) t.tx_buf })).1

  -- `arrived` is what `plat_net_recv` has to give; no byte stands for its failure. `with_out` tells
  -- if `buffer` and `out_type` are not null.
  pub transport_receive : List ℕ → Bool → ℕ → Transport → Option Received × Transport
  unfolding accept send_ack overwrite
  transport_receive arrived with_out max_len t =
      if not t.initialized || not with_out
      then (none, t)
      else (let new = take packet_max arrived in
          let rx = overwrite new t.rx_buf in
          let t' : Transport = record t { rx_buf = rx } in
          elim (accept (length new) max_len rx) [
            | none ↦ (none, t')
            | some r ↦
                let t'' : Transport = record t' {
                  session = record (t.session) {
                    remote_seq = r.seq;
                    last_heartbeat_ticks = t.transport_ticks;
                    heartbeat_missed = 0;
                  };
                } in
                (some r, (if r.type == type_data then send_ack r.seq t'' else t''))
          ])

  -- `session.heartbeat_missed++`.
  pub miss : Transport → Transport
  miss t = record t {
    session = record (t.session) { heartbeat_missed = u8 (t.session.heartbeat_missed + 1) };
  }

  -- The first half of `transport_tick`, in a connected session.
  pub tick_connected : Transport → Transport
  unfolding miss
  tick_connected t =
      if leb heartbeat_ticks (sub32 t.transport_ticks t.session.last_heartbeat_ticks)
      then (if leb max_missed_heartbeat (miss t).session.heartbeat_missed
          then record (miss t) { session = record ((miss t).session) { connected = false } }
          else (transport_send type_heartbeat none 0 (miss t)).1)
      else t

  -- The second half, which tries to reconnect.
  pub tick_disconnected : Transport → Transport
  tick_disconnected t =
      let next =
        if t.reconnect_attempts == 0
        then u32 (t.transport_ticks + reconnect_ticks)
        else t.next_reconnect_tick in
      if leb next t.transport_ticks && ltb t.reconnect_attempts max_reconnect_attempts
      then (let attempts = t.reconnect_attempts + 1 in
          record t {
            reconnect_attempts = attempts;
            session = record (t.session) {
              connected = true;
              heartbeat_missed = 0;
              last_heartbeat_ticks = t.transport_ticks;
            };
            next_reconnect_tick =
                u32 (t.transport_ticks + reconnect_ticks * (if ltb 4 attempts then 2 else 1));
          })
      else record t { next_reconnect_tick = next }

  -- `transport_ticks++`.
  pub advance : Transport → Transport
  advance t = record t { transport_ticks = u32 (t.transport_ticks + 1) }

  pub transport_tick : Transport → Transport
  unfolding advance tick_connected tick_disconnected
  transport_tick t =
      if t.initialized
      then (let t' = advance t in
          if t.session.connected then tick_connected t' else tick_disconnected t')
      else t

pub transport_request_reconnect : Transport → Transport
transport_request_reconnect t = record t {
  session = record (t.session) { connected = false; heartbeat_missed = max_missed_heartbeat };
}
