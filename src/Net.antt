-- ===== src/Net.antt =====
-- net/udp.c: datagrams over the raw network, the ring of those received, and the ping. What arrives
-- is a parameter. The payload of a call is the list of its bytes.
pub mod Queue
pub mod Delivery
pub mod Address
pub mod Icmp
mod Tests
use asm_os.Prelude.{
  ℕ, ◌+◌, ◌*◌, ◌/◌, ◌%◌, ◌^◌, min, Bool, true, false, ◌&&◌, ◌||◌, Option, none, some, List, [], ◌∷◌,
  ◌++◌, ltb, leb, ◌==◌, if◌then◌else◌, length, get_or, set, take, drop,
}
use asm_os.Prelude.CString.{codes}

abbrev pub rx_slots : ℕ
rx_slots = 8

abbrev pub net_max_payload : ℕ
net_max_payload = 1400

abbrev pub raw_size : ℕ
raw_size = 1536

-- `rx_slot_t`. `bytes` is the array `data`, and `len` may be larger than it.
pub record Slot : Type 0 where
  pub src_ip : ℕ
  pub src_port : ℕ
  pub len : ℕ
  pub bytes : List ℕ

abbrev pub no_slot : Slot
no_slot = record { src_ip = 0; src_port = 0; len = 0; bytes = [] }

pub record Ring : Type 0 where
  pub rx_ring : List Slot
  pub rx_head : ℕ
  pub rx_tail : ℕ

-- What the copy of `src` leaves in an array of `net_max_payload` bytes.
pub copy_into : List ℕ → List ℕ → List ℕ
copy_into old src = let new = take net_max_payload src in new ++ drop (length new) old

-- `src` holds the `len` bytes of the payload.
pub ring_push : ℕ → ℕ → List ℕ → Ring → Ring
unfolding copy_into
ring_push sip sport src r =
    let next = (r.rx_tail + 1) % rx_slots in
    if next == r.rx_head then r else record r {
      rx_ring = set r.rx_ring r.rx_tail (record {
        src_ip = sip;
        src_port = sport;
        len = length src;
        bytes = copy_into (get_or r.rx_ring r.rx_tail no_slot).bytes src;
      });
      rx_tail = next;
    }

-- The end of `net_udp_recv`, which takes the first slot; `none` where the ring is empty.
pub ring_pop : Ring → Option Slot × Ring
ring_pop r = if r.rx_head == r.rx_tail then (none, r) else (
  some (get_or r.rx_ring r.rx_head no_slot),
  record r { rx_head = (r.rx_head + 1) % rx_slots },
)

-- `sent` lists what `plat_net_send` got, the last packet first; its result is ignored.
pub record Net : Type 0 where
  pub ring : Ring
  pub net_up : Bool
  pub sent : List (List ℕ)

pub net_init : Net → Net
net_init s = record s { ring = record (s.ring) { rx_head = 0; rx_tail = 0 }; net_up = true }

pub net_shutdown : Net → Net
net_shutdown s = record s { net_up = false }

-- The eleven bytes in front of the payload.
pub udp_header : ℕ → ℕ → ℕ → List ℕ
udp_header ip port len =
    b'A'
    ∷ b'S'
    ∷ b'M'
    ∷ (ip / 2 ^ 24 % 256)
    ∷ (ip / 2 ^ 16 % 256)
    ∷ (ip / 2 ^ 8 % 256)
    ∷ (ip % 256)
    ∷ (port % 256)
    ∷ (port / 256 % 256)
    ∷ (len % 256)
    ∷ (len / 256 % 256)
    ∷ []

-- A packet as the receiver reads it.
pub record Datagram : Type 0 where
  pub sip : ℕ
  pub sport : ℕ
  pub payload : List ℕ

-- The test of a packet in `net_udp_recv`. The bytes are joined by `|` at places that do not meet.
pub parse_datagram : List ℕ → Option Datagram
parse_datagram raw =
    let at = λ (i : ℕ). get_or raw i 0 in
    let plen = at 9 + 2 ^ 8 * at 10 in
    if leb 11 (length raw)
      && at 0 == b'A'
      && at 1 == b'S'
      && at 2 == b'M'
      && leb (11 + plen) (length raw)
    then some (record {
      sip = 2 ^ 24 * at 3 + 2 ^ 16 * at 4 + 2 ^ 8 * at 5 + at 6;
      sport = at 7 + 2 ^ 8 * at 8;
      payload = take plen (drop 11 raw);
    })
    else none

pub push_datagram : Option Datagram → Ring → Ring
unfolding ring_push
push_datagram none r = r
push_datagram (some d) r = ring_push d.sip d.sport d.payload r

-- What `net_udp_recv` returns: -1, 0, or the bytes with their source. `overrun` stands for reading
-- behind the array of a slot.
pub data Received : Type 0 where
  down : Received
  nothing : Received
  packet : ℕ → ℕ → List ℕ → Received
  overrun : Received

-- The copy out of a slot.
pub read_slot : ℕ → Slot → Received
read_slot max_len s =
    let cpy = min s.len max_len in
    if ltb (length s.bytes) cpy then overrun else packet s.src_ip s.src_port (take cpy s.bytes)

pub read_first : ℕ → Option Slot → Received
unfolding read_slot
read_first max_len none = nothing
read_first max_len (some s) = read_slot max_len s

-- `arrived` is what `plat_net_recv` has to give; no byte stands for its failure.
pub net_udp_recv : List ℕ → ℕ → Net → Received × Net
unfolding parse_datagram push_datagram ring_pop read_first
net_udp_recv arrived max_len s =
    let ring = push_datagram (parse_datagram (take raw_size arrived)) s.ring in
    let (first, rest) = ring_pop ring in
    if s.net_up then (read_first max_len first, record s { ring = rest }) else (down, s)

-- `n >= 4 && buf[0] == 'P'`.
pub is_ping : Received → Bool
is_ping down = false
is_ping nothing = false
is_ping (packet ip port bytes) = leb 4 (length bytes) && get_or bytes 0 0 == b'P'
is_ping overrun = false

-- `own_ip` is what `plat_net_get_info` gives.
module _ (own_ip : ℕ) where
  -- A packet to the own address is put into the own ring too.
  pub net_udp_send : ℕ → ℕ → List ℕ → Net → Option ℕ × Net
  unfolding udp_header ring_push
  net_udp_send dst_ip dst_port payload s =
      let pkt = udp_header dst_ip dst_port (length payload) ++ take 1421 payload in
      let ring = ring_push own_ip dst_port payload s.ring in
      if s.net_up
      then (
        some (length payload),
        record s {
          sent = pkt ∷ s.sent;
          ring = if dst_ip == own_ip || dst_ip == 0x7F000001 then ring else s.ring;
        },
      )
      else (none, s)

  -- The loop of `net_ping` over what arrives at each try.
  pub await_ping : List (List ℕ) → Net → Bool × Net
  unfolding net_udp_recv is_ping
  await_ping [] s = (false, s)
  await_ping (arrived ∷ later) s =
      let (received, s') = net_udp_recv arrived 16 s in
      let rest = await_ping later s' in if is_ping received then (true, s') else rest

  -- `ip` is the parsed host; the loop makes at most 1000 tries.
  pub net_ping : Option ℕ → List (List ℕ) → Net → Bool × Net
  unfolding net_udp_send await_ping
  net_ping none arrivals s = (false, s)
  net_ping (some ip) arrivals s =
      await_ping (take 1000 arrivals) (net_udp_send ip 0 (codes "PING") s).1
