-- ===== src/Transport/Packet.antt =====
-- The packets of src/transport.c: what is sent is what the other side receives.
use asm_os.Prelude.{
  ltb, false, ℕ, zero, suc, ◌+◌, ◌-◌, ◌*◌, ◌/◌, ◌%◌, ◌^◌, ◌≤◌, ◌<◌, bit_xor, ◌≡◌, refl, sym, ap,
  ◌∙◌, ◌↔◌, Bool, true, none, some, List, [], ◌∷◌, ◌++◌, arith, length, take, drop, length-append,
  take-append, take_all,
}
use asm_os.Prelude.Words.{u8, u16}
use mathlib.Core.Path.{subst}
use asm_os.Transport.{
  header_size, max_payload, packet_max, Transport, crc_bit, crc_bits, crc_from, crc16_simple, low,
  high, header, overwrite, body_of, batch_total, batch_bytes, field16, field32, Received, accept,
  transport_send, transport_send_batch, transport_receive,
}

crc_bit-lt : (crc : ℕ) → crc < 2 ^ 16 → crc_bit crc < 2 ^ 16
unfolding crc_bit
crc_bit-lt crc h = ground arith

crc_bits-lt : (n crc : ℕ) → crc < 2 ^ 16 → crc_bits n crc < 2 ^ 16
unfolding crc_bits
crc_bits-lt zero crc h = h
crc_bits-lt (suc n) crc h = crc_bits-lt n (crc_bit crc) (crc_bit-lt crc h)

crc_from-lt : (crc : ℕ) (xs : List ℕ) → crc < 2 ^ 16 → crc_from crc xs < 2 ^ 16
unfolding crc_from
crc_from-lt crc [] h = h
crc_from-lt crc (x ∷ xs) h =
    crc_from-lt (crc_bits 8 (u16 (bit_xor crc x))) xs
      (crc_bits-lt 8 (u16 (bit_xor crc x)) (omega arith))

crc16_simple-lt : (xs : List ℕ) → crc16_simple xs < 2 ^ 16
unfolding crc16_simple
crc16_simple-lt xs = crc_from-lt 0xFFFF xs (omega arith)

-- The packet of a payload.
abbrev pub packet : ℕ → ℕ → List ℕ → List ℕ
packet type seq bytes = header type seq (length bytes) (crc16_simple bytes) ++ bytes

length-packet :
    (type seq : ℕ) (bytes : List ℕ) → length (packet type seq bytes) ≡ header_size + length bytes
unfolding header
length-packet type seq bytes = omega arith

-- What a packet looks like at the start of a longer buffer.
accept-packet :
    (type seq max_len : ℕ) (bytes rest : List ℕ)
    → type < 256
    → seq < 2 ^ 16
    → length bytes ≤ max_payload
    → length bytes ≤ max_len
    → accept (header_size + length bytes) max_len (packet type seq bytes ++ rest)
      ≡ some (record { type = type; seq = seq; payload = bytes })
unfolding accept field32 header field16
accept-packet type seq max_len bytes rest ht hs hp hm =
    let small = crc16_simple-lt bytes in
    let whole = take-append bytes rest (length bytes) refl in
    let n = length bytes in
    let crc = crc16_simple bytes in
    let len_back : u16 (low n + 256 * high n + 65536 * (high (n / 256) + 256 * high (n / 65536)))
        ≡ n =
      omega arith in
    let seq_back : low seq + 256 * high seq ≡ seq = omega arith in
    let crc_back : low crc + 256 * high crc ≡ crc = omega arith in
    let type_back : u8 type ≡ type = omega arith in
    rw (len_back, whole, crc_back, seq_back, type_back) (ground arith)

overwrite-take : (p buf : List ℕ) (n : ℕ) → n ≡ length p → take n (overwrite p buf) ≡ p
unfolding overwrite
overwrite-take p buf n e = take-append p (drop (length p) buf) n e

body_of_all : (bytes buf : List ℕ) → body_of (some bytes) (length bytes) buf ≡ bytes
unfolding body_of
body_of_all bytes buf = take_all (length bytes) bytes (omega arith)

module _ (net_send : List (List ℕ) → List ℕ → Bool) where
  send_raw :
      (type : ℕ) (bytes : List ℕ) (t : Transport)
      → t.initialized ≡ true
      → length bytes ≤ max_payload
      → let body = body_of (some bytes) (length bytes) t.tx_buf in
        let t' = (transport_send net_send type (some bytes) (length bytes) t).1 in
        (t'.sent
          ≡ take (header_size + length bytes) (
              overwrite
                (header type t.session.local_seq (length bytes) (crc16_simple body) ++ body)
                t.tx_buf)
            ∷ t.sent)
        × (t'.session.local_seq ≡ u16 (t.session.local_seq + 1))
  unfolding transport_send
  send_raw type bytes t i h = ground arith

  -- `transport_send` puts one packet on the network and moves to the next sequence number.
  pub transport_send_lem :
      (type : ℕ) (bytes : List ℕ) (t : Transport)
      → t.initialized ≡ true
      → length bytes ≤ max_payload
      → let t' = (transport_send net_send type (some bytes) (length bytes) t).1 in
        (t'.sent ≡ packet type t.session.local_seq bytes ∷ t.sent)
        × (t'.session.local_seq ≡ u16 (t.session.local_seq + 1))
  transport_send_lem type bytes t i h =
      let p = packet type t.session.local_seq bytes in
      let raw = send_raw type bytes t i h in
      let exact : take (header_size + length bytes) (overwrite p t.tx_buf) ≡ p =
        overwrite-take p t.tx_buf (header_size + length bytes)
          (sym (length-packet type t.session.local_seq bytes)) in
      (raw.0 ∙ ap (λ q. q ∷ t.sent) (rw (body_of_all bytes t.tx_buf) exact), raw.1)

  -- Where the network takes the packet, `transport_send` gives the length of the payload.
  pub transport_send_taken :
      ((before : List (List ℕ)) (p : List ℕ) → net_send before p ≡ true)
      → (type : ℕ) (bytes : List ℕ) (t : Transport) → t.initialized ≡ true
      → length bytes ≤ max_payload
      → (transport_send net_send type (some bytes) (length bytes) t).0 ≡ some (length bytes)
  unfolding transport_send
  transport_send_taken takes type bytes t i h =
      let small : ltb max_payload (length bytes) ≡ false = ground arith in
      let p =
        header type t.session.local_seq (length bytes)
          (crc16_simple (body_of (some bytes) (length bytes) t.tx_buf))
        ++ body_of (some bytes) (length bytes) t.tx_buf in
      let taken = takes t.sent (take (header_size + length bytes) (overwrite p t.tx_buf)) in
      rw (i, small) (rw taken refl)

  pub transport_send_initialized :
      (type : ℕ) (bytes : List ℕ) (t : Transport)
      → t.initialized ≡ true
      → (transport_send net_send type (some bytes) (length bytes) t).1.initialized ≡ true
  unfolding transport_send
  transport_send_initialized type bytes t i = ground arith

  receive_lem :
      (p : List ℕ) (max_len : ℕ) (r : Transport) (x : Received)
      → r.initialized ≡ true
      → length p ≤ packet_max
      → accept (length p) max_len (p ++ drop (length p) r.rx_buf) ≡ some x
      → (transport_receive net_send p true max_len r).0 ≡ some x
  unfolding transport_receive overwrite
  receive_lem p max_len r x j h e = let all = take_all packet_max p h in rw (j, all, e) refl

  -- What one side sends, the other receives: the packet that `transport_send` puts on the network is
  -- accepted by `transport_receive` with the same type, sequence number and payload, for a payload
  -- of at most 1400 bytes that fits the receiver's buffer, whatever was in its `rx_buf`.
  pub transport_receive-send :
      (type max_len : ℕ) (bytes : List ℕ) (t r : Transport)
      → t.initialized ≡ true
      → r.initialized ≡ true
      → type < 256
      → t.session.local_seq < 2 ^ 16
      → length bytes ≤ max_payload
      → length bytes ≤ max_len
      → (p : List ℕ) × ((transport_send net_send type (some bytes) (length bytes) t).1.sent
          ≡ p ∷ t.sent)
        × ((transport_receive net_send p true max_len r).0
            ≡ some (record { type = type; seq = t.session.local_seq; payload = bytes }))
  transport_receive-send type max_len bytes t r i j ht hs hp hm =
      let p = packet type t.session.local_seq bytes in
      let size = length-packet type t.session.local_seq bytes in
      let taken =
        accept-packet type t.session.local_seq max_len bytes (drop (length p) r.rx_buf) ht hs hp
          hm in
      (
        p,
        (transport_send_lem type bytes t i hp).0,
        receive_lem p max_len r _ j (omega arith) (
            subst
              (λ n.
                accept n max_len (p ++ drop (length p) r.rx_buf)
                ≡ some (record { type = type; seq = t.session.local_seq; payload = bytes }))
              (sym size) taken),
      )

pub length-batch_total :
    (total : ℕ) (ps : List (List ℕ))
    → total < 2 ^ 16
    → batch_total total ps ≡ u16 (total + length (batch_bytes ps))
unfolding batch_total batch_bytes
length-batch_total total [] h = omega arith
length-batch_total total (p ∷ ps) h = omega (
  arith,
  length-batch_total (u16 (total + (2 + length p))) ps (omega arith),
  length-append p (batch_bytes ps),
)

module _ (net_send : List (List ℕ) → List ℕ → Bool) where
  -- A batch of one to four payloads is written past the end of `batch_buf` exactly when its lengths
  -- with their prefixes add up to more than 1398, and their 16-bit sum has wrapped to 1398 or less.
  pub transport_send_batch_overflow :
      (payloads : List (List ℕ)) (t : Transport)
      → t.initialized ≡ true
      → 0 < length payloads
      → length payloads ≤ 4
      → (transport_send_batch net_send payloads t ≡ none) ↔ (
          (max_payload - 2 < length (batch_bytes payloads))
          × (length (batch_bytes payloads) % 2 ^ 16 ≤ max_payload - 2))
  unfolding transport_send_batch
  transport_send_batch_overflow payloads t i lo hi =
      let sum = length-batch_total 0 payloads (omega arith) in
      (λ h. ground (arith, sum), λ h. ground (arith, sum))
