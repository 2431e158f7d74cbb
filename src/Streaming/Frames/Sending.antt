-- ===== src/Streaming/Frames/Sending.antt =====
-- The chunks of a frame on the network.
use asm_os.Prelude.{
  ℕ, zero, suc, ◌+◌, ◌-◌, ◌*◌, ◌≤◌, ◌<◌, ◌≡◌, refl, sym, ap, ◌∙◌, Bool, true, false, Option, some,
  List, [], ◌∷◌, ◌++◌, arith, length, get_or, take, drop,
}
use asm_os.Prelude.Words.{u16, u32}
use asm_os.Transport.{Transport, max_payload, type_data, transport_send}
use asm_os.Transport.Packet.{
  packet, transport_send_lem, transport_send_taken, transport_send_initialized,
}
use asm_os.Video.{video_width}
use asm_os.Streaming.{
  chunk_header, chunk_payload, Quality, quality_low, quality_med, quality_high, Streaming,
  effective_width, effective_height, phys, copy_bytes, chunk_head, total_bytes, chunks_of, to_copy,
  send_chunks, streaming_capture_and_send,
}
use asm_os.Streaming.Frames.{
  scale, sends, bodies, Numbered, length-copy_bytes, copy_bytes_add, get_or-copy_bytes, phys-pixel,
}

-- What the loop over the last `n` chunks does with the network, from the chunk `idx` on.
pub record Sent (q : Quality) (fb : ℕ → ℕ) (frame_id n idx offset : ℕ) (t : Transport)
    (r : Bool × Transport) : Type 0 where
  pub payloads : List (List ℕ)
  pub ended : r.0 ≡ true
  pub packets : r.1.sent ≡ sends t.session.local_seq payloads t.sent
  pub heads : Numbered frame_id (chunks_of q) idx payloads
  pub number : length payloads ≡ n
  pub pixels : bodies payloads ≡ copy_bytes q fb (total_bytes q - offset) offset

module _ (net_send : List (List ℕ) → List ℕ → Bool)
    (takes : (before : List (List ℕ)) (p : List ℕ) → net_send before p ≡ true) (q : Quality)
    (fb : ℕ → ℕ) (frame_id : ℕ) where
  chunk : ℕ → ℕ → List ℕ
  chunk idx offset =
      chunk_head frame_id idx (chunks_of q) ++ copy_bytes q fb (to_copy q offset) offset

  Sent-none :
      (idx offset : ℕ) (t : Transport)
      → total_bytes q - offset ≡ 0
      → Sent q fb frame_id 0 idx offset t (send_chunks net_send fb q frame_id 0 idx offset t)
  unfolding send_chunks sends Numbered bodies copy_bytes
  Sent-none idx offset t h = record {
    payloads = [];
    ended = refl;
    packets = refl;
    heads = tt;
    number = refl;
    pixels = rw h refl;
  }

  to_copy_small : (offset : ℕ) → to_copy q offset ≤ chunk_payload
  unfolding to_copy
  to_copy_small offset = ground arith

  to_copy_fits : (offset : ℕ) → offset ≤ total_bytes q → offset + to_copy q offset ≤ total_bytes q
  unfolding to_copy
  to_copy_fits offset h = ground arith

  to_copy_goes_on :
      (n offset : ℕ)
      → total_bytes q ≤ offset + suc n * chunk_payload
      → total_bytes q ≤ offset + to_copy q offset + n * chunk_payload
  unfolding to_copy
  to_copy_goes_on n offset h = ground arith

  length-chunk : (idx offset : ℕ) → length (chunk idx offset) ≡ chunk_header + to_copy q offset
  unfolding chunk chunk_head
  length-chunk idx offset = let n = length-copy_bytes q fb (to_copy q offset) offset in omega arith

  take-chunk :
      (idx offset : ℕ)
      → take chunk_header (chunk idx offset) ≡ chunk_head frame_id idx (chunks_of q)
  unfolding chunk chunk_head
  take-chunk idx offset = refl

  drop-chunk :
      (idx offset : ℕ)
      → drop chunk_header (chunk idx offset) ≡ copy_bytes q fb (to_copy q offset) offset
  unfolding chunk chunk_head
  drop-chunk idx offset = refl

  module _ (idx offset : ℕ) (t : Transport) where
    send_chunk : Option ℕ × Transport
    send_chunk =
        transport_send net_send type_data (some (chunk idx offset))
          (chunk_header + to_copy q offset) t

    send_chunk_lem :
        t.initialized ≡ true
        → (send_chunk.0 ≡ some (chunk_header + to_copy q offset))
          × (send_chunk.1.initialized ≡ true)
          × (send_chunk.1.sent ≡ packet type_data t.session.local_seq (chunk idx offset) ∷ t.sent)
          × (send_chunk.1.session.local_seq ≡ u16 (t.session.local_seq + 1))
    unfolding send_chunk
    send_chunk_lem i =
        let len = length-chunk idx offset in
        let n = to_copy_small offset in
        let small : length (chunk idx offset) ≤ max_payload = omega (arith, len, n) in
        let one = transport_send_lem net_send type_data (chunk idx offset) t i small in
        rw (sym len) (
          transport_send_taken net_send takes type_data (chunk idx offset) t i small,
          transport_send_initialized net_send type_data (chunk idx offset) t i,
          one.0,
          one.1,
        )

    chunk_step :
        (n : ℕ)
        → t.initialized ≡ true
        → send_chunks net_send fb q frame_id (suc n) idx offset t
          ≡ send_chunks net_send fb q frame_id n (idx + 1) (offset + to_copy q offset) send_chunk.1
    unfolding send_chunks chunk send_chunk
    chunk_step n i = let sent = (send_chunk_lem i).0 in rw (send_chunks, sent) refl

  sent_pixels :
      (idx offset : ℕ) (ps : List (List ℕ))
      → offset ≤ total_bytes q
      → bodies ps
        ≡ copy_bytes q fb (total_bytes q - (offset + to_copy q offset)) (offset + to_copy q offset)
      → bodies (chunk idx offset ∷ ps) ≡ copy_bytes q fb (total_bytes q - offset) offset
  unfolding bodies
  sent_pixels idx offset ps h e =
      let len = to_copy q offset in
      let fits = to_copy_fits offset h in
      let rest = total_bytes q - (offset + len) in
      let all : total_bytes q - offset ≡ len + rest = omega (arith, fits) in
      rw (drop-chunk idx offset, e, all) (sym (copy_bytes_add q fb len rest offset))

  send_chunks-Sent :
      (n idx offset : ℕ) (t : Transport)
      → t.initialized ≡ true
      → offset ≤ total_bytes q
      → total_bytes q ≤ offset + n * chunk_payload
      → Sent q fb frame_id n idx offset t (send_chunks net_send fb q frame_id n idx offset t)
  unfolding sends Numbered
  send_chunks-Sent zero idx offset t i low high = Sent-none idx offset t (omega arith)
  send_chunks-Sent (suc n) idx offset t i low high =
      let one = send_chunk_lem idx offset t i in
      let len = to_copy q offset in
      let rest =
        send_chunks-Sent n (idx + 1) (offset + len) (send_chunk idx offset t).1 one.1
          (to_copy_fits offset low) (to_copy_goes_on n offset high) in
      rw (chunk_step idx offset t n i) (record {
        payloads = chunk idx offset ∷ rest.payloads;
        ended = rest.ended;
        packets = rest.packets ∙ rw (one.2, one.3) refl;
        heads = (take-chunk idx offset, rest.heads);
        number = ap suc rest.number;
        pixels = sent_pixels idx offset rest.payloads low rest.pixels;
      })

-- What a call puts on the network: the frame, in chunks that are numbered from 0.
pub record Streamed (fb : ℕ → ℕ) (s : Streaming) (r : Bool × Streaming) : Type 0 where
  pub payloads : List (List ℕ)
  pub ended : r.0 ≡ true
  pub packets : r.1.transport.sent ≡ sends s.transport.session.local_seq payloads s.transport.sent
  pub number : length payloads ≡ chunks_of s.quality
  pub heads : Numbered s.frame_id (chunks_of s.quality) 0 payloads
  pub size : length (bodies payloads) ≡ effective_width s.quality * effective_height s.quality
  pub pixels :
      (x y : ℕ)
      → x < effective_width s.quality
      → y < effective_height s.quality
      → get_or (bodies payloads) (y * effective_width s.quality + x) 0
        ≡ fb (scale s.quality * y * video_width + scale s.quality * x)
  pub next : r.1.frame_id ≡ u32 (s.frame_id + 1)

enough_chunks : (q : Quality) → total_bytes q ≤ 0 + chunks_of q * chunk_payload
enough_chunks quality_low = omega arith
enough_chunks quality_med = omega arith
enough_chunks quality_high = omega arith

pixel_in_frame :
    (q : Quality) (x y : ℕ)
    → x < effective_width q
    → y < effective_height q
    → y * effective_width q + x < total_bytes q
pixel_in_frame quality_low x y h k = omega arith
pixel_in_frame quality_med x y h k = omega arith
pixel_in_frame quality_high x y h k = omega arith

frame_size : (q : Quality) → total_bytes q - 0 ≡ effective_width q * effective_height q
frame_size quality_low = refl
frame_size quality_med = refl
frame_size quality_high = refl

frame_pixel :
    (q : Quality) (fb : ℕ → ℕ) (x y : ℕ)
    → x < effective_width q
    → y < effective_height q
    → get_or (copy_bytes q fb (total_bytes q - 0) 0) (y * effective_width q + x) 0
      ≡ fb (scale q * y * video_width + scale q * x)
frame_pixel q fb x y h k =
    get_or-copy_bytes q fb (total_bytes q - 0) 0 (y * effective_width q + x)
      (omega (arith, pixel_in_frame q x y h k))
    ∙ ap (λ o. fb (phys q o)) (omega arith)
    ∙ ap fb (phys-pixel q x y h)

module _ (net_send : List (List ℕ) → List ℕ → Bool)
    (takes : (before : List (List ℕ)) (p : List ℕ) → net_send before p ≡ true) (fb : ℕ → ℕ) where
  capture_lem :
      (arrived : List ℕ) (s : Streaming)
      → s.initialized ≡ true
      → s.running ≡ true
      → s.passthrough ≡ false
      → let r =
          send_chunks net_send fb s.quality s.frame_id (chunks_of s.quality) 0 0 s.transport in
        r.0 ≡ true
        → (streaming_capture_and_send net_send fb arrived s).0 ≡ true
          × ((streaming_capture_and_send net_send fb arrived s).1.transport.sent ≡ r.1.sent)
          × ((streaming_capture_and_send net_send fb arrived s).1.frame_id ≡ u32 (s.frame_id + 1))
  unfolding streaming_capture_and_send
  capture_lem arrived s i on off e =
      (ground (arith, i, on, e), ground (arith, i, on, e, off), ground (arith, i, on, e))

  -- A frame of the screen reaches the network whole: where the network takes each packet, the stream
  -- runs and the passthrough is off, `streaming_capture_and_send` succeeds and sends data packets
  -- with consecutive sequence numbers. Their payloads carry the frame number, the chunk number and
  -- the number of chunks, and put together they are the pixels of the frame, row by row, at the low
  -- quality every second one of every second row.
  pub streaming_capture_and_send-Streamed :
      (arrived : List ℕ) (s : Streaming)
      → s.initialized ≡ true
      → s.running ≡ true
      → s.passthrough ≡ false
      → s.transport.initialized ≡ true
      → Streamed fb s (streaming_capture_and_send net_send fb arrived s)
  streaming_capture_and_send-Streamed arrived s i on off up =
      let q = s.quality in
      let sent =
        send_chunks-Sent net_send takes q fb s.frame_id (chunks_of q) 0 0 s.transport up
          (omega arith) (enough_chunks q) in
      let c = capture_lem arrived s i on off sent.ended in
      record {
        payloads = sent.payloads;
        ended = c.0;
        packets = c.1 ∙ sent.packets;
        number = sent.number;
        heads = sent.heads;
        size = ap length sent.pixels ∙ length-copy_bytes q fb (total_bytes q - 0) 0 ∙ frame_size q;
        pixels = λ x y h k.
            ap (λ l. get_or l (y * effective_width q + x) 0) sent.pixels ∙ frame_pixel q fb x y h k;
        next = c.2;
      }
