-- ===== src/Streaming.antt =====
-- streaming.c: the stream of the screen, over the packets of transport.c.
--
-- The screen is the one of the x86 build. `fb` is the framebuffer, by the address of a byte in it.
-- The buffer of a chunk is written before it is sent, so only what is sent is kept.
mod Frames
mod Tests
use asm_os.Prelude.{
  ℕ, zero, suc, ◌+◌, ◌-◌, ◌*◌, ◌/◌, ◌%◌, Bool, true, false, not, ◌||◌, none, some, List, [], ◌∷◌,
  ◌++◌, ltb, if◌then◌else◌,
}
use asm_os.Video.{video_width, video_height, video_bpp}
use asm_os.Prelude.Words.{u32}
use asm_os.Transport.{
  Transport, max_payload, type_data, transport_init, transport_send, transport_receive,
}

abbrev pub chunk_header : ℕ
chunk_header = 8

abbrev pub chunk_payload : ℕ
chunk_payload = max_payload - chunk_header

pub data Quality : Type 0 where
  quality_low : Quality
  quality_med : Quality
  quality_high : Quality

pub record Streaming : Type 0 where
  pub initialized : Bool
  pub running : Bool
  pub quality : Quality
  pub passthrough : Bool
  pub frame_id : ℕ
  pub transport : Transport

pub streaming_init : Streaming → Streaming
streaming_init s = if s.initialized then s else record s {
  transport = transport_init s.transport;
  running = false;
  quality = quality_med;
  passthrough = false;
  frame_id = 0;
  initialized = true;
}

-- The result says if it is 0.
pub streaming_start : Streaming → Bool × Streaming
streaming_start s =
    if not s.initialized then (false, s) else (true, record s { running = true; frame_id = 0 })

pub streaming_stop : Streaming → Streaming
streaming_stop s = record s { running = false }

abbrev pub effective_width : Quality → ℕ
effective_width quality_low = video_width / 2
effective_width quality_med = video_width
effective_width quality_high = video_width

abbrev pub effective_height : Quality → ℕ
effective_height quality_low = video_height / 2
effective_height quality_med = video_height
effective_height quality_high = video_height

-- The address of a byte of the frame on the screen: at the low quality every second pixel of every
-- second row is taken.
pub phys : Quality → ℕ → ℕ
phys quality_low pix =
    let row = pix / video_bpp / effective_width quality_low in
    let col = pix / video_bpp % effective_width quality_low in
    (row * 2 * video_width + col * 2) * video_bpp + pix % video_bpp
phys quality_med pix = pix
phys quality_high pix = pix

-- The loop that copies `n` bytes of the frame from the byte `offset` on.
pub copy_bytes : Quality → (ℕ → ℕ) → ℕ → ℕ → List ℕ
copy_bytes q fb zero offset = []
copy_bytes q fb (suc n) offset = fb (phys q offset) ∷ copy_bytes q fb n (offset + 1)

-- The eight bytes before a chunk.
pub chunk_head : ℕ → ℕ → ℕ → List ℕ
chunk_head frame_id idx n_chunks =
    frame_id % 256
    ∷ frame_id / 256 % 256
    ∷ frame_id / 65536 % 256
    ∷ frame_id / 16777216 % 256
    ∷ idx % 256
    ∷ idx / 256 % 256
    ∷ n_chunks % 256
    ∷ n_chunks / 256 % 256
    ∷ []

abbrev pub total_bytes : Quality → ℕ
total_bytes q = effective_width q * video_bpp * effective_height q

abbrev pub chunks_of : Quality → ℕ
chunks_of q = (total_bytes q + chunk_payload - 1) / chunk_payload

-- The length of the chunk at `offset`.
pub to_copy : Quality → ℕ → ℕ
to_copy q offset =
    if ltb (total_bytes q) (offset + chunk_payload) then total_bytes q - offset else chunk_payload

pub streaming_set_quality : ℕ → Streaming → Streaming
streaming_set_quality zero s = record s { quality = quality_low }
streaming_set_quality (suc zero) s = record s { quality = quality_med }
streaming_set_quality (suc (suc zero)) s = record s { quality = quality_high }
streaming_set_quality (suc (suc (suc n))) s = s

pub streaming_set_passthrough : Bool → Streaming → Streaming
streaming_set_passthrough on s = record s { passthrough = on }

pub streaming_active : Streaming → Bool
streaming_active s = s.running

module _ (net_send : List (List ℕ) → List ℕ → Bool) (fb : ℕ → ℕ) where
  -- The loop over the last `n` chunks. The result says if each was sent.
  pub send_chunks : Quality → ℕ → ℕ → ℕ → ℕ → Transport → Bool × Transport
  send_chunks q frame_id zero idx offset t = (true, t)
  send_chunks q frame_id (suc n) idx offset t =
      let len = to_copy q offset in
      let chunk = chunk_head frame_id idx (chunks_of q) ++ copy_bytes q fb len offset in
      let r = transport_send net_send type_data (some chunk) (chunk_header + len) t in
      elim r.0 [
        | none ↦ (false, r.1)
        | some sent ↦ send_chunks q frame_id n (idx + 1) (offset + len) r.1
      ]

  -- `arrived` is what the network has to give to the receive of the passthrough.
  pub streaming_capture_and_send : List ℕ → Streaming → Bool × Streaming
  streaming_capture_and_send arrived s =
      if not s.initialized || not s.running
      then (false, s)
      else (let r = send_chunks s.quality s.frame_id (chunks_of s.quality) 0 0 s.transport in
          if not r.0 then (false, record s { transport = r.1 }) else (
            true,
            record s {
              frame_id = u32 (s.frame_id + 1);
              transport =
                  if s.passthrough then (transport_receive net_send arrived true 64 r.1).1 else r.1;
            },
          ))
