-- ===== src/Streaming/Frames.antt =====
-- What the stream of the screen sends.
pub mod Sending
use asm_os.Prelude.{
  ℕ, zero, suc, ◌+◌, ◌-◌, ◌*◌, ◌<◌, ◌≡◌, refl, ap, ◌∙◌, List, [], ◌∷◌, ◌++◌, arith, length, get_or,
  take, drop,
}
use asm_os.Prelude.Words.{u16}
use asm_os.Transport.{type_data}
use asm_os.Transport.Packet.{packet}
use asm_os.Video.{video_width}
use asm_os.Streaming.{
  chunk_header, Quality, quality_low, quality_med, quality_high, effective_width, phys, copy_bytes,
  chunk_head,
}

-- The pixels of the screen from one pixel of the frame to the next.
abbrev pub scale : Quality → ℕ
scale quality_low = 2
scale quality_med = 1
scale quality_high = 1

-- The packets on the network, the latest first, after payloads with sequence numbers from `seq`.
pub sends : ℕ → List (List ℕ) → List (List ℕ) → List (List ℕ)
sends seq [] sent = sent
sends seq (p ∷ ps) sent = sends (u16 (seq + 1)) ps (packet type_data seq p ∷ sent)

-- The payloads without their heads, put together.
pub bodies : List (List ℕ) → List ℕ
bodies [] = []
bodies (p ∷ ps) = drop chunk_header p ++ bodies ps

-- The payloads carry the heads of the chunks from `idx` on.
pub Numbered : ℕ → ℕ → ℕ → List (List ℕ) → Type 0
Numbered frame_id n_chunks idx [] = Unit {0}
Numbered frame_id n_chunks idx (p ∷ ps) =
    (take chunk_header p ≡ chunk_head frame_id idx n_chunks)
    × Numbered frame_id n_chunks (idx + 1) ps

module _ (q : Quality) (fb : ℕ → ℕ) where
  pub length-copy_bytes : (n off : ℕ) → length (copy_bytes q fb n off) ≡ n
  unfolding copy_bytes
  length-copy_bytes zero off = refl
  length-copy_bytes (suc n) off = ap suc (length-copy_bytes n (off + 1))

  pub copy_bytes_add :
      (a b off : ℕ)
      → copy_bytes q fb (a + b) off ≡ copy_bytes q fb a off ++ copy_bytes q fb b (off + a)
  unfolding copy_bytes
  copy_bytes_add zero b off =
      let all : 0 + b ≡ b = omega arith in
      let same : off + 0 ≡ off = omega arith in rw (all, same) refl
  copy_bytes_add (suc a) b off =
      let here : suc a + b ≡ suc (a + b) = omega arith in
      let there : off + 1 + a ≡ off + suc a = omega arith in
      rw here (
        ap (λ l. fb (phys q off) ∷ l)
          (copy_bytes_add a b (off + 1)
            ∙ ap (λ o. copy_bytes q fb a (off + 1) ++ copy_bytes q fb b o) there))

  pub get_or-copy_bytes :
      (n off i : ℕ) → i < n → get_or (copy_bytes q fb n off) i 0 ≡ fb (phys q (off + i))
  unfolding copy_bytes
  get_or-copy_bytes zero off i h = absurd (omega arith)
  get_or-copy_bytes (suc n) off zero h = ap (λ o. fb (phys q o)) (omega arith)
  get_or-copy_bytes (suc n) off (suc i) h =
      get_or-copy_bytes n (off + 1) i (omega arith) ∙ ap (λ o. fb (phys q o)) (omega arith)

pub phys-pixel :
    (q : Quality) (x y : ℕ)
    → x < effective_width q
    → phys q (y * effective_width q + x) ≡ scale q * y * video_width + scale q * x
unfolding phys
phys-pixel quality_low x y h = omega arith
phys-pixel quality_med x y h = omega arith
phys-pixel quality_high x y h = omega arith
