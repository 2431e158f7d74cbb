-- ===== src/Graphics/Letters.antt =====
-- What the letters paint.
use asm_os.Prelude.{
  ℕ, suc, ◌+◌, ◌-◌, ◌*◌, ◌/◌, ◌%◌, ◌^◌, ◌≤◌, ◌<◌, ◌≡◌, refl, ap, ◌∙◌, inl, inr, Bool, false, ◌&&◌,
  ◌||◌, arith, ltb, leb, ◌==◌, if◌then◌else◌, Bool-cases, dec_le, List, [], ◌∷◌, length, get_or,
  dec_lt,
}
use asm_os.Prelude.Words.{u32}
use asm_os.Video.{video_width, video_height}
use asm_os.Graphics.{Framebuffer, color_to_palette, set_pixel, dot, draw_char, draw_text}
use asm_os.Graphics.Shapes.{pixel, in_range, set_pixel_lem, grid_paints}

-- Whether the pixel is a dot of the character at that place.
pub char_dot : (ℕ → ℕ → ℕ) → ℕ → ℕ → ℕ → ℕ → ℕ → Bool
char_dot font x y c i j =
    leb x i && ltb i (x + 8) && leb y j && ltb j (y + 8) && dot (font (c % 0x80) (j - y)) (i - x)

-- Whether the pixel is a dot of the text at that place, whose characters stand side by side.
pub text_dot : (ℕ → ℕ → ℕ) → ℕ → ℕ → List ℕ → ℕ → ℕ → Bool
text_dot font x y text i j =
    leb x i
    && ltb i (x + 8 * length text)
    && leb y j
    && ltb j (y + 8)
    && dot (font (get_or text ((i - x) / 8) 0 % 0x80) (j - y)) ((i - x) % 8)

module _ (font : ℕ → ℕ → ℕ) (color i j : ℕ) (h : i < video_width) (k : j < video_height) where
  dot_point :
      (x y c px py : ℕ) (fb : Framebuffer)
      → x + 8 ≤ 2 ^ 32
      → y + 8 ≤ 2 ^ 32
      → px < 0 + 8
      → py < 0 + 8
      → pixel
          (if dot (font (c % 0x80) py) px
            then set_pixel (u32 (x + px)) (u32 (y + py)) color fb
            else fb)
          i
          j
        ≡ (if (px == i - x)
              && ((py == j - y) && (leb x i && leb y j && dot (font (c % 0x80) py) px))
            then color_to_palette color
            else pixel fb i j)
  dot_point x y c px py fb hx hy lx ly = elim (Bool-cases (dot (font (c % 0x80) py) px)) [
    | inl set ↦
        let at_x : u32 (x + px) ≡ x + px = omega arith in
        let at_y : u32 (y + py) ≡ y + py = omega arith in
        rw (set, at_x, at_y)
          (set_pixel_lem (x + px) (y + py) color i j fb h k
            ∙ ap (λ b. if b then color_to_palette color else pixel fb i j) (ground arith))
    | inr clear ↦ rw clear (ground arith)
  ]

  draw_char_lem :
      (x y c : ℕ) (fb : Framebuffer)
      → x + 8 ≤ 2 ^ 32
      → y + 8 ≤ 2 ^ 32
      → pixel (draw_char font x y c color fb) i j
        ≡ (if char_dot font x y c i j then color_to_palette color else pixel fb i j)
  unfolding draw_char char_dot in_range
  draw_char_lem x y c fb hx hy =
      let v = color_to_palette color in
      grid_paints (j * video_width + i) (i - x) (j - y) v
        (λ px py. leb x i && leb y j && dot (font (c % 0x80) py) px)
        (λ py px fb'.
          if dot (font (c % 0x80) py) px
          then set_pixel (u32 (x + px)) (u32 (y + py)) color fb'
          else fb')
        8 0 8 0 (λ px py fb' lx ly. dot_point x y c px py fb' hx hy lx ly) fb
      ∙ ap (λ b. if b then v else pixel fb i j) (ground arith)

text_dot-nil : (font : ℕ → ℕ → ℕ) (x y i j : ℕ) → text_dot font x y [] i j ≡ false
unfolding text_dot
text_dot-nil font x y i j = ground arith

text_dot-cons :
    (font : ℕ → ℕ → ℕ) (x y c : ℕ) (text : List ℕ) (i j : ℕ)
    → text_dot font x y (c ∷ text) i j
      ≡ (text_dot font (x + 8) y text i j || char_dot font x y c i j)
unfolding text_dot char_dot
text_dot-cons font x y c text i j = elim (dec_lt i (x + 8)) [
  | yes first ↦ elim (dec_le x i) [
    | yes le ↦
        let at : (i - x) / 8 ≡ 0 = omega (arith, first, le) in
        let col : (i - x) % 8 ≡ i - x = omega (arith, first, le) in
        rw (at, col) (ground (arith, first, le))
    | no before ↦ ground (arith, first, before)
  ]
  | no later ↦
      let at : (i - x) / 8 ≡ suc ((i - (x + 8)) / 8) = omega (arith, later) in
      let col : (i - x) % 8 ≡ (i - (x + 8)) % 8 = omega (arith, later) in
      rw (at, col) (ground (arith, later))
]

-- A text is painted dot by dot: a pixel of the screen gets the color exactly when it is a dot of the
-- character at its place in the text, and stays as it was otherwise. The text ends before the
-- coordinate 2^32.
pub draw_text_lem :
    (font : ℕ → ℕ → ℕ) (color i j : ℕ)
    → i < video_width
    → j < video_height
    → (x y : ℕ) (text : List ℕ) (fb : Framebuffer) → x + 8 * length text < 2 ^ 32
    → y + 8 ≤ 2 ^ 32
    → pixel (draw_text font x y text color fb) i j
      ≡ (if text_dot font x y text i j then color_to_palette color else pixel fb i j)
unfolding draw_text
draw_text_lem font color i j h k x y [] fb hx hy = rw (text_dot-nil font x y i j) refl
draw_text_lem font color i j h k x y (c ∷ text) fb hx hy =
    let next : u32 (x + 8) ≡ x + 8 = omega arith in
    let rest =
      draw_text_lem font color i j h k (x + 8) y text (draw_char font x y c color fb) (omega arith)
        hy in
    let one = draw_char_lem font color i j h k x y c fb (omega arith) hy in
    rw (next, rest, one, text_dot-cons font x y c text i j) (ground arith)
