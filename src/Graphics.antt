-- ===== src/Graphics.antt =====
-- graphics.c: pixels, shapes and text on the screen of the x86 build.
--
-- The framebuffer is a function of the offset from `FRAMEBUFFER_ADDR`. Coordinates are `uint32_t`,
-- with their wrap-around. The font of `font_8x8.c` is a parameter: `font c row` is a line of a
-- character.
mod Shapes
mod Letters
mod Tests
use asm_os.Prelude.{
  ℕ, zero, suc, ◌+◌, ◌-◌, ◌*◌, ◌/◌, ◌%◌, ◌^◌, Bool, not, ◌||◌, List, [], ◌∷◌, ltb, leb, ◌==◌,
  if◌then◌else◌,
}
use asm_os.Video.{video_width, video_height}
use asm_os.Prelude.Words.{u32, sub32}

abbrev pub Framebuffer : Type 0
Framebuffer = ℕ → ℕ

-- The index of a color in the palette.
pub color_to_palette : ℕ → ℕ
color_to_palette rgb =
    if rgb == 0x000000
    then 0
    else if rgb == 0xFF0000
    then 1
    else if rgb == 0x00FF00
    then 2
    else if rgb == 0x0000FF
    then 3
    else if rgb == 0xFFFF00
    then 4
    else if rgb == 0x00FFFF
    then 5
    else if rgb == 0xFF00FF
    then 6
    else if rgb == 0xFFFFFF
    then 7
    else 8 + (rgb / 65536 % 256 + rgb / 256 % 256 + rgb % 256) / 3 * 7 / 255

-- The gray levels of `set_palette_16`, from the entry `i` on.
pub grays : ℕ → ℕ → List (ℕ × ℕ × ℕ × ℕ)
grays zero i = []
grays (suc n) i =
    let v = if ltb 63 ((i - 8) * 8) then 63 else (i - 8) * 8 in (i, v, v, v) ∷ grays n (i + 1)

-- The calls of `video_set_palette_entry`.
pub set_palette_16 : List (ℕ × ℕ × ℕ × ℕ)
unfolding grays
set_palette_16 =
    (0, 0, 0, 0)
    ∷ (1, 63, 0, 0)
    ∷ (2, 0, 63, 0)
    ∷ (3, 0, 0, 63)
    ∷ (4, 63, 63, 0)
    ∷ (5, 0, 63, 63)
    ∷ (6, 63, 0, 63)
    ∷ (7, 63, 63, 63)
    ∷ grays 8 8

pub set_pixel : ℕ → ℕ → ℕ → Framebuffer → Framebuffer
set_pixel x y color fb o =
    if leb video_width x || leb video_height y
    then fb o
    else if o == y * video_width + x
    then color_to_palette color
    else fb o

-- A `for` loop of `n` rounds, for the values from `a` on.
pub for_from : ℕ → ℕ → (ℕ → Framebuffer → Framebuffer) → Framebuffer → Framebuffer
for_from zero a body fb = fb
for_from (suc n) a body fb = for_from n (a + 1) body (body a fb)

pub clear_graphics_screen : Framebuffer → Framebuffer
unfolding for_from set_pixel
clear_graphics_screen =
    for_from video_height 0 (λ y. for_from video_width 0 (λ x. set_pixel x y 0x000000))

-- The rounds of `for (uint32_t p = a; p < a + n; p++)`: none where the sum wraps below `a`.
abbrev pub rounds : ℕ → ℕ → ℕ
rounds a n = u32 (a + n) - a

pub draw_rectangle : ℕ → ℕ → ℕ → ℕ → ℕ → Framebuffer → Framebuffer
draw_rectangle x y width height color =
    for_from (rounds y height) y (λ py. for_from (rounds x width) x (λ px. set_pixel px py color))

-- The rounds of `for (int p = c - r; p <= c + r; p++)`, where the comparison is unsigned. `p`
-- stays below 2^31 unless it starts with the bits of a negative number.
abbrev pub circle_rounds : ℕ → ℕ → ℕ
circle_rounds c r = u32 (c + r) + 1 - sub32 c r

-- The distance of two coordinates.
abbrev pub dist : ℕ → ℕ → ℕ
dist a b = (a - b) + (b - a)

pub in_circle : ℕ → ℕ → ℕ → ℕ → ℕ → Bool
in_circle x y r px py = leb (dist px x * dist px x + dist py y * dist py y) (r * r)

pub draw_circle : ℕ → ℕ → ℕ → ℕ → Framebuffer → Framebuffer
draw_circle x y radius color = for_from (circle_rounds y radius) (sub32 y radius) (λ py.
    for_from (circle_rounds x radius) (sub32 x radius)
      (λ px fb. if in_circle x y radius px py then set_pixel px py color fb else fb))

-- `line & (0x80u >> px)`
pub dot : ℕ → ℕ → Bool
dot line px = not (line / 2 ^ (7 - px) % 2 == 0)

module _ (font : ℕ → ℕ → ℕ) where
  pub draw_char : ℕ → ℕ → ℕ → ℕ → Framebuffer → Framebuffer
  draw_char x y c color = for_from 8 0 (λ py. for_from 8 0 (λ px fb.
      if dot (font (c % 0x80) py) px then set_pixel (u32 (x + px)) (u32 (y + py)) color fb else fb))

  -- The characters of a text, without its end.
  pub draw_text : ℕ → ℕ → List ℕ → ℕ → Framebuffer → Framebuffer
  unfolding draw_char
  draw_text x y [] color fb = fb
  draw_text x y (c ∷ text) color fb =
      draw_text (u32 (x + 8)) y text color (draw_char x y c color fb)
