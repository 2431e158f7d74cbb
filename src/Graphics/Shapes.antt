-- ===== src/Graphics/Shapes.antt =====
-- What the shapes paint.
use asm_os.Prelude.{
  ℕ, zero, suc, ◌+◌, ◌*◌, ◌^◌, ◌≤◌, ◌<◌, ◌≡◌, refl, ap, ◌∙◌, inl, inr, Bool, true, false, ◌&&◌,
  ◌||◌, arith, ltb, leb, ◌==◌, if◌then◌else◌, Bool-cases, ℕ_discrete, dec_le,
}
use asm_os.Prelude.Words.{u32, sub32}
use native.Mathlib.Nat.{mul-le-mul}
use asm_os.Video.{video_width, video_height}
use asm_os.Graphics.{
  Framebuffer, color_to_palette, set_pixel, for_from, rounds, clear_graphics_screen, draw_rectangle,
  circle_rounds, dist, in_circle, draw_circle,
}

-- The pixel in the column `i` and the row `j`.
abbrev pub pixel : Framebuffer → ℕ → ℕ → ℕ
pixel fb i j = fb (j * video_width + i)

-- `a ≤ i < a + n`
unfoldable pub in_range : ℕ → ℕ → ℕ → Bool
in_range a n i = leb a i && ltb i (a + n)

-- Whether a test holds for some of the `n` numbers from `a` on.
pub any_from : ℕ → ℕ → (ℕ → Bool) → Bool
any_from zero a t = false
any_from (suc n) a t = t a || any_from n (a + 1) t

module _ (body : ℕ → Framebuffer → Framebuffer) (t : ℕ → Bool) (o v : ℕ) where
  -- A loop whose rounds set an offset or leave it as it was.
  pub for_from_paints :
      (n a : ℕ)
      → ((k : ℕ) (fb : Framebuffer) → k < a + n → body k fb o ≡ (if t k then v else fb o))
      → (fb : Framebuffer) → for_from n a body fb o ≡ (if any_from n a t then v else fb o)
  unfolding for_from any_from
  for_from_paints zero a h fb = refl
  for_from_paints (suc n) a h fb =
      for_from_paints n (a + 1) (λ k fb' lt. h k fb' (omega arith)) (body a fb)
      ∙ elim (Bool-cases (t a)) [
        | inl here ↦ rw (h a fb (omega arith), here) (ground arith)
        | inr there ↦ rw (h a fb (omega arith), there) refl
      ]

pub any_from_ext :
    (t t' : ℕ → Bool) → ((k : ℕ) → t k ≡ t' k) → (n a : ℕ) → any_from n a t ≡ any_from n a t'
unfolding any_from
any_from_ext t t' h zero a = refl
any_from_ext t t' h (suc n) a = rw (h a, any_from_ext t t' h n (a + 1)) refl

pub any_from_range :
    (i : ℕ) (c : ℕ → Bool) (n a : ℕ) → any_from n a (λ k. (k == i) && c k) ≡ (in_range a n i && c i)
unfolding any_from in_range
any_from_range i c zero a = ground arith
any_from_range i c (suc n) a = elim (ℕ_discrete a i) [
  | yes e ↦ rw (any_from_range i c n (a + 1), e) (ground arith)
  | no differ ↦ rw (any_from_range i c n (a + 1)) (ground (arith, differ))
]

pub set_pixel_lem :
    (x y color i j : ℕ) (fb : Framebuffer)
    → i < video_width
    → j < video_height
    → pixel (set_pixel x y color fb) i j
      ≡ (if (x == i) && (y == j) then color_to_palette color else pixel fb i j)
unfolding set_pixel
set_pixel_lem x y color i j fb h k = ground arith

swap : (a b c : Bool) → (a && (b && c)) ≡ (b && (a && c))
swap a b c = ground arith

-- A loop over rows, each of which is a loop over columns: it sets the offset `o`, or leaves it as it
-- was.
module _ (o i j v : ℕ) (c : ℕ → ℕ → Bool) (row : ℕ → ℕ → Framebuffer → Framebuffer) where
  pub grid_paints :
      (n a m b : ℕ)
      → ((px py : ℕ) (fb : Framebuffer)
          → px < a + n
          → py < b + m
          → row py px fb o ≡ (if (px == i) && ((py == j) && c px py) then v else fb o))
      → (fb : Framebuffer)
      → for_from m b (λ py. for_from n a (row py)) fb o
        ≡ (if in_range b m j && (in_range a n i && c i j) then v else fb o)
  grid_paints n a m b h fb =
      let across = λ (py : ℕ) (fb' : Framebuffer) (lt : py < b + m).
        for_from_paints (row py) (λ px. (px == i) && ((py == j) && c px py)) o v n a
          (λ px fb'' lt'. h px py fb'' lt' lt) fb'
        ∙ ap (λ b. if b then v else fb' o)
            (any_from_range i (λ px. (py == j) && c px py) n a
              ∙ swap (in_range a n i) (py == j) (c i py)) in
      for_from_paints (λ py. for_from n a (row py)) (λ py. (py == j) && (in_range a n i && c i py))
        o v m b across fb
      ∙ ap (λ b. if b then v else fb o) (any_from_range j (λ py. in_range a n i && c i py) m b)

range_rounds : (a n i : ℕ) → in_range a (rounds a n) i ≡ (leb a i && ltb i (u32 (a + n)))
unfolding in_range
range_rounds a n i = ground arith

-- A rectangle is painted on the screen where it reaches the screen, and nothing else is; the sums of
-- its corner and its sizes are those of `uint32_t`.
pub draw_rectangle_lem :
    (x y width height color i j : ℕ) (fb : Framebuffer)
    → i < video_width
    → j < video_height
    → pixel (draw_rectangle x y width height color fb) i j ≡ (
        if (leb x i && ltb i (u32 (x + width))) && (leb y j && ltb j (u32 (y + height)))
        then color_to_palette color
        else pixel fb i j)
unfolding draw_rectangle
draw_rectangle_lem x y width height color i j fb h k =
    let v = color_to_palette color in
    grid_paints (j * video_width + i) i j v (λ px py. true) (λ py px. set_pixel px py color)
      (rounds x width) x (rounds y height) y
      (λ px py fb' lt lt'.
        set_pixel_lem px py color i j fb' h k
        ∙ ap (λ b. if b then v else pixel fb' i j) (ground arith))
      fb
    ∙ rw (range_rounds x width i, range_rounds y height j)
        (ap (λ b. if b then v else pixel fb i j) (ground arith))

-- The clear paints every pixel black.
pub clear_graphics_screen_lem :
    (i j : ℕ) (fb : Framebuffer)
    → i < video_width
    → j < video_height
    → pixel (clear_graphics_screen fb) i j ≡ 0
unfolding clear_graphics_screen color_to_palette in_range
clear_graphics_screen_lem i j fb h k =
    grid_paints (j * video_width + i) i j 0 (λ px py. true) (λ py px. set_pixel px py 0) video_width
      0 video_height 0
      (λ px py fb' lt lt'.
        set_pixel_lem px py 0 i j fb' h k ∙ ap (λ b. if b then 0 else pixel fb' i j) (ground arith))
      fb
    ∙ ground arith

square_le : (a r : ℕ) → a * a ≤ r * r → a ≤ r
square_le a r h = elim (dec_le a r) [
  | yes le ↦ le
  | no gt ↦
      let above : suc r ≤ a = omega (arith, gt) in
      let square : suc r * suc r ≤ a * a = mul-le-mul above above in absurd (omega (arith, square))
]

in_circle_lem : (x y r i j : ℕ) → in_circle x y r i j ≡ true → (dist i x ≤ r) × (dist j y ≤ r)
unfolding in_circle
in_circle_lem x y r i j e =
    let dx = dist i x in
    let dy = dist j y in
    let sum : dx * dx + dy * dy ≤ r * r = ground arith in
    (square_le dx r (omega arith), square_le dy r (omega arith))

circle_range :
    (c r i : ℕ)
    → c < 2 ^ 15
    → r < 2 ^ 15
    → in_range (sub32 c r) (circle_rounds c r) i ≡ (leb r c && leb (dist i c) r)
unfolding in_range
circle_range c r i h k = ground arith

circle_point :
    (x y r color i j px py : ℕ) (fb : Framebuffer)
    → i < video_width
    → j < video_height
    → pixel (if in_circle x y r px py then set_pixel px py color fb else fb) i j ≡ (
        if (px == i) && ((py == j) && in_circle x y r px py)
        then color_to_palette color
        else pixel fb i j)
circle_point x y r color i j px py fb h k = elim (Bool-cases (in_circle x y r px py)) [
  | inl inside ↦ rw inside (
      set_pixel_lem px py color i j fb h k
      ∙ ap (λ b. if b then color_to_palette color else pixel fb i j) (ground arith))
  | inr outside ↦ rw outside (ground arith)
]

circle_test :
    (x y r i j : ℕ)
    → ((leb r y && leb (dist j y) r) && ((leb r x && leb (dist i x) r) && in_circle x y r i j))
      ≡ (leb r x && leb r y && in_circle x y r i j)
circle_test x y r i j = elim (Bool-cases (in_circle x y r i j)) [
  | inl inside ↦
      let near = in_circle_lem x y r i j inside in rw inside (ground (arith, near.0, near.1))
  | inr outside ↦ rw outside (ground arith)
]

-- The disc is painted, and only the disc, where its whole square has no negative coordinate. Where
-- the radius is greater than a coordinate of the center, nothing is painted at all. The coordinates
-- and the radius are below 2^15.
pub draw_circle_lem :
    (x y radius color i j : ℕ) (fb : Framebuffer)
    → x < 2 ^ 15
    → y < 2 ^ 15
    → radius < 2 ^ 15
    → i < video_width
    → j < video_height
    → pixel (draw_circle x y radius color fb) i j ≡ (
        if leb radius x && leb radius y && in_circle x y radius i j
        then color_to_palette color
        else pixel fb i j)
unfolding draw_circle
draw_circle_lem x y r color i j fb hx hy hr h k =
    let v = color_to_palette color in
    grid_paints (j * video_width + i) i j v (λ px py. in_circle x y r px py)
      (λ py px fb'. if in_circle x y r px py then set_pixel px py color fb' else fb')
      (circle_rounds x r) (sub32 x r) (circle_rounds y r) (sub32 y r)
      (λ px py fb' lt lt'. circle_point x y r color i j px py fb' h k) fb
    ∙ rw (circle_range x r i hx hr, circle_range y r j hy hr)
        (ap (λ b. if b then v else pixel fb i j) (circle_test x y r i j))
