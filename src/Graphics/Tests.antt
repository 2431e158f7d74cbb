-- ===== src/Graphics/Tests.antt =====
-- The pixels of some shapes.
use asm_os.Prelude.{◌≡◌, ◌&&◌, leb, refl, arith, if◌then◌else◌}
use asm_os.Prelude.CString.{codes}
use asm_os.Graphics.{
  Framebuffer, color_to_palette, set_pixel, for_from, draw_rectangle, draw_circle, in_circle,
  draw_text,
}
use asm_os.Graphics.Shapes.{pixel, draw_circle_lem}
use asm_os.Graphics.Letters.{text_dot, draw_text_lem}

abbrev black : Framebuffer
black o = 0

small_rectangle :
    (pixel (draw_rectangle 318 10 5 2 0xFF0000 black) 319 11 ≡ 1)
    × (pixel (draw_rectangle 318 10 5 2 0xFF0000 black) 0 12 ≡ 0)
unfolding draw_rectangle for_from set_pixel color_to_palette
small_rectangle = (refl, refl)

-- A circle over the right border is drawn, and one over the left border is not.
border_circles :
    (pixel (draw_circle 319 50 2 0xFFFFFF black) 318 50 ≡ 7)
    × (pixel (draw_circle 1 50 2 0xFFFFFF black) 1 50 ≡ 0)
unfolding draw_circle for_from set_pixel color_to_palette in_circle
border_circles = (refl, refl)

draw_circle_lem_example : pixel (draw_circle 1 50 2 0xFFFFFF black) 1 50 ≡ (
    if leb 2 1 && leb 2 50 && in_circle 1 50 2 1 50
    then color_to_palette 0xFFFFFF
    else pixel black 1 50)
draw_circle_lem_example =
    draw_circle_lem 1 50 2 0xFFFFFF 1 50 black (omega arith) (omega arith) (omega arith)
      (omega arith) (omega arith)

draw_text_lem_example : pixel (draw_text (λ c row. c) 5 5 (codes "OK") 0xFFFFFF black) 14 6 ≡ (
    if text_dot (λ c row. c) 5 5 (codes "OK") 14 6
    then color_to_palette 0xFFFFFF
    else pixel black 14 6)
draw_text_lem_example =
    draw_text_lem (λ c row. c) 0xFFFFFF 14 6 (omega arith) (omega arith) 5 5 (codes "OK") black
      (omega arith) (omega arith)
