-- ===== src/Games/Pong/Tests.antt =====
-- A game of Pong, and the theorem there.
use asm_os.Prelude.{◌≡◌, refl, [], ◌∷◌}
use asm_os.Games.Pong.{
  pong_init, move_ball, bounce_top, bounce_bottom, at_pad, bounce_left, bounce_right, goal_left,
  goal_right, follow_down, follow_up, pong_tick, raise_pad, lower_pad, press, press_all, pong_run,
}
use asm_os.Games.Pong.Field.{InField, pong_run-InField}

-- A key moves the paddle, and the release of a key does not.
moved_pad : (pong_run ((0x11 ∷ 0x91 ∷ []) ∷ []) pong_init).ly ≡ 78
unfolding pong_run pong_init press_all press raise_pad lower_pad pong_tick move_ball bounce_top
    bounce_bottom bounce_left bounce_right at_pad goal_left goal_right follow_down follow_up
moved_pad = refl

pong_run-InField_example : InField 0 (pong_run ((0x11 ∷ []) ∷ [] ∷ (0x1F ∷ []) ∷ []) pong_init)
pong_run-InField_example = pong_run-InField ((0x11 ∷ []) ∷ [] ∷ (0x1F ∷ []) ∷ [])
