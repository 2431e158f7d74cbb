-- ===== src/Games/Pong/Field.antt =====
-- Where the ball and the paddles of Pong can be.
use asm_os.Prelude.{ℕ, ◌+◌, ◌≤◌, inl, inr, true, List, [], ◌∷◌, arith, leb, ◌==◌, Bool-cases, ◌||◌}
use asm_os.Games.Pong.{
  Pong, pong_init, move_ball, bounce_top, bounce_bottom, bounce_left, bounce_right, goal_left,
  goal_right, follow_down, follow_up, pong_tick, raise_pad, lower_pad, press, press_all, pong_run,
}

-- The ball between the lines and not more than `out` pixels off the screen, and the paddles.
pub record InField (out : ℕ) (s : Pong) : Type 0 where
  pub left_end : 4 ≤ s.bx + out
  pub right_end : s.bx + 6 ≤ 320 + 4 + out
  pub top_end : 25 ≤ s.by
  pub bottom_end : s.by + 6 ≤ 195
  pub left_pad : (20 ≤ s.ly) × (s.ly + 28 ≤ 200)
  pub right_pad : (25 ≤ s.ry) × (s.ry + 28 ≤ 195)

-- The ball before the lines bounce it.
record Moved (s : Pong) : Type 0 where
  left_end : 2 ≤ s.bx
  right_end : s.bx + 6 ≤ 326
  left_pad : (20 ≤ s.ly) × (s.ly + 28 ≤ 200)
  right_pad : (25 ≤ s.ry) × (s.ry + 28 ≤ 195)

bounced : (s : Pong) → Moved s → InField 2 (bounce_bottom (bounce_top s))
unfolding bounce_bottom bounce_top
bounced s w = record {
  left_end = ground (arith, w.left_end);
  right_end = ground (arith, w.right_end);
  top_end = ground arith;
  bottom_end = ground arith;
  left_pad = (ground (arith, w.left_pad.0), ground (arith, w.left_pad.1));
  right_pad = (ground (arith, w.right_pad.0), ground (arith, w.right_pad.1));
}

moved : (s : Pong) → InField 0 s → Moved (move_ball s)
unfolding move_ball
moved s w = record {
  left_end = ground (arith, w.left_end);
  right_end = ground (arith, w.right_end);
  left_pad = w.left_pad;
  right_pad = w.right_pad;
}

bounce_left-InField : (s : Pong) → InField 2 s → InField 2 (bounce_left s)
unfolding bounce_left
bounce_left-InField s w = record {
  left_end = ground (arith, w.left_end);
  right_end = ground (arith, w.right_end);
  top_end = ground (arith, w.top_end);
  bottom_end = ground (arith, w.bottom_end);
  left_pad = (ground (arith, w.left_pad.0), ground (arith, w.left_pad.1));
  right_pad = (ground (arith, w.right_pad.0), ground (arith, w.right_pad.1));
}

bounce_right-InField : (s : Pong) → InField 2 s → InField 2 (bounce_right s)
unfolding bounce_right
bounce_right-InField s w = record {
  left_end = ground (arith, w.left_end);
  right_end = ground (arith, w.right_end);
  top_end = ground (arith, w.top_end);
  bottom_end = ground (arith, w.bottom_end);
  left_pad = (ground (arith, w.left_pad.0), ground (arith, w.left_pad.1));
  right_pad = (ground (arith, w.right_pad.0), ground (arith, w.right_pad.1));
}

-- A ball off the screen is a goal, and starts again in the middle.
goals-InField : (s : Pong) → InField 2 s → InField 0 (goal_right (goal_left s))
unfolding goal_left goal_right
goals-InField s w = record {
  left_end = ground (arith, w.left_end);
  right_end = ground (arith, w.right_end);
  top_end = ground (arith, w.top_end);
  bottom_end = ground (arith, w.bottom_end);
  left_pad = (ground (arith, w.left_pad.0), ground (arith, w.left_pad.1));
  right_pad = (ground (arith, w.right_pad.0), ground (arith, w.right_pad.1));
}

follow-InField : (s : Pong) → InField 0 s → InField 0 (follow_up (follow_down s))
unfolding follow_up follow_down
follow-InField s w = record {
  left_end = ground (arith, w.left_end);
  right_end = ground (arith, w.right_end);
  top_end = ground (arith, w.top_end);
  bottom_end = ground (arith, w.bottom_end);
  left_pad = (ground (arith, w.left_pad.0), ground (arith, w.left_pad.1));
  right_pad = (ground (arith, w.right_pad.0), ground (arith, w.right_pad.1));
}

raise_pad-InField : (s : Pong) → InField 0 s → InField 0 (raise_pad s)
unfolding raise_pad
raise_pad-InField s w = record {
  left_end = ground (arith, w.left_end);
  right_end = ground (arith, w.right_end);
  top_end = ground (arith, w.top_end);
  bottom_end = ground (arith, w.bottom_end);
  left_pad = (ground (arith, w.left_pad.0), ground (arith, w.left_pad.1));
  right_pad = (ground (arith, w.right_pad.0), ground (arith, w.right_pad.1));
}

lower_pad-InField : (s : Pong) → InField 0 s → InField 0 (lower_pad s)
unfolding lower_pad
lower_pad-InField s w = record {
  left_end = ground (arith, w.left_end);
  right_end = ground (arith, w.right_end);
  top_end = ground (arith, w.top_end);
  bottom_end = ground (arith, w.bottom_end);
  left_pad = (ground (arith, w.left_pad.0), ground (arith, w.left_pad.1));
  right_pad = (ground (arith, w.right_pad.0), ground (arith, w.right_pad.1));
}

pong_tick-InField : (s : Pong) → InField 0 s → InField 0 (pong_tick s)
unfolding pong_tick
pong_tick-InField s w = follow-InField _ (
    goals-InField _
      (bounce_right-InField _ (bounce_left-InField _ (bounced (move_ball s) (moved s w)))))

press-InField : (sc : ℕ) (s : Pong) → InField 0 s → InField 0 (press sc s)
unfolding press
press-InField sc s w = elim (Bool-cases ((sc == 0x11) || (sc == 0x48))) [
  | inl up ↦ rw up (raise_pad-InField s w)
  | inr other ↦ rw other (elim (Bool-cases ((sc == 0x1F) || (sc == 0x50))) [
    | inl down ↦ rw down (lower_pad-InField s w)
    | inr none ↦ rw none w
  ])
]

quit-InField : (s : Pong) → InField 0 s → InField 0 (record s { quit = true })
quit-InField s w = record {
  left_end = w.left_end;
  right_end = w.right_end;
  top_end = w.top_end;
  bottom_end = w.bottom_end;
  left_pad = w.left_pad;
  right_pad = w.right_pad;
}

press_all-InField : (keys : List ℕ) (s : Pong) → InField 0 s → InField 0 (press_all keys s)
unfolding press_all
press_all-InField [] s w = w
press_all-InField (sc ∷ keys) s w = elim (Bool-cases (leb 0x80 sc)) [
  | inl release ↦ rw release (press_all-InField keys s w)
  | inr make ↦ rw make (elim (Bool-cases (sc == 0x01)) [
    | inl esc ↦ rw esc (quit-InField s w)
    | inr key ↦ rw key (press_all-InField keys (press sc s) (press-InField sc s w))
  ])
]

run-InField : (ticks : List (List ℕ)) (s : Pong) → InField 0 s → InField 0 (pong_run ticks s)
unfolding pong_run
run-InField [] s w = w
run-InField (keys ∷ later) s w = elim (Bool-cases s.quit) [
  | inl over ↦ simp over w
  | inr on ↦ simp on (
      run-InField later (pong_tick (press_all keys s))
        (pong_tick-InField (press_all keys s) (press_all-InField keys s w)))
]

-- In every game of Pong, whatever keys are pressed before its ticks, the whole ball is on the screen
-- and between the lines, the right paddle is between the lines, and the left one on the screen, five
-- pixels beyond the lines at most.
pub pong_run-InField : (ticks : List (List ℕ)) → InField 0 (pong_run ticks pong_init)
unfolding pong_init
pong_run-InField ticks = run-InField ticks pong_init (record {
  left_end = omega arith;
  right_end = omega arith;
  top_end = omega arith;
  bottom_end = omega arith;
  left_pad = (omega arith, omega arith);
  right_pad = (omega arith, omega arith);
})
