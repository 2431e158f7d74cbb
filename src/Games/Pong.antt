-- ===== src/Games/Pong.antt =====
-- game.c: Pong.
--
-- The ball can leave the screen on the left by two pixels: `bx` is `pong_bx` + 4. The speeds of the
-- ball only change their sign: `goes_right` and `goes_down` tell if `pong_vx` is 2 and not -2, and if
-- `pong_vy` is 1 and not -1.
mod Field
mod Tests
use asm_os.Prelude.{
  ℕ, ◌+◌, ◌-◌, ◌/◌, Bool, true, false, not, ◌&&◌, ◌||◌, List, [], ◌∷◌, ltb, leb, ◌==◌,
  if◌then◌else◌,
}
use asm_os.Video.{video_width, video_height}

abbrev pub pad_w : ℕ
pad_w = 6

abbrev pub pad_h : ℕ
pad_h = 28

abbrev pub pad_x_l : ℕ
pad_x_l = 12

abbrev pub pad_x_r : ℕ
pad_x_r = video_width - 12 - pad_w

abbrev pub ball_sz : ℕ
ball_sz = 6

abbrev pub top : ℕ
top = 25

abbrev pub bot : ℕ
bot = video_height - 5

abbrev pub speed : ℕ
speed = 2

pub record Pong : Type 0 where
  pub ly : ℕ
  pub ry : ℕ
  pub bx : ℕ
  pub by : ℕ
  pub goes_right : Bool
  pub goes_down : Bool
  pub score_l : ℕ
  pub score_r : ℕ
  pub quit : Bool

-- The ball in the middle.
abbrev pub middle_x : ℕ
middle_x = video_width / 2 - ball_sz / 2

abbrev pub middle_y : ℕ
middle_y = video_height / 2 - ball_sz / 2

pub pong_init : Pong
pong_init = record {
  ly = video_height / 2 - pad_h / 2;
  ry = video_height / 2 - pad_h / 2;
  bx = middle_x + 4;
  by = middle_y;
  goes_right = true;
  goes_down = true;
  score_l = 0;
  score_r = 0;
  quit = false;
}

-- The parts of `pong_tick`, in their order.
pub move_ball : Pong → Pong
move_ball s = record s {
  bx = if s.goes_right then s.bx + speed else s.bx - speed;
  by = if s.goes_down then s.by + 1 else s.by - 1;
}

pub bounce_top : Pong → Pong
bounce_top s = if leb s.by top then record s { by = top; goes_down = not s.goes_down } else s

pub bounce_bottom : Pong → Pong
bounce_bottom s =
    if leb bot (s.by + ball_sz)
    then record s { by = bot - ball_sz; goes_down = not s.goes_down }
    else s

-- Whether the ball is at the height of a paddle.
pub at_pad : ℕ → ℕ → Bool
at_pad pad by = leb pad (by + ball_sz) && leb by (pad + pad_h)

pub bounce_left : Pong → Pong
bounce_left s =
    if leb s.bx (pad_x_l + pad_w + 4) && at_pad s.ly s.by
    then record s { bx = pad_x_l + pad_w + 4; goes_right = not s.goes_right }
    else s

pub bounce_right : Pong → Pong
bounce_right s =
    if leb (pad_x_r + 4) (s.bx + ball_sz) && at_pad s.ry s.by
    then record s { bx = pad_x_r - ball_sz + 4; goes_right = not s.goes_right }
    else s

pub goal_left : Pong → Pong
goal_left s =
    if ltb s.bx 4
    then record s {
      score_r = s.score_r + 1;
      bx = middle_x + 4;
      by = middle_y;
      goes_right = true;
      goes_down = true;
    }
    else s

pub goal_right : Pong → Pong
goal_right s =
    if ltb (video_width + 4) (s.bx + ball_sz)
    then record s {
      score_l = s.score_l + 1;
      bx = middle_x + 4;
      by = middle_y;
      goes_right = false;
      goes_down = true;
    }
    else s

pub follow_down : Pong → Pong
follow_down s =
    if ltb (s.ry + pad_h / 2) (s.by + ball_sz / 2) && ltb (s.ry + pad_h) (bot - 2)
    then record s { ry = s.ry + 2 }
    else s

pub follow_up : Pong → Pong
follow_up s =
    if ltb (s.by + ball_sz / 2) (s.ry + pad_h / 2) && ltb (top + 2) s.ry
    then record s { ry = s.ry - 2 }
    else s

pub pong_tick : Pong → Pong
pong_tick s = follow_up (
    follow_down (
      goal_right
        (goal_left (bounce_right (bounce_left (bounce_bottom (bounce_top (move_ball s))))))))

pub raise_pad : Pong → Pong
raise_pad s = if ltb (top + 2) s.ly then record s { ly = s.ly - 8 } else s

pub lower_pad : Pong → Pong
lower_pad s = if ltb (s.ly + pad_h) (bot - 2) then record s { ly = s.ly + 8 } else s

-- What `pong_run` does with a scan code below 0x80 that is not 0x01.
pub press : ℕ → Pong → Pong
press sc s =
    if (sc == 0x11) || (sc == 0x48)
    then raise_pad s
    else if (sc == 0x1F) || (sc == 0x50)
    then lower_pad s
    else s

-- The scan codes are read until the one that quits.
pub press_all : List ℕ → Pong → Pong
press_all [] s = s
press_all (sc ∷ keys) s =
    let rest = press_all keys s in
    let rest' = press_all keys (press sc s) in
    if leb 0x80 sc then rest else if sc == 0x01 then record s { quit = true } else rest'

-- The loop of `pong_run`, for the scan codes that come before each of its ticks.
pub pong_run : List (List ℕ) → Pong → Pong
pong_run [] s = s
pong_run (keys ∷ later) s =
    let rest = pong_run later (pong_tick (press_all keys s)) in if s.quit then s else rest
