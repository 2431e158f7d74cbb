-- ===== src/Games/Snake.antt =====
-- game.c: Snake, on a board of 16 by 10 cells with a wall around it.
--
-- A coordinate is a number that stops at 0, where the source tests for 0 and less. The score is an
-- `int`, kept as a 32-bit word.
mod Board
mod Tests
use asm_os.Prelude.{
  ℕ, zero, suc, ◌+◌, ◌-◌, ◌*◌, ◌%◌, Bool, true, false, ◌&&◌, ◌||◌, List, [], ◌∷◌, ltb, leb, ◌==◌,
  if◌then◌else◌, get_or, set, ◌^◌,
}
use asm_os.Prelude.Words.{u32}

abbrev pub grid_w : ℕ
grid_w = 16

abbrev pub grid_h : ℕ
grid_h = 10

abbrev pub max_len : ℕ
max_len = 64

abbrev pub up : ℕ
up = 0

abbrev pub right : ℕ
right = 1

abbrev pub down : ℕ
down = 2

abbrev pub left : ℕ
left = 3

-- An entry of the two arrays of coordinates.
pub record Cell : Type 0 where
  pub x : ℕ
  pub y : ℕ

abbrev pub corner : Cell
corner = record { x = 1; y = 1 }

pub record Snake : Type 0 where
  pub seg : List Cell
  pub len : ℕ
  pub dir : ℕ
  pub next_dir : ℕ
  pub food : Cell
  pub game_over : Bool
  pub score : ℕ

abbrev pub same_cell : Cell → Cell → Bool
same_cell a b = (a.x == b.x) && (a.y == b.y)

-- The loop that looks for a cell among the first `n` ones.
pub is_on : ℕ → List Cell → Cell → Bool
is_on zero seg c = false
is_on (suc n) [] c = false
is_on (suc n) (s ∷ seg) c = same_cell s c || is_on n seg c

-- `1 + v % m`, for a signed `v` in 32 bits.
pub one_plus_mod : ℕ → ℕ → ℕ
one_plus_mod v m = if ltb v (2 ^ 31) then 1 + v % m else 1 - (2 ^ 32 - v) % m

-- The cell that `snake_place_food` tries at its counter `n`.
pub candidate : ℕ → ℕ → Cell
unfolding one_plus_mod
candidate score n = record {
  x = one_plus_mod (u32 (score * 7 + n)) (grid_w - 2);
  y = one_plus_mod (u32 (score * 11 + n * 3)) (grid_h - 2);
}

-- The loop of `snake_place_food`, with the number of its tries left.
pub find_place : ℕ → ℕ → Snake → Cell
find_place zero n s = corner
find_place (suc tries) n s =
    let later = find_place tries (n + 1) s in
    let c = candidate s.score n in if leb c.x 0 || is_on s.len s.seg c then later else c

pub snake_place_food : Snake → Snake
snake_place_food s = record s { food = find_place 200 0 s }

pub snake_init : Snake → Snake
snake_init s = snake_place_food (record s {
  seg =
      set (set (set s.seg 0 (record { x = 8; y = 5 })) 1 (record { x = 7; y = 5 })) 2
        (record { x = 6; y = 5 });
  len = 3;
  dir = right;
  next_dir = right;
  score = 0;
  game_over = false;
})

-- The cell one step from another, by `snake_dx` and `snake_dy`.
pub step : ℕ → Cell → Cell
step dir c =
    if dir == up
    then record c { y = c.y - 1 }
    else if dir == right
    then record c { x = c.x + 1 }
    else if dir == down
    then record c { y = c.y + 1 }
    else record c { x = c.x - 1 }

pub is_wall : Cell → Bool
is_wall c = leb c.x 0 || leb (grid_w - 1) c.x || leb c.y 0 || leb (grid_h - 1) c.y

-- The loop that moves the segments, from the last one on.
pub shift_segs : ℕ → List Cell → List Cell
shift_segs zero seg = seg
shift_segs (suc i) seg = shift_segs i (set seg (suc i) (get_or seg i corner))

-- The end of `snake_tick`: the move to a cell that is free.
pub move_to : Cell → Snake → Snake
move_to head s =
    let moved : Snake = record s { seg = set (shift_segs s.len s.seg) 0 head } in
    if same_cell head s.food
    then snake_place_food (record moved {
      len = if ltb s.len (max_len - 1) then s.len + 1 else s.len;
      score = u32 (s.score + 1);
    })
    else moved

pub turn : Snake → Snake
turn s = record s { dir = if s.next_dir == (s.dir + 2) % 4 then s.dir else s.next_dir }

pub snake_tick : Snake → Snake
snake_tick s =
    let t = turn s in
    let head = step t.dir (get_or t.seg 0 corner) in
    if is_wall head || is_on t.len t.seg head then record t { game_over = true } else move_to head t

-- The direction that a scan code asks for, when `old` was asked for before.
pub key_dir : ℕ → ℕ → ℕ
key_dir sc old =
    if leb 0x80 sc
    then old
    else if sc == 0x48
    then up
    else if sc == 0x50
    then down
    else if sc == 0x4B
    then left
    else if sc == 0x4D
    then right
    else old

-- What `snake_run` does with a scan code.
pub press : ℕ → Snake → Snake
press sc s = record s { next_dir = key_dir sc s.next_dir }

pub press_all : List ℕ → Snake → Snake
press_all [] s = s
press_all (sc ∷ codes') s = press_all codes' (press sc s)

-- The loop of `snake_run`, for the scan codes that come before each of its ticks.
pub snake_run : List (List ℕ) → Snake → Snake
snake_run [] s = s
snake_run (keys ∷ later) s =
    let rest = snake_run later (snake_tick (press_all keys s)) in if s.game_over then s else rest
