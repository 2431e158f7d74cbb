-- ===== src/Games/Tetris.antt =====
-- game.c: Tetris, on a board of 10 by 20 cells.
--
-- The board is a function of the column and the row. The position of the piece can be negative:
-- `px` is `tetris_px` + 4, and `py` is `tetris_py` + 2. The score and the number of lines are `int`s,
-- kept as 32-bit words.
mod Well
mod Lines
mod Tests
use asm_os.Prelude.{
  ℕ, zero, suc, ◌+◌, ◌-◌, ◌*◌, ◌%◌, Bool, true, false, not, ◌&&◌, ◌||◌, Option, none, some, List,
  [], ◌∷◌, ltb, leb, ◌==◌, if◌then◌else◌, get_or, ◌^◌,
}
use asm_os.Prelude.Words.{u32}

abbrev pub well_w : ℕ
well_w = 10

abbrev pub well_h : ℕ
well_h = 20

abbrev pub piece_num : ℕ
piece_num = 7

abbrev pub drop_max : ℕ
drop_max = 25

abbrev pub Board : Type 0
Board = ℕ → ℕ → ℕ

-- The seven shapes in their four rotations: the column and the row of each cell.
abbrev pub shapes : List (List (List (ℕ × ℕ)))
shapes =
    (((1, 0) ∷ (1, 1) ∷ (1, 2) ∷ (1, 3) ∷ [])
      ∷ ((0, 1) ∷ (1, 1) ∷ (2, 1) ∷ (3, 1) ∷ [])
      ∷ ((1, 0) ∷ (1, 1) ∷ (1, 2) ∷ (1, 3) ∷ [])
      ∷ ((0, 1) ∷ (1, 1) ∷ (2, 1) ∷ (3, 1) ∷ [])
      ∷ [])
    ∷ (((0, 0) ∷ (1, 0) ∷ (0, 1) ∷ (1, 1) ∷ [])
        ∷ ((0, 0) ∷ (1, 0) ∷ (0, 1) ∷ (1, 1) ∷ [])
        ∷ ((0, 0) ∷ (1, 0) ∷ (0, 1) ∷ (1, 1) ∷ [])
        ∷ ((0, 0) ∷ (1, 0) ∷ (0, 1) ∷ (1, 1) ∷ [])
        ∷ [])
    ∷ (((1, 0) ∷ (0, 1) ∷ (1, 1) ∷ (2, 1) ∷ [])
        ∷ ((0, 0) ∷ (0, 1) ∷ (1, 1) ∷ (0, 2) ∷ [])
        ∷ ((0, 1) ∷ (1, 1) ∷ (2, 1) ∷ (1, 2) ∷ [])
        ∷ ((1, 0) ∷ (0, 1) ∷ (1, 1) ∷ (1, 2) ∷ [])
        ∷ [])
    ∷ (((1, 0) ∷ (2, 0) ∷ (0, 1) ∷ (1, 1) ∷ [])
        ∷ ((0, 0) ∷ (0, 1) ∷ (1, 1) ∷ (1, 2) ∷ [])
        ∷ ((1, 0) ∷ (2, 0) ∷ (0, 1) ∷ (1, 1) ∷ [])
        ∷ ((0, 0) ∷ (0, 1) ∷ (1, 1) ∷ (1, 2) ∷ [])
        ∷ [])
    ∷ (((0, 0) ∷ (1, 0) ∷ (1, 1) ∷ (2, 1) ∷ [])
        ∷ ((1, 0) ∷ (0, 1) ∷ (1, 1) ∷ (0, 2) ∷ [])
        ∷ ((0, 0) ∷ (1, 0) ∷ (1, 1) ∷ (2, 1) ∷ [])
        ∷ ((1, 0) ∷ (0, 1) ∷ (1, 1) ∷ (0, 2) ∷ [])
        ∷ [])
    ∷ (((0, 0) ∷ (0, 1) ∷ (1, 1) ∷ (2, 1) ∷ [])
        ∷ ((1, 0) ∷ (1, 1) ∷ (0, 2) ∷ (1, 2) ∷ [])
        ∷ ((0, 1) ∷ (1, 1) ∷ (2, 1) ∷ (2, 2) ∷ [])
        ∷ ((0, 0) ∷ (1, 0) ∷ (0, 1) ∷ (0, 2) ∷ [])
        ∷ [])
    ∷ (((2, 0) ∷ (0, 1) ∷ (1, 1) ∷ (2, 1) ∷ [])
        ∷ ((0, 0) ∷ (1, 0) ∷ (0, 1) ∷ (0, 2) ∷ [])
        ∷ ((0, 1) ∷ (1, 1) ∷ (2, 1) ∷ (0, 2) ∷ [])
        ∷ ((1, 0) ∷ (1, 1) ∷ (0, 2) ∷ (1, 2) ∷ [])
        ∷ [])
    ∷ []

pub record Tetris : Type 0 where
  pub board : Board
  pub piece : ℕ
  pub rot : ℕ
  pub px : ℕ
  pub py : ℕ
  pub score : ℕ
  pub lines : ℕ
  pub quit : Bool
  pub drop_ticks : ℕ

abbrev pub cells_of : ℕ → ℕ → List (ℕ × ℕ)
cells_of piece rot = get_or (get_or shapes piece []) rot []

-- The test of a cell in `tetris_collide`, at the place of the piece.
pub blocked : Board → ℕ → ℕ → ℕ × ℕ → Bool
blocked board x y (dx, dy) =
    ltb (x + dx) 4
    || leb (well_w + 4) (x + dx)
    || leb (well_h + 2) (y + dy)
    || (leb 2 (y + dy) && not (board (x + dx - 4) (y + dy - 2) == 0))

pub any_blocked : Board → ℕ → ℕ → List (ℕ × ℕ) → Bool
unfolding blocked
any_blocked board x y [] = false
any_blocked board x y (c ∷ cs) = blocked board x y c || any_blocked board x y cs

-- `tetris_collide`, for the place that the piece would have.
pub tetris_collide : ℕ → ℕ → ℕ → Tetris → Bool
unfolding any_blocked
tetris_collide x y rot s = any_blocked s.board x y (cells_of s.piece rot)

pub set_cell : Board → ℕ → ℕ → ℕ → Board
set_cell board x y v i j = if (i == x) && (j == y) then v else board i j

-- The loop of `tetris_lock` that puts the cells of the piece on the board.
pub put_cells : ℕ → ℕ → ℕ → List (ℕ × ℕ) → Board → Board
unfolding set_cell
put_cells v x y [] board = board
put_cells v x y ((dx, dy) ∷ cs) board = put_cells v x y cs (
    if leb 2 (y + dy) && ltb (y + dy) (well_h + 2)
    then set_cell board (x + dx - 4) (y + dy - 2) v
    else board)

-- The loop that tests the first `n` cells of a row.
pub is_full : ℕ → ℕ → Board → Bool
is_full zero row board = true
is_full (suc n) row board = is_full n row board && not (board n row == 0)

-- The loop that copies the first `n` cells of the row above.
pub copy_row : ℕ → ℕ → Board → Board
unfolding set_cell
copy_row zero r board = board
copy_row (suc n) r board = copy_row n r (set_cell board n r (board n (r - 1)))

pub blank_row : ℕ → Board → Board
unfolding set_cell
blank_row zero board = board
blank_row (suc n) board = blank_row n (set_cell board n 0 0)

-- The loop over the rows from `r` up.
pub shift_rows : ℕ → Board → Board
unfolding copy_row
shift_rows zero board = board
shift_rows (suc r) board = shift_rows r (copy_row well_w (suc r) board)

-- The loop over the rows, at the row `k - 1`, which is tested again after it was cleared. It gives
-- the board and the number of cleared rows, and `none` where the fuel runs out.
pub clear_rows : ℕ → ℕ → Board → ℕ → Option (Board × ℕ)
unfolding is_full shift_rows blank_row
clear_rows zero k board cleared = none
clear_rows (suc fuel) zero board cleared = some (board, cleared)
clear_rows (suc fuel) (suc row) board cleared = elim (is_full well_w row board) [
  | true ↦ clear_rows fuel (suc row) (blank_row well_w (shift_rows row board)) (cleared + 1)
  | false ↦ clear_rows fuel row board cleared
]

-- A loop round for each row, and one more for each cleared row.
abbrev pub clear_fuel : ℕ
clear_fuel = 2 * well_h + 1

-- `tetris_score % TETRIS_NUM`, for the signed score in 32 bits. A negative result -k is
-- `piece_num + k`, which is outside `shapes` as well.
unfoldable pub piece_of : ℕ → ℕ
piece_of score =
    if ltb score (2 ^ 31)
    then score % piece_num
    else if (2 ^ 32 - score) % piece_num == 0
    then 0
    else piece_num + (2 ^ 32 - score) % piece_num

-- The next piece at its place above the board.
pub enter : Board → ℕ → Tetris → Tetris
unfolding piece_of
enter board cleared s = record {
  board = board;
  piece = piece_of (u32 (s.score + cleared * cleared * 100));
  rot = 0;
  px = 3 + 4;
  py = 0;
  score = u32 (s.score + cleared * cleared * 100);
  lines = u32 (s.lines + cleared);
  quit = s.quit;
  drop_ticks = 0;
}

-- The end of `tetris_lock`: the game is over if the next piece has no room.
pub next_piece : Board → ℕ → Tetris → Tetris
next_piece board cleared s =
    let t = enter board cleared s in
    if tetris_collide t.px t.py 0 t then record t { quit = true } else t

pub tetris_lock : Tetris → Option Tetris
tetris_lock s =
    let locked = put_cells (s.piece + 1) s.px s.py (cells_of s.piece s.rot) s.board in
    elim (clear_rows clear_fuel well_h locked 0) [
      | none ↦ none
      | some r ↦ some (next_piece r.0 r.1 s)
    ]

pub tetris_init : Tetris
tetris_init = record {
  board = λ x y. 0;
  piece = 0;
  rot = 0;
  px = 3 + 4;
  py = 0;
  score = 0;
  lines = 0;
  quit = false;
  drop_ticks = 0;
}

-- A step down, or the lock.
pub lower : Tetris → Option Tetris
lower s =
    if tetris_collide s.px (s.py + 1) s.rot s
    then tetris_lock s
    else some (record s { py = s.py + 1 })

-- What `tetris_run` does with a scan code below 0x80 that is not 0x01.
pub press : ℕ → Tetris → Option Tetris
press sc s =
    if sc == 0x4B
    then some (if tetris_collide (s.px - 1) s.py s.rot s then s else record s { px = s.px - 1 })
    else if sc == 0x4D
    then some (if tetris_collide (s.px + 1) s.py s.rot s then s else record s { px = s.px + 1 })
    else if sc == 0x50
    then lower s
    else if sc == 0x48
    then some (
        if tetris_collide s.px s.py ((s.rot + 1) % 4) s
        then s
        else record s { rot = (s.rot + 1) % 4 })
    else some s

-- The scan codes are read until the one that quits.
pub press_all : List ℕ → Tetris → Option Tetris
press_all [] s = some s
press_all (sc ∷ keys) s =
    if leb 0x80 sc
    then press_all keys s
    else if sc == 0x01
    then some (record s { quit = true })
    else (elim (press sc s) [ none ↦ none | some s' ↦ press_all keys s' ])

-- The end of a round of `tetris_run`.
pub tetris_tick : Tetris → Option Tetris
tetris_tick s =
    if leb drop_max (s.drop_ticks + 1)
    then lower (record s { drop_ticks = 0 })
    else some (record s { drop_ticks = s.drop_ticks + 1 })

-- The loop of `tetris_run`, for the scan codes that come before each of its ticks.
pub tetris_run : List (List ℕ) → Tetris → Option Tetris
tetris_run [] s = some s
tetris_run (keys ∷ later) s = if s.quit then some s else elim (press_all keys s) [
  | none ↦ none
  | some t ↦ elim (tetris_tick t) [ none ↦ none | some u ↦ tetris_run later u ]
]
