-- ===== src/Games/Tetris/Tests.antt =====
-- Tests of Tetris, and its theorems at concrete games.
use asm_os.Prelude.{
  ℕ, ◌≡◌, refl, arith, false, Option, none, some, [], ◌∷◌, ◌==◌, ◌&&◌, ◌||◌, ltb, if◌then◌else◌,
}
use asm_os.Games.Tetris.{
  Tetris, Board, tetris_init, tetris_lock, tetris_run, well_h, put_cells, clear_rows, next_piece,
  enter, tetris_collide,
}
use asm_os.Games.Tetris.Lines.{rows, line_count}
use asm_os.Games.Tetris.Lines.Clearing.{locked, LockClears, tetris_lock-clears}
use asm_os.Games.Tetris.Well.Runs.{events, Plays, tetris_run-Plays}

-- A board whose lowest row has a gap in the column that the long piece falls down.
abbrev nearly_full : Board
nearly_full i j = if (j == 19) && (ltb i 4 || ltb 4 i) then 3 else 0

abbrev long_piece : Tetris
long_piece = record {
  board = nearly_full;
  piece = 0;
  rot = 0;
  px = 7;
  py = 18;
  score = 0;
  lines = 0;
  quit = false;
  drop_ticks = 0;
}

tetris_lock-clears_example :
    (t : Tetris) × LockClears long_piece t (line_count (rows well_h (locked long_piece)))
tetris_lock-clears_example = tetris_lock-clears long_piece

lines_of : Option Tetris → ℕ
lines_of none = 0
lines_of (some t) = t.lines

one_line : lines_of (tetris_lock long_piece) ≡ 1
unfolding lines_of tetris_lock put_cells clear_rows next_piece enter tetris_collide
one_line = refl

tetris_run-Plays_example : Plays (tetris_run ((0x4B ∷ 0x48 ∷ 0x50 ∷ []) ∷ [] ∷ []) tetris_init)
unfolding events
tetris_run-Plays_example = tetris_run-Plays ((0x4B ∷ 0x48 ∷ 0x50 ∷ []) ∷ [] ∷ []) (omega arith)
