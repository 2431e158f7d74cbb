-- ===== src/Games/Snake/Tests.antt =====
-- Runs of Snake, and its theorem at a game.
use asm_os.Prelude.{◌≡◌, refl, arith, true, false, [], ◌∷◌, replicate, length-replicate}
use asm_os.Games.Snake.{
  Cell, corner, Snake, is_on, one_plus_mod, candidate, find_place, snake_place_food, snake_init,
  step, is_wall, shift_segs, move_to, turn, snake_tick, key_dir, press, press_all, snake_run,
}
use asm_os.Games.Snake.Board.{IsGame}
use asm_os.Games.Snake.Board.Moves.{snake_run-IsGame}

abbrev blank_game : Snake
blank_game = record {
  seg = replicate 64 corner;
  len = 0;
  dir = 0;
  next_dir = 0;
  food = corner;
  game_over = false;
  score = 0;
}

-- Seven turns to the right from the start end the game at the wall.
runs_into_wall : (snake_run (replicate 7 []) (snake_init blank_game)).game_over ≡ true
unfolding snake_run snake_tick press_all press key_dir turn move_to step is_wall is_on shift_segs
    snake_place_food find_place candidate one_plus_mod snake_init
runs_into_wall = refl

snake_run-IsGame_example :
    IsGame (snake_run ((0x48 ∷ []) ∷ [] ∷ (0x4B ∷ []) ∷ []) (snake_init blank_game))
snake_run-IsGame_example =
    snake_run-IsGame ((0x48 ∷ []) ∷ [] ∷ (0x4B ∷ []) ∷ []) blank_game
      (length-replicate {A = Cell} 64 corner) (omega arith)
