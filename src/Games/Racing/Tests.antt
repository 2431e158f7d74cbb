-- ===== src/Games/Racing/Tests.antt =====
-- Runs of Racing, and its theorem at a game.
use asm_os.Prelude.{◌≡◌, refl, true, false, [], ◌∷◌, replicate, length-replicate}
use asm_os.Games.Racing.{
  Obstacle, no_obstacle, Race, racing_init, racing_tick, press, press_all, racing_run,
}
use asm_os.Games.Racing.Road.{view}
use asm_os.Games.Racing.Road.Runs.{run_road, racing_run-eq-run_road}

abbrev parked : Race
parked = record {
  lane = 0;
  obst = replicate 4 no_obstacle;
  obst_n = 0;
  score = 7;
  quit = true;
  ticks = 0;
}

-- A car that goes to the left lane is there when the first obstacle, on the right, has passed. One
-- that stays in the middle is hit before that by the second.
passes :
    ((racing_run ((0x4B ∷ []) ∷ replicate 94 []) (racing_init parked)).score ≡ 10)
    × ((racing_run (replicate 95 []) (racing_init parked)).quit ≡ true)
unfolding racing_run racing_tick racing_init press_all press
passes = (refl, refl)

racing_run-eq-run_road_example :
    view (racing_run ((0x4D ∷ []) ∷ [] ∷ []) (racing_init parked))
    ≡ run_road
        ((0x4D ∷ []) ∷ [] ∷ [])
        (record { lane = 1; obstacles = []; score = 0; quit = false; ticks = 0 })
racing_run-eq-run_road_example =
    racing_run-eq-run_road ((0x4D ∷ []) ∷ [] ∷ []) parked
      (length-replicate {A = Obstacle} 4 no_obstacle)
