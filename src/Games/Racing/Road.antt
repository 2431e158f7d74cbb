-- ===== src/Games/Racing/Road.antt =====
-- The arrays of Racing against a list of the obstacles on the road.
pub mod Scroll
pub mod Ticks
pub mod Runs
use asm_os.Prelude.{
  ℕ, ◌+◌, ◌-◌, ◌*◌, ◌%◌, Bool, false, ◌&&◌, ◌||◌, List, [], ◌∷◌, ◌++◌, ltb, ◌==◌, if◌then◌else◌,
  length, take,
}
use asm_os.Games.Racing.{lanes, obst_max, Obstacle, Race, is_past, move_down, hits}

-- The obstacles that are still on the road after a step down.
pub survivors : List Obstacle → List Obstacle
unfolding is_past move_down
survivors [] = []
survivors (o ∷ os) = if is_past (move_down o) then survivors os else move_down o ∷ survivors os

pub any_on : ℕ → List Obstacle → Bool
unfolding hits
any_on lane [] = false
any_on lane (o ∷ os) = hits lane o || any_on lane os

-- The game on a list.
pub record Road : Type 0 where
  pub lane : ℕ
  pub obstacles : List Obstacle
  pub score : ℕ
  pub quit : Bool
  pub ticks : ℕ

pub spawned : ℕ → List Obstacle → List Obstacle
spawned ticks os =
    if (ticks % 20 == 0) && ltb (length os) obst_max
    then os ++ (record { lane = ticks % lanes; bottom = 0 } ∷ [])
    else os

pub tick_road : Road → Road
unfolding survivors any_on spawned
tick_road r =
    let os = spawned (r.ticks + 1) r.obstacles in
    let live = survivors os in
    record r {
      obstacles = live;
      score = r.score + 10 * (length os - length live);
      quit = r.quit || any_on r.lane live;
      ticks = r.ticks + 1;
    }

-- What the arrays hold.
pub view : Race → Road
view s = record {
  lane = s.lane;
  obstacles = take s.obst_n s.obst;
  score = s.score;
  quit = s.quit;
  ticks = s.ticks;
}
