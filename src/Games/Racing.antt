-- ===== src/Games/Racing.antt =====
-- game.c: Racing, the car that dodges obstacles on three lanes.
--
-- The coordinates are not negative but for the upper edge of an obstacle, which starts above the
-- screen: `bottom` is `race_obst_y + RACE_OBST_H`.
mod Road
mod Tests
use asm_os.Prelude.{
  ℕ, zero, suc, ◌+◌, ◌-◌, ◌*◌, ◌/◌, ◌%◌, Bool, true, false, ◌&&◌, ◌||◌, List, [], ◌∷◌, ltb, leb,
  ◌==◌, if◌then◌else◌, get_or, set,
}

abbrev pub lanes : ℕ
lanes = 3

abbrev pub lane_w : ℕ
lane_w = 320 / lanes

abbrev pub obst_w : ℕ
obst_w = 30

abbrev pub obst_h : ℕ
obst_h = 25

abbrev pub car_w : ℕ
car_w = 24

abbrev pub car_h : ℕ
car_h = 35

abbrev pub race_scroll : ℕ
race_scroll = 3

abbrev pub obst_max : ℕ
obst_max = 4

-- `VIDEO_HEIGHT`.
abbrev pub road_end : ℕ
road_end = 200

-- An entry of the two arrays of obstacles.
pub record Obstacle : Type 0 where
  pub lane : ℕ
  pub bottom : ℕ

abbrev pub no_obstacle : Obstacle
no_obstacle = record { lane = 0; bottom = 0 }

pub record Race : Type 0 where
  pub lane : ℕ
  pub obst : List Obstacle
  pub obst_n : ℕ
  pub score : ℕ
  pub quit : Bool
  pub ticks : ℕ

pub racing_init : Race → Race
racing_init s = record s { lane = 1; obst_n = 0; score = 0; quit = false; ticks = 0 }

pub racing_spawn_obstacle : Race → Race
racing_spawn_obstacle s = if leb obst_max s.obst_n then s else record s {
  obst = set s.obst s.obst_n (record { lane = s.ticks % lanes; bottom = 0 });
  obst_n = s.obst_n + 1;
}

-- The loop that closes the gap at `j`, with the number of its rounds left.
pub close_gap : ℕ → ℕ → List Obstacle → List Obstacle
close_gap zero j obst = obst
close_gap (suc n) j obst = close_gap n (j + 1) (set obst j (get_or obst (j + 1) no_obstacle))

-- `race_obst_y[i] > VIDEO_HEIGHT`
pub is_past : Obstacle → Bool
is_past o = ltb (road_end + obst_h) o.bottom

pub move_down : Obstacle → Obstacle
move_down o = record o { bottom = o.bottom + race_scroll }

-- The loop over the obstacles, at `i`. Each round takes one off `race_obst_n - i`, which is the
-- first argument.
pub scroll_obstacles : ℕ → ℕ → Race → Race
unfolding close_gap is_past move_down
scroll_obstacles zero i s = s
scroll_obstacles (suc rest) i s =
    let o = move_down (get_or s.obst i no_obstacle) in
    let moved = set s.obst i o in
    elim (is_past o) [
      | true ↦
          scroll_obstacles rest i (record s {
            obst = close_gap rest i moved;
            obst_n = s.obst_n - 1;
            score = s.score + 10;
          })
      | false ↦ scroll_obstacles rest (i + 1) (record s { obst = moved })
    ]

pub race_car_center_x : ℕ → ℕ
race_car_center_x lane = lane * lane_w + lane_w / 2

-- The test of an obstacle against the car in the given lane.
pub hits : ℕ → Obstacle → Bool
unfolding race_car_center_x
hits lane o =
    let car_cx = race_car_center_x lane in
    let car_y : ℕ = road_end - car_h - 15 in
    let ox = o.lane * lane_w + lane_w / 2 - obst_w / 2 in
    if ltb o.bottom car_y || ltb (car_y + car_h + obst_h) o.bottom
    then false
    else ltb ox (car_cx + car_w / 2) && ltb (car_cx - car_w / 2) (ox + obst_w)

-- The loop that compares the first `n` obstacles with the car.
pub any_hits : ℕ → ℕ → List Obstacle → Bool
unfolding hits
any_hits zero lane obst = false
any_hits (suc n) lane [] = false
any_hits (suc n) lane (o ∷ obst) = hits lane o || any_hits n lane obst

pub racing_tick : Race → Race
unfolding racing_spawn_obstacle scroll_obstacles any_hits
racing_tick s =
    let t : Race = record s { ticks = s.ticks + 1 } in
    let u = if t.ticks % 20 == 0 then racing_spawn_obstacle t else t in
    let v = scroll_obstacles u.obst_n 0 u in
    record v { quit = v.quit || any_hits v.obst_n v.lane v.obst }

-- What `racing_run` does with a scan code.
pub press : ℕ → Race → Race
press sc s =
    if leb 0x80 sc
    then s
    else if sc == 0x01
    then record s { quit = true }
    else if (sc == 0x4B) && ltb 0 s.lane
    then record s { lane = s.lane - 1 }
    else if (sc == 0x4D) && ltb s.lane (lanes - 1)
    then record s { lane = s.lane + 1 }
    else s

-- The scan codes are read until the one that quits.
pub press_all : List ℕ → Race → Race
press_all [] s = s
press_all (sc ∷ keys) s = elim (sc == 0x01) [
  | true ↦ press sc s
  | false ↦ press_all keys (press sc s)
]

-- The loop of `racing_run`, for the scan codes that come before each of its ticks.
pub racing_run : List (List ℕ) → Race → Race
unfolding racing_tick press_all
racing_run [] s = s
racing_run (keys ∷ later) s =
    let rest = racing_run later (racing_tick (press_all keys s)) in if s.quit then s else rest
