-- ===== src/Games/Snake/Board/Moves.antt =====
-- The moves of the snake, and its games.
use mathlib.Core.Path.{subst}
use asm_os.Prelude.{
  ℕ, zero, suc, ◌+◌, ◌-◌, ◌≤◌, ◌<◌, ◌≡◌, refl, sym, ap, ◌∙◌, ◌≢◌, inl, inr, true, false, ◌||◌, List,
  [], ◌∷◌, arith, ltb, Bool-cases, length, get_or, set, length-set, get_or-set_self, get_or-set_ne,
}
use asm_os.Prelude.Words.{u32}
use asm_os.Games.Snake.{
  right, max_len, Cell, corner, Snake, same_cell, is_on, snake_init, snake_place_food, step,
  is_wall, shift_segs, move_to, turn, snake_tick, press, press_all, snake_run,
}
use asm_os.Games.Snake.Board.{
  InBoard, score_max, Fits, IsGame, length-shift_segs, shift_segs-moved, is_on-false,
  place_food-IsGame,
}

-- The new segments of a move to `head`: they start there, and go on with the old ones.
record Follows (seg new : List Cell) (len : ℕ) (head : Cell) : Type 0 where
  pub first : get_or new 0 corner ≡ head
  pub later : (k : ℕ) → k < len → get_or new (suc k) corner ≡ get_or seg k corner

new_inside :
    (seg new : List Cell) (len : ℕ) (food head : Cell)
    → Fits seg len food
    → Follows seg new len head
    → InBoard head
    → (i : ℕ) → i < len + 1
    → InBoard (get_or new i corner)
new_inside seg new len food head w f in_board zero h = rw f.first in_board
new_inside seg new len food head w f in_board (suc i) h =
    rw (f.later i (omega arith)) (w.inside i (omega arith))

new_apart :
    (seg new : List Cell) (len : ℕ) (food head : Cell)
    → Fits seg len food
    → Follows seg new len head
    → ((k : ℕ) → k < len → get_or seg k corner ≢ head)
    → (i j : ℕ) → i < j
    → j < len + 1
    → get_or new i corner ≢ get_or new j corner
new_apart seg new len food head w f free i zero h b = absurd (omega arith)
new_apart seg new len food head w f free zero (suc j) h b =
    λ e. free j (omega arith) (sym (f.later j (omega arith)) ∙ sym e ∙ f.first)
new_apart seg new len food head w f free (suc i) (suc j) h b = λ e.
    w.apart i j (omega arith) (omega arith)
      (sym (f.later i (omega arith)) ∙ e ∙ f.later j (omega arith))

-- The segments after a move to a free cell, of which the first `len'` ones count.
moved-Fits :
    (seg : List Cell) (len len' : ℕ) (food head : Cell)
    → Fits seg len food
    → InBoard head
    → ((k : ℕ) → k < len → get_or seg k corner ≢ head)
    → 0 < len'
    → len' < max_len
    → len' ≤ len + 1
    → Fits (set (shift_segs len seg) 0 head) len' food
moved-Fits seg len len' food head w in_board free pos lt le =
    let shifted = shift_segs len seg in
    let new = set shifted 0 head in
    let room : 0 < length shifted = omega (arith, length-shift_segs len seg, w.size) in
    let follows : Follows seg new len head = record {
      first = get_or-set_self shifted 0 head corner room;
      later = λ k h.
          get_or-set_ne shifted 0 (suc k) head corner (omega arith)
          ∙ shift_segs-moved len k seg h (omega (arith, w.size, w.len_lt));
    } in
    record {
      size = length-set shifted 0 head ∙ length-shift_segs len seg ∙ w.size;
      len_pos = pos;
      len_lt = lt;
      inside = λ i h. new_inside seg new len food head w follows in_board i (omega arith);
      apart = λ i j h b. new_apart seg new len food head w follows free i j h (omega arith);
      food_inside = w.food_inside;
    }

move_to-IsGame :
    (head : Cell) (s : Snake)
    → IsGame s
    → s.score < score_max
    → InBoard head
    → ((k : ℕ) → k < s.len → get_or s.seg k corner ≢ head)
    → IsGame (move_to head s)
unfolding IsGame move_to
move_to-IsGame head s w h in_board free = elim (Bool-cases (same_cell head s.food)) [
  | inl eats ↦ elim (Bool-cases (ltb s.len (max_len - 1))) [
    | inl room ↦
        rw (eats, room)
          (place_food-IsGame
            (record s {
              seg = set (shift_segs s.len s.seg) 0 head;
              len = s.len + 1;
              score = u32 (s.score + 1);
            })
            s.food (omega arith)
            (moved-Fits s.seg s.len (s.len + 1) s.food head w in_board free (omega arith)
              (ground arith) (omega arith)))
    | inr long ↦
        rw (eats, long)
          (place_food-IsGame
            (record s { seg = set (shift_segs s.len s.seg) 0 head; score = u32 (s.score + 1) })
            s.food (omega arith)
            (moved-Fits s.seg s.len s.len s.food head w in_board free w.len_pos w.len_lt
              (omega arith)))
  ]
  | inr goes_on ↦
      rw goes_on
        (moved-Fits s.seg s.len s.len s.food head w in_board free w.len_pos w.len_lt (omega arith))
]

tick-lost :
    (s : Snake)
    → (is_wall (step (turn s).dir (get_or s.seg 0 corner))
        || is_on s.len s.seg (step (turn s).dir (get_or s.seg 0 corner)))
      ≡ true
    → snake_tick s ≡ record (turn s) { game_over = true }
unfolding snake_tick turn
tick-lost s h = rw h refl

tick-moves :
    (s : Snake)
    → (is_wall (step (turn s).dir (get_or s.seg 0 corner))
        || is_on s.len s.seg (step (turn s).dir (get_or s.seg 0 corner)))
      ≡ false
    → snake_tick s ≡ move_to (step (turn s).dir (get_or s.seg 0 corner)) (turn s)
unfolding snake_tick turn
tick-moves s h = rw h refl

turn-IsGame : (s : Snake) → IsGame s → IsGame (turn s)
unfolding IsGame turn
turn-IsGame s w = w

no_wall-InBoard : (c : Cell) → is_wall c ≡ false → InBoard c
unfolding is_wall
no_wall-InBoard c h = record {
  x_pos = ground arith;
  x_lt = ground arith;
  y_pos = ground arith;
  y_lt = ground arith;
}

tick-IsGame : (s : Snake) → IsGame s → s.score < score_max → IsGame (snake_tick s)
unfolding IsGame turn
tick-IsGame s w h =
    let head = step (turn s).dir (get_or s.seg 0 corner) in
    elim (Bool-cases (is_wall head || is_on s.len s.seg head)) [
      | inl lost ↦ rw (tick-lost s lost) (turn-IsGame s w)
      | inr free ↦
          let open_cell : is_wall head ≡ false = ground (arith, free) in
          let off : is_on s.len s.seg head ≡ false = ground (arith, free) in
          rw (tick-moves s free) (
            move_to-IsGame head (turn s) (turn-IsGame s w) h (no_wall-InBoard head open_cell)
              (is_on-false s.len s.seg head (omega (arith, w.size, w.len_lt)) off))
    ]

move_to_score : (head : Cell) (s : Snake) → (move_to head s).score ≤ s.score + 1
unfolding move_to snake_place_food
move_to_score head s = ground arith

tick_score : (s : Snake) → (snake_tick s).score ≤ s.score + 1
unfolding turn
tick_score s =
    let head = step (turn s).dir (get_or s.seg 0 corner) in
    elim (Bool-cases (is_wall head || is_on s.len s.seg head)) [
      | inl lost ↦ rw (tick-lost s lost) (omega arith)
      | inr free ↦ rw (tick-moves s free) (move_to_score head (turn s))
    ]

press_all_score : (keys : List ℕ) (s : Snake) → (press_all keys s).score ≡ s.score
unfolding press_all press
press_all_score [] s = refl
press_all_score (sc ∷ keys) s = press_all_score keys (press sc s)

press_all-IsGame : (keys : List ℕ) (s : Snake) → IsGame s → IsGame (press_all keys s)
unfolding IsGame press_all press
press_all-IsGame [] s w = w
press_all-IsGame (sc ∷ keys) s w = press_all-IsGame keys (press sc s) w

run-over :
    (keys : List ℕ) (turns : List (List ℕ)) (s : Snake)
    → s.game_over ≡ true
    → snake_run (keys ∷ turns) s ≡ s
unfolding snake_run
run-over keys turns s h = rw h refl

run-goes_on :
    (keys : List ℕ) (turns : List (List ℕ)) (s : Snake)
    → s.game_over ≡ false
    → snake_run (keys ∷ turns) s ≡ snake_run turns (snake_tick (press_all keys s))
unfolding snake_run
run-goes_on keys turns s h = rw h refl

run-none : (s : Snake) → IsGame s → IsGame (snake_run [] s)
unfolding snake_run
run-none s w = w

run-IsGame :
    (turns : List (List ℕ)) (s : Snake)
    → IsGame s
    → s.score + length turns ≤ score_max
    → IsGame (snake_run turns s)
run-IsGame [] s w h = run-none s w
run-IsGame (keys ∷ turns) s w h = elim (Bool-cases s.game_over) [
  | inl over ↦ subst IsGame (sym (run-over keys turns s over)) w
  | inr alive ↦
      let pressed = press_all keys s in
      let same : pressed.score ≡ s.score = press_all_score keys s in
      subst IsGame (sym (run-goes_on keys turns s alive)) (
        run-IsGame turns (snake_tick pressed)
          (tick-IsGame pressed (press_all-IsGame keys s w) (omega (arith, h, same)))
          (omega (arith, h, same, tick_score pressed)))
]

abbrev start : List Cell → List Cell
start seg =
    set (set (set seg 0 (record { x = 8; y = 5 })) 1 (record { x = 7; y = 5 })) 2
      (record { x = 6; y = 5 })

start-InBoard :
    (a b c : Cell) (seg : List Cell) (i : ℕ)
    → i < 3
    → InBoard (get_or (start (a ∷ b ∷ c ∷ seg)) i corner)
start-InBoard a b c seg zero h = record {
  x_pos = omega arith;
  x_lt = omega arith;
  y_pos = omega arith;
  y_lt = omega arith;
}
start-InBoard a b c seg (suc zero) h = record {
  x_pos = omega arith;
  x_lt = omega arith;
  y_pos = omega arith;
  y_lt = omega arith;
}
start-InBoard a b c seg (suc (suc zero)) h = record {
  x_pos = omega arith;
  x_lt = omega arith;
  y_pos = omega arith;
  y_lt = omega arith;
}
start-InBoard a b c seg (suc (suc (suc i))) h = absurd (omega arith)

start-x :
    (a b c : Cell) (seg : List Cell) (i : ℕ)
    → i < 3
    → (get_or (start (a ∷ b ∷ c ∷ seg)) i corner).x + i ≡ 8
start-x a b c seg zero h = omega arith
start-x a b c seg (suc zero) h = omega arith
start-x a b c seg (suc (suc zero)) h = omega arith
start-x a b c seg (suc (suc (suc i))) h = absurd (omega arith)

start-Fits : (seg : List Cell) → length seg ≡ max_len → Fits (start seg) 3 corner
start-Fits [] size = absurd (omega arith)
start-Fits (a ∷ []) size = absurd (omega arith)
start-Fits (a ∷ b ∷ []) size = absurd (omega arith)
start-Fits (a ∷ b ∷ c ∷ seg) size = record {
  size = size;
  len_pos = omega arith;
  len_lt = omega arith;
  inside = start-InBoard a b c seg;
  apart = λ i j h lt e.
      let same_x = ap (λ d. d.x) e in
      absurd (omega (arith, same_x, start-x a b c seg i (omega arith), start-x a b c seg j lt));
  food_inside = record {
    x_pos = omega arith;
    x_lt = omega arith;
    y_pos = omega arith;
    y_lt = omega arith;
  };
}

snake_init_score : (s : Snake) → (snake_init s).score ≡ 0
unfolding snake_init snake_place_food
snake_init_score s = refl

-- The snake in every game of up to 195000000 turns, which keep the products of the score below 2^31:
-- after `snake_init` on arrays of 64 entries, and the turns with any keys, the snake has between 1
-- and 63 segments, all inside the wall, no two of them on the same cell, and the food is inside the
-- wall.
pub snake_run-IsGame :
    (turns : List (List ℕ)) (s : Snake)
    → length s.seg ≡ max_len
    → length turns ≤ 195000000
    → IsGame (snake_run turns (snake_init s))
unfolding snake_init
snake_run-IsGame turns s size few =
    run-IsGame turns (snake_init s)
      (place_food-IsGame
        (record s {
          seg = start s.seg;
          len = 3;
          dir = right;
          next_dir = right;
          score = 0;
          game_over = false;
        })
        corner (omega arith) (start-Fits s.seg size))
      (omega (arith, few, snake_init_score s))
