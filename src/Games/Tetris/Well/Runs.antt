-- ===== src/Games/Tetris/Well/Runs.antt =====
-- Where the piece of Tetris can be in every game.
use asm_os.Prelude.{
  ℕ, ◌+◌, ◌-◌, ◌*◌, ◌<◌, ◌≤◌, ◌^◌, suc, length, ◌≡◌, refl, inl, inr, true, false, ◌==◌,
  if◌then◌else◌, Option, some, List, [], ◌∷◌, arith, Bool-cases, leb, ◌%◌,
}
use asm_os.Games.Tetris.{
  well_h, piece_num, drop_max, Board, Tetris, cells_of, blocked, any_blocked, tetris_collide,
  clear_rows, clear_fuel, enter, piece_of, next_piece, tetris_lock, tetris_init, lower, press,
  press_all, tetris_tick, tetris_run,
}
use asm_os.Games.Tetris.Lines.{line_count_le, line_count, rows}
use asm_os.Games.Tetris.Lines.Clearing.{clear_rows-Cleared, lock_result, locked, next_piece_score}
use native.Mathlib.Nat.{mul-le-mul}
use asm_os.Games.Tetris.Well.{
  in_well, IsColored, IsGame, collide-in_well, new_piece-in_well, put_cells-IsColored,
  clear_rows-IsColored,
}

-- The score of `s` stays below 2^31 for `n` more keys and ticks, of which each clears at most the
-- 20 rows of the board.
abbrev HasRoom : ℕ → Tetris → Type 0
HasRoom n s = s.score + 40000 * n < 2 ^ 31

module _ (board : Board) (n : ℕ) (s : Tetris) (all : IsColored board) (r : HasRoom 1 s)
    (k : n ≤ 20) where
  enter_lt : (enter board n s).piece < piece_num
  unfolding enter piece_of
  enter_lt = ground (arith, r, mul-le-mul k k)

  enter_inside : in_well 7 0 (cells_of (enter board n s).piece 0) ≡ true
  unfolding enter
  enter_inside = new_piece-in_well (enter board n s).piece enter_lt

  next_piece-IsGame : IsGame (next_piece board n s)
  unfolding next_piece enter tetris_collide
  next_piece-IsGame = elim (Bool-cases (tetris_collide 7 0 0 (enter board n s))) [
    | inl full ↦ rw full (record {
      piece_lt = enter_lt;
      rot_lt = omega arith;
      inside = enter_inside;
      no_overlap = λ q. absurd (cc q);
      colored = all;
    })
    | inr room ↦ rw room (record {
      piece_lt = enter_lt;
      rot_lt = omega arith;
      inside = enter_inside;
      no_overlap = λ q. room;
      colored = all;
    })
  ]

-- There is a result, and it is a game with room for `n` more keys and ticks.
PlaysOn : ℕ → Option Tetris → Type 0
PlaysOn n r = (t : Tetris) × (r ≡ some t) × IsGame t × HasRoom n t

-- There is a result, and it is a game.
pub Plays : Option Tetris → Type 0
Plays r = (t : Tetris) × (r ≡ some t) × IsGame t

module _ (more : ℕ) (s : Tetris) (w : IsGame s) (room_left : HasRoom (suc more) s) where
  locked-IsColored : IsColored (locked s)
  unfolding locked
  locked-IsColored =
      put_cells-IsColored (s.piece + 1) s.px s.py (cells_of s.piece s.rot) s.board
        (omega (arith, w.piece_lt)) w.colored

  tetris_lock-IsGame : PlaysOn more (tetris_lock s)
  unfolding PlaysOn
  tetris_lock-IsGame =
      let c =
        clear_rows-Cleared clear_fuel well_h 0 (locked s)
          (omega (arith, line_count_le well_h (locked s))) in
      let n = 0 + line_count (rows well_h (locked s)) in
      let few : n ≤ 20 = omega (arith, line_count_le well_h (locked s)) in
      let result : clear_rows clear_fuel well_h (locked s) 0 ≡ some (c.after, n) = c.result in
      let after-IsColored =
        clear_rows-IsColored clear_fuel well_h 0 (locked s) c.after n locked-IsColored result in
      (
        next_piece c.after n s,
        lock_result s c.after n result,
        next_piece-IsGame c.after n s after-IsColored (omega arith) few,
        omega (arith, room_left, next_piece_score c.after n s, mul-le-mul few few),
      )

  moved-IsGame :
      (x y rot : ℕ)
      → rot < 4
      → tetris_collide x y rot s ≡ false
      → IsGame (record s { px = x; py = y; rot = rot })
  unfolding tetris_collide
  moved-IsGame x y rot h room = record {
    piece_lt = w.piece_lt;
    rot_lt = h;
    inside = collide-in_well x y rot s room;
    no_overlap = λ q. room;
    colored = w.colored;
  }

  -- A move, if there is room for it.
  try-IsGame :
      (x y rot : ℕ)
      → rot < 4
      → PlaysOn more
          (some (if tetris_collide x y rot s then s else record s { px = x; py = y; rot = rot }))
  unfolding PlaysOn
  try-IsGame x y rot h = elim (Bool-cases (tetris_collide x y rot s)) [
    | inl taken ↦ rw taken (_, refl, w, omega (arith, room_left))
    | inr room ↦ rw room (_, refl, moved-IsGame x y rot h room, omega (arith, room_left))
  ]

  lower-IsGame : PlaysOn more (lower s)
  unfolding lower PlaysOn
  lower-IsGame = elim (Bool-cases (tetris_collide s.px (s.py + 1) s.rot s)) [
    | inl taken ↦ rw taken tetris_lock-IsGame
    | inr room ↦
        rw room
          (_, refl, moved-IsGame s.px (s.py + 1) s.rot w.rot_lt room, omega (arith, room_left))
  ]

  press-IsGame : (sc : ℕ) → PlaysOn more (press sc s)
  unfolding press PlaysOn
  press-IsGame sc = elim (Bool-cases (sc == 0x4B)) [
    | inl left ↦ rw left (try-IsGame (s.px - 1) s.py s.rot w.rot_lt)
    | inr not_left ↦ rw not_left (elim (Bool-cases (sc == 0x4D)) [
      | inl right ↦ rw right (try-IsGame (s.px + 1) s.py s.rot w.rot_lt)
      | inr not_right ↦ rw not_right (elim (Bool-cases (sc == 0x50)) [
        | inl down ↦ rw down lower-IsGame
        | inr not_down ↦ rw not_down (elim (Bool-cases (sc == 0x48)) [
          | inl turn ↦ rw turn (try-IsGame s.px s.py ((s.rot + 1) % 4) (omega arith))
          | inr other ↦ rw other (s, refl, w, omega (arith, room_left))
        ])
      ])
    ])
  ]

set_quit-IsGame : (s : Tetris) → IsGame s → IsGame (record s { quit = true })
set_quit-IsGame s w = record {
  piece_lt = w.piece_lt;
  rot_lt = w.rot_lt;
  inside = w.inside;
  no_overlap = λ q. absurd (cc q);
  colored = w.colored;
}

set_ticks-IsGame : (s : Tetris) (n : ℕ) → IsGame s → IsGame (record s { drop_ticks = n })
unfolding tetris_collide
set_ticks-IsGame s n w = record {
  piece_lt = w.piece_lt;
  rot_lt = w.rot_lt;
  inside = w.inside;
  no_overlap = w.no_overlap;
  colored = w.colored;
}

press_all-IsGame :
    (n : ℕ) (keys : List ℕ) (s : Tetris)
    → IsGame s
    → HasRoom (length keys + n) s
    → PlaysOn n (press_all keys s)
unfolding press_all PlaysOn
press_all-IsGame n [] s w h = (s, refl, w, omega arith)
press_all-IsGame n (sc ∷ keys) s w h = elim (Bool-cases (leb 0x80 sc)) [
  | inl release ↦ rw release (press_all-IsGame n keys s w (omega arith))
  | inr make ↦ rw make (elim (Bool-cases (sc == 0x01)) [
    | inl esc ↦ rw esc (_, refl, set_quit-IsGame s w, omega arith)
    | inr key ↦
        let one = press-IsGame (length keys + n) s w (omega arith) sc in
        rw (key, one.1) (press_all-IsGame n keys one.0 one.2 one.3)
  ])
]

tetris_tick-IsGame : (n : ℕ) (s : Tetris) → IsGame s → HasRoom (suc n) s → PlaysOn n (tetris_tick s)
unfolding tetris_tick PlaysOn
tetris_tick-IsGame n s w h = elim (Bool-cases (leb drop_max (s.drop_ticks + 1))) [
  | inl due ↦
      rw due
        (lower-IsGame n (record s { drop_ticks = 0 }) (set_ticks-IsGame s 0 w) (omega (arith, h)))
  | inr early ↦ rw early (_, refl, set_ticks-IsGame s (s.drop_ticks + 1) w, omega (arith, h))
]

-- The number of keys and ticks.
unfoldable pub events : List (List ℕ) → ℕ
events [] = 0
events (keys ∷ later) = length keys + suc (events later)

-- The game goes on from a good state whatever is pressed.
tetris_run-IsGame :
    (ticks : List (List ℕ)) (s : Tetris)
    → IsGame s
    → HasRoom (events ticks) s
    → Plays (tetris_run ticks s)
unfolding tetris_run Plays events PlaysOn
tetris_run-IsGame [] s w h = (s, refl, w)
tetris_run-IsGame (keys ∷ later) s w h = elim (Bool-cases s.quit) [
  | inl over ↦ simp over (s, refl, w)
  | inr on ↦
      let pressed = press_all-IsGame (suc (events later)) keys s w h in
      let ticked = tetris_tick-IsGame (events later) pressed.0 pressed.2 pressed.3 in
      simp on (rw (pressed.1, ticked.1) (tetris_run-IsGame later ticked.0 ticked.2 ticked.3))
]

tetris_init-score : tetris_init.score ≡ 0
unfolding tetris_init
tetris_init-score = refl

tetris_init-IsGame : IsGame tetris_init
unfolding tetris_init tetris_collide any_blocked blocked in_well IsColored
tetris_init-IsGame = record {
  piece_lt = omega arith;
  rot_lt = omega arith;
  inside = refl;
  no_overlap = λ q. refl;
  colored = λ i j. omega arith;
}

-- From the start of a game of Tetris and whatever keys are pressed before its ticks, the run gives a
-- state, for at most 53687 keys and ticks together, which keep the score below 2^31. The piece of
-- the state is one of the seven in one of the four rotations, has all its cells between the walls
-- and above the floor and, until the game is over, on no cell that is taken, and every cell of the
-- board is empty or has the number of a piece.
pub tetris_run-Plays :
    (ticks : List (List ℕ)) → events ticks ≤ 53687 → Plays (tetris_run ticks tetris_init)
tetris_run-Plays ticks h =
    tetris_run-IsGame ticks tetris_init tetris_init-IsGame (omega (arith, h, tetris_init-score))
