-- ===== src/Games/Tetris/Well.antt =====
-- The well of Tetris.
pub mod Runs
use asm_os.Prelude.{
  ℕ, zero, suc, ◌+◌, ◌-◌, ◌≤◌, ◌<◌, ◌≡◌, refl, sym, ◌∙◌, inl, inr, Bool, true, false, ◌&&◌, some,
  List, [], ◌∷◌, arith, Bool-cases, ltb, leb,
}
use asm_os.Games.Tetris.{
  well_w, well_h, piece_num, Board, Tetris, cells_of, blocked, any_blocked, tetris_collide,
  set_cell, put_cells, copy_row, blank_row, shift_rows, clear_rows, is_full,
}
use asm_os.Games.Tetris.Lines.{drop_rows}
use asm_os.Games.Tetris.Lines.Clearing.{clear_full, clear_gap}

-- Whether the cells of a piece at a place are between the walls and above the floor.
pub in_well : ℕ → ℕ → List (ℕ × ℕ) → Bool
in_well x y [] = true
in_well x y ((dx, dy) ∷ cs) =
    leb 4 (x + dx) && ltb (x + dx) (well_w + 4) && ltb (y + dy) (well_h + 2) && in_well x y cs

-- Every cell of the board is empty or has the color of one of the pieces.
pub IsColored : Board → Type 0
IsColored b = (i j : ℕ) → b i j ≤ piece_num

pub record IsGame (s : Tetris) : Type 0 where
  pub piece_lt : s.piece < piece_num
  pub rot_lt : s.rot < 4
  pub inside : in_well s.px s.py (cells_of s.piece s.rot) ≡ true
  pub no_overlap : s.quit ≡ false → tetris_collide s.px s.py s.rot s ≡ false
  pub colored : IsColored s.board

any_blocked-in_well :
    (b : Board) (x y : ℕ) (cs : List (ℕ × ℕ)) → any_blocked b x y cs ≡ false → in_well x y cs ≡ true
unfolding any_blocked blocked in_well
any_blocked-in_well b x y [] h = refl
any_blocked-in_well b x y (c ∷ cs) h =
    let rest : any_blocked b x y cs ≡ false = ground (arith, h) in
    let inside = any_blocked-in_well b x y cs rest in rw inside (ground (arith, h))

pub collide-in_well :
    (x y rot : ℕ) (s : Tetris)
    → tetris_collide x y rot s ≡ false
    → in_well x y (cells_of s.piece rot) ≡ true
unfolding tetris_collide
collide-in_well x y rot s h = any_blocked-in_well s.board x y (cells_of s.piece rot) h

-- A new piece is between the walls, whichever it is.
pub new_piece-in_well : (p : ℕ) → p < piece_num → in_well 7 0 (cells_of p 0) ≡ true
unfolding in_well
new_piece-in_well zero h = refl
new_piece-in_well (suc zero) h = refl
new_piece-in_well (suc (suc zero)) h = refl
new_piece-in_well (suc (suc (suc zero))) h = refl
new_piece-in_well (suc (suc (suc (suc zero)))) h = refl
new_piece-in_well (suc (suc (suc (suc (suc zero))))) h = refl
new_piece-in_well (suc (suc (suc (suc (suc (suc zero)))))) h = refl
new_piece-in_well (suc (suc (suc (suc (suc (suc (suc p))))))) h = absurd (omega arith)

set_cell-IsColored :
    (b : Board) (x y v : ℕ) → v ≤ piece_num → IsColored b → IsColored (set_cell b x y v)
unfolding IsColored set_cell
set_cell-IsColored b x y v h all i j = ground (arith, h, all i j)

pub put_cells-IsColored :
    (v x y : ℕ) (cs : List (ℕ × ℕ)) (b : Board)
    → v ≤ piece_num
    → IsColored b
    → IsColored (put_cells v x y cs b)
unfolding put_cells
put_cells-IsColored v x y [] b h all = all
put_cells-IsColored v x y ((dx, dy) ∷ cs) b h all =
    elim (Bool-cases (leb 2 (y + dy) && ltb (y + dy) (well_h + 2))) [
      | inl on ↦ rw on (
          put_cells-IsColored v x y cs (set_cell b (x + dx - 4) (y + dy - 2) v) h
            (set_cell-IsColored b (x + dx - 4) (y + dy - 2) v h all))
      | inr off ↦ rw off (put_cells-IsColored v x y cs b h all)
    ]

copy_row-IsColored : (n r : ℕ) (b : Board) → IsColored b → IsColored (copy_row n r b)
unfolding copy_row IsColored
copy_row-IsColored zero r b all = all
copy_row-IsColored (suc n) r b all =
    copy_row-IsColored n r (set_cell b n r (b n (r - 1)))
      (set_cell-IsColored b n r (b n (r - 1)) (all n (r - 1)) all)

blank_row-IsColored : (n : ℕ) (b : Board) → IsColored b → IsColored (blank_row n b)
unfolding blank_row
blank_row-IsColored zero b all = all
blank_row-IsColored (suc n) b all =
    blank_row-IsColored n (set_cell b n 0 0) (set_cell-IsColored b n 0 0 (omega arith) all)

shift_rows-IsColored : (r : ℕ) (b : Board) → IsColored b → IsColored (shift_rows r b)
unfolding shift_rows
shift_rows-IsColored zero b all = all
shift_rows-IsColored (suc r) b all =
    shift_rows-IsColored r (copy_row well_w (suc r) b) (copy_row-IsColored well_w (suc r) b all)

drop_rows-IsColored : (r : ℕ) (b : Board) → IsColored b → IsColored (drop_rows r b)
unfolding drop_rows
drop_rows-IsColored r b all =
    blank_row-IsColored well_w (shift_rows r b) (shift_rows-IsColored r b all)

-- The result of an optional state, if there is one, is as `P` says.
pub clear_rows-IsColored :
    (fuel k cleared : ℕ) (b after : Board) (n : ℕ)
    → IsColored b
    → clear_rows fuel k b cleared ≡ some (after, n)
    → IsColored after
unfolding clear_rows IsColored
clear_rows-IsColored zero k cleared b after n all e = absurd (cc e)
clear_rows-IsColored (suc fuel) zero cleared b after n all e =
    let same : b ≡ after = cc e in λ i j. rw (sym same) (all i j)
clear_rows-IsColored (suc fuel) (suc row) cleared b after n all e =
    elim (Bool-cases (is_full well_w row b)) [
      | inl line ↦
          clear_rows-IsColored fuel (suc row) (cleared + 1) (drop_rows row b) after n
            (drop_rows-IsColored row b all) (sym (clear_full row b fuel cleared line) ∙ e)
      | inr gap ↦
          clear_rows-IsColored fuel row cleared b after n all
            (sym (clear_gap row b fuel cleared gap) ∙ e)
    ]
