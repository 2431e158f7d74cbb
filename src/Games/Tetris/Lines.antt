-- ===== src/Games/Tetris/Lines.antt =====
-- The cleared lines of Tetris.
pub mod Clearing
use asm_os.Prelude.{
  ℕ, zero, suc, ◌+◌, ◌-◌, ◌≤◌, ◌<◌, ◌≡◌, refl, ap, ◌∙◌, ◌≢◌, inl, inr, Bool, true, not, ◌&&◌, ◌==◌,
  if◌then◌else◌, List, [], ◌∷◌, ◌++◌, arith, Bool-cases, ℕ_discrete, replicate,
}
use asm_os.Games.Tetris.{well_w, Board, set_cell, is_full, copy_row, blank_row, shift_rows}

-- The first `n` cells of a row.
pub row_cells : ℕ → ℕ → Board → List ℕ
row_cells zero r b = []
row_cells (suc n) r b = b n r ∷ row_cells n r b

-- The rows above the row `k`, the lowest one first.
pub rows : ℕ → Board → List (List ℕ)
unfolding row_cells
rows zero b = []
rows (suc r) b = row_cells well_w r b ∷ rows r b

pub is_line : List ℕ → Bool
is_line [] = true
is_line (c ∷ cs) = is_line cs && not (c == 0)

-- The rows that have a gap.
pub gapped : List (List ℕ) → List (List ℕ)
unfolding is_line
gapped [] = []
gapped (r ∷ rs) = if is_line r then gapped rs else r ∷ gapped rs

pub line_count : List (List ℕ) → ℕ
unfolding is_line
line_count [] = 0
line_count (r ∷ rs) = if is_line r then suc (line_count rs) else line_count rs

abbrev pub blank : List ℕ
blank = replicate well_w 0

set_cell_self : (b : Board) (x y v : ℕ) → set_cell b x y v x y ≡ v
unfolding set_cell
set_cell_self b x y v = ground arith

set_cell_col : (b : Board) (x y v i j : ℕ) → i ≢ x → set_cell b x y v i j ≡ b i j
unfolding set_cell
set_cell_col b x y v i j h = ground (arith, h)

set_cell_row : (b : Board) (x y v i j : ℕ) → j ≢ y → set_cell b x y v i j ≡ b i j
unfolding set_cell
set_cell_row b x y v i j h = ground (arith, h)

copy_row_other : (n r : ℕ) (b : Board) (i j : ℕ) → j ≢ r → copy_row n r b i j ≡ b i j
unfolding copy_row
copy_row_other zero r b i j h = refl
copy_row_other (suc n) r b i j h =
    copy_row_other n r (set_cell b n r (b n (r - 1))) i j h ∙ set_cell_row b n r (b n (r - 1)) i j h

copy_row_right : (n r : ℕ) (b : Board) (i : ℕ) → n ≤ i → copy_row n r b i r ≡ b i r
unfolding copy_row
copy_row_right zero r b i h = refl
copy_row_right (suc n) r b i h =
    copy_row_right n r (set_cell b n r (b n (r - 1))) i (omega arith)
    ∙ set_cell_col b n r (b n (r - 1)) i r (omega arith)

copy_row_copies : (n r : ℕ) (b : Board) (i : ℕ) → i < n → copy_row n (suc r) b i (suc r) ≡ b i r
unfolding copy_row
copy_row_copies zero r b i h = absurd (omega arith)
copy_row_copies (suc n) r b i h =
    let v = b n (suc r - 1) in
    let above : suc r - 1 ≡ r = omega arith in
    elim (ℕ_discrete i n) [
      | yes e ↦ rw e (
          copy_row_right n (suc r) (set_cell b n (suc r) v) n (omega arith)
          ∙ set_cell_self b n (suc r) v
          ∙ ap (b n) above)
      | no differ ↦
          copy_row_copies n r (set_cell b n (suc r) v) i (omega (arith, differ))
          ∙ set_cell_col b n (suc r) v i r differ
    ]

shift_rows_below : (r : ℕ) (b : Board) (i j : ℕ) → r < j → shift_rows r b i j ≡ b i j
unfolding shift_rows
shift_rows_below zero b i j h = refl
shift_rows_below (suc r) b i j h =
    shift_rows_below r (copy_row well_w (suc r) b) i j (omega arith)
    ∙ copy_row_other well_w (suc r) b i j (omega arith)

shift_rows_shifts :
    (r : ℕ) (b : Board) (i j : ℕ) → i < well_w → j < r → shift_rows r b i (suc j) ≡ b i j
unfolding shift_rows
shift_rows_shifts zero b i j lt h = absurd (omega arith)
shift_rows_shifts (suc r) b i j lt h = elim (ℕ_discrete j r) [
  | yes e ↦ rw e (
      shift_rows_below r (copy_row well_w (suc r) b) i (suc r) (omega arith)
      ∙ copy_row_copies well_w r b i lt)
  | no differ ↦
      shift_rows_shifts r (copy_row well_w (suc r) b) i j lt (omega (arith, differ))
      ∙ copy_row_other well_w (suc r) b i j (omega arith)
]

blank_row_other : (n : ℕ) (b : Board) (i j : ℕ) → j ≢ 0 → blank_row n b i j ≡ b i j
unfolding blank_row
blank_row_other zero b i j h = refl
blank_row_other (suc n) b i j h =
    blank_row_other n (set_cell b n 0 0) i j h ∙ set_cell_row b n 0 0 i j h

blank_row_right : (n : ℕ) (b : Board) (i : ℕ) → n ≤ i → blank_row n b i 0 ≡ b i 0
unfolding blank_row
blank_row_right zero b i h = refl
blank_row_right (suc n) b i h =
    blank_row_right n (set_cell b n 0 0) i (omega arith) ∙ set_cell_col b n 0 0 i 0 (omega arith)

blank_row_blanks : (n : ℕ) (b : Board) (i : ℕ) → i < n → blank_row n b i 0 ≡ 0
unfolding blank_row
blank_row_blanks zero b i h = absurd (omega arith)
blank_row_blanks (suc n) b i h = elim (ℕ_discrete i n) [
  | yes e ↦ rw e (blank_row_right n (set_cell b n 0 0) n (omega arith) ∙ set_cell_self b n 0 0)
  | no differ ↦ blank_row_blanks n (set_cell b n 0 0) i (omega (arith, differ))
]

-- Clearing the row `r`: the rows above it come down by one, and a blank one comes on top.
unfoldable pub drop_rows : ℕ → Board → Board
drop_rows r b = blank_row well_w (shift_rows r b)

pub row_cells_same :
    (n r r' : ℕ) (b b' : Board)
    → ((i : ℕ) → i < n → b i r ≡ b' i r')
    → row_cells n r b ≡ row_cells n r' b'
unfolding row_cells
row_cells_same zero r r' b b' h = refl
row_cells_same (suc n) r r' b b' h =
    rw (h n (omega arith))
      (ap (λ l. b' n r' ∷ l) (row_cells_same n r r' b b' (λ i lt. h i (omega arith))))

row_cells_blank :
    (n r : ℕ) (b : Board) → ((i : ℕ) → i < n → b i r ≡ 0) → row_cells n r b ≡ replicate n 0
unfolding row_cells
row_cells_blank zero r b h = refl
row_cells_blank (suc n) r b h =
    rw (h n (omega arith)) (ap (λ l. 0 ∷ l) (row_cells_blank n r b (λ i lt. h i (omega arith))))

pub drop_rows_below : (r : ℕ) (b : Board) (i j : ℕ) → r < j → drop_rows r b i j ≡ b i j
unfolding drop_rows
drop_rows_below r b i j h =
    blank_row_other well_w (shift_rows r b) i j (omega arith) ∙ shift_rows_below r b i j h

pub rows-drop_rows :
    (k r : ℕ) (b : Board) → k ≤ r → rows (suc k) (drop_rows r b) ≡ rows k b ++ (blank ∷ [])
unfolding rows drop_rows
rows-drop_rows zero r b h =
    ap (λ l. l ∷ [])
      (row_cells_blank well_w 0 (drop_rows r b)
        (λ i lt. blank_row_blanks well_w (shift_rows r b) i lt))
rows-drop_rows (suc k) r b h =
    rw
      (row_cells_same well_w (suc k) k (drop_rows r b) b (λ i lt.
        blank_row_other well_w (shift_rows r b) i (suc k) (omega arith)
        ∙ shift_rows_shifts r b i k lt h))
      (ap (λ l. row_cells well_w k b ∷ l) (rows-drop_rows k r b (omega arith)))

pub is_full-is_line : (n r : ℕ) (b : Board) → is_full n r b ≡ is_line (row_cells n r b)
unfolding is_full is_line row_cells
is_full-is_line zero r b = refl
is_full-is_line (suc n) r b = ap (λ t. t && not (b n r == 0)) (is_full-is_line n r b)

pub gapped-blank : (l : List (List ℕ)) → gapped (l ++ (blank ∷ [])) ≡ gapped l ++ (blank ∷ [])
unfolding gapped is_line
gapped-blank [] = refl
gapped-blank (r ∷ l) = elim (Bool-cases (is_line r)) [
  | inl line ↦ rw line (gapped-blank l)
  | inr gap ↦ rw gap (ap (λ t. r ∷ t) (gapped-blank l))
]

pub line_count-blank : (l : List (List ℕ)) → line_count (l ++ (blank ∷ [])) ≡ line_count l
unfolding line_count is_line
line_count-blank [] = refl
line_count-blank (r ∷ l) = elim (Bool-cases (is_line r)) [
  | inl line ↦ rw line (ap suc (line_count-blank l))
  | inr gap ↦ rw gap (line_count-blank l)
]

pub line_count_le : (k : ℕ) (b : Board) → line_count (rows k b) ≤ k
unfolding rows line_count
line_count_le zero b = omega arith
line_count_le (suc k) b = ground (arith, line_count_le k b)
