-- ===== src/Games/Tetris/Lines/Clearing.antt =====
-- The loop of Tetris that clears the full lines, and the lock of a piece.
use asm_os.Prelude.{
  ℕ, zero, suc, ◌+◌, ◌*◌, ◌≤◌, ◌<◌, ◌≡◌, refl, sym, ap, ◌∙◌, inl, inr, true, false, Option, some,
  List, [], ◌∷◌, ◌++◌, arith, Bool-cases, replicate, append_assoc,
}
use asm_os.Prelude.Words.{u32}
use asm_os.Games.Tetris.{
  well_w, well_h, Board, Tetris, cells_of, put_cells, enter, next_piece, tetris_lock, is_full,
  clear_rows, clear_fuel,
}
use asm_os.Games.Tetris.Lines.{
  row_cells, rows, gapped, line_count, blank, drop_rows, row_cells_same, drop_rows_below,
  rows-drop_rows, is_full-is_line, gapped-blank, line_count-blank, line_count_le,
}

-- What the loop over the rows gives, from the row `k - 1` up.
pub record Cleared (k : ℕ) (b : Board) (cleared : ℕ) (r : Option (Board × ℕ)) : Type 0 where
  pub after : Board
  pub result : r ≡ some (after, cleared + line_count (rows k b))
  pub above : rows k after ≡ gapped (rows k b) ++ replicate (line_count (rows k b)) blank
  pub below : (i j : ℕ) → k ≤ j → after i j ≡ b i j

blank_shift :
    (l m : List (List ℕ)) (n : ℕ)
    → l ≡ m ++ (blank ∷ [])
    → gapped l ++ replicate (line_count l) blank ≡ gapped m ++ replicate (suc (line_count m)) blank
blank_shift l m n e =
    rw (e, gapped-blank m, line_count-blank m)
      (append_assoc (gapped m) (blank ∷ []) (replicate (line_count m) blank))

module _ (row : ℕ) (b : Board) where
  rows_count_line :
      is_full well_w row b ≡ true → line_count (rows (suc row) b) ≡ suc (line_count (rows row b))
  unfolding rows line_count
  rows_count_line h = rw (sym (is_full-is_line well_w row b), h) refl

  rows_count_gap :
      is_full well_w row b ≡ false → line_count (rows (suc row) b) ≡ line_count (rows row b)
  unfolding rows line_count
  rows_count_gap h = rw (sym (is_full-is_line well_w row b), h) refl

  rows_line : is_full well_w row b ≡ true → gapped (rows (suc row) b) ≡ gapped (rows row b)
  unfolding rows gapped
  rows_line h = rw (sym (is_full-is_line well_w row b), h) refl

  rows_gap :
      is_full well_w row b ≡ false
      → gapped (rows (suc row) b) ≡ row_cells well_w row b ∷ gapped (rows row b)
  unfolding rows gapped
  rows_gap h = rw (sym (is_full-is_line well_w row b), h) refl

  rows-suc : rows (suc row) b ≡ row_cells well_w row b ∷ rows row b
  unfolding rows
  rows-suc = refl

  pub clear_full :
      (fuel cleared : ℕ)
      → is_full well_w row b ≡ true
      → clear_rows (suc fuel) (suc row) b cleared
        ≡ clear_rows fuel (suc row) (drop_rows row b) (cleared + 1)
  unfolding clear_rows drop_rows
  clear_full fuel cleared h = rw (clear_rows, h) refl

  pub clear_gap :
      (fuel cleared : ℕ)
      → is_full well_w row b ≡ false
      → clear_rows (suc fuel) (suc row) b cleared ≡ clear_rows fuel row b cleared
  unfolding clear_rows
  clear_gap fuel cleared h = rw (clear_rows, h) refl

clear_rows-zero :
    (fuel cleared : ℕ) (b : Board) → clear_rows (suc fuel) zero b cleared ≡ some (b, cleared)
unfolding clear_rows
clear_rows-zero fuel cleared b = refl

rows-zero : (b : Board) → rows zero b ≡ []
unfolding rows
rows-zero b = refl

Cleared-zero :
    (fuel cleared : ℕ) (b : Board) → Cleared zero b cleared (clear_rows (suc fuel) zero b cleared)
unfolding rows gapped line_count
Cleared-zero fuel cleared b = record {
  after = b;
  result = clear_rows-zero fuel cleared b ∙ ap (λ n. some (b, n)) (omega arith);
  above = refl;
  below = λ i j h. refl;
}

pub clear_rows-Cleared :
    (fuel k cleared : ℕ) (b : Board)
    → k + line_count (rows k b) < fuel
    → Cleared k b cleared (clear_rows fuel k b cleared)
clear_rows-Cleared zero k cleared b h = absurd (omega arith)
clear_rows-Cleared (suc fuel) zero cleared b h = Cleared-zero fuel cleared b
clear_rows-Cleared (suc fuel) (suc row) cleared b h = elim (Bool-cases (is_full well_w row b)) [
  | inl line ↦
      let count = rows_count_line row b line in
      let down = rows-drop_rows row row b (omega arith) in
      let same : line_count (rows (suc row) (drop_rows row b)) ≡ line_count (rows row b) =
        ap line_count down ∙ line_count-blank (rows row b) in
      let rest =
        clear_rows-Cleared fuel (suc row) (cleared + 1) (drop_rows row b)
          (omega (arith, h, count, same)) in
      record {
        after = rest.after;
        result =
            clear_full row b fuel cleared line
            ∙ rest.result
            ∙ ap (λ n. some (rest.after, n)) (omega (arith, count, same));
        above =
            rest.above
            ∙ blank_shift (rows (suc row) (drop_rows row b)) (rows row b) 0 down
            ∙ rw (count, rows_line row b line) refl;
        below = λ i j lt. rest.below i j lt ∙ drop_rows_below row b i j (omega arith);
      }
  | inr gap ↦
      let count = rows_count_gap row b gap in
      let rest = clear_rows-Cleared fuel row cleared b (omega (arith, h, count)) in
      record {
        after = rest.after;
        result =
            clear_gap row b fuel cleared gap
            ∙ rest.result
            ∙ ap (λ n. some (rest.after, n)) (omega (arith, count));
        above =
            rows-suc row rest.after
            ∙ rw
                (
                  row_cells_same well_w row row rest.after b
                      (λ i lt. rest.below i row (omega arith)),
                  rest.above,
                  rows_gap row b gap,
                  count,
                )
                refl;
        below = λ i j lt. rest.below i j (omega arith);
      }
]

-- The board with the cells of the piece on it.
unfoldable pub locked : Tetris → Board
unfolding put_cells
locked s = put_cells (s.piece + 1) s.px s.py (cells_of s.piece s.rot) s.board

-- What the lock of a piece gives, where `n` rows are full.
pub record LockClears (s t : Tetris) (n : ℕ) : Type 0 where
  pub locks : tetris_lock s ≡ some t
  pub board_rows : rows well_h t.board ≡ gapped (rows well_h (locked s)) ++ replicate n blank
  pub lines_added : t.lines ≡ u32 (s.lines + n)
  pub score_added : t.score ≡ u32 (s.score + n * n * 100)

module _ (board : Board) (n : ℕ) (s : Tetris) where
  next_piece_board : (next_piece board n s).board ≡ board
  unfolding next_piece enter
  next_piece_board = ground arith

  next_piece_lines : (next_piece board n s).lines ≡ u32 (s.lines + n)
  unfolding next_piece enter
  next_piece_lines = ground arith

  pub next_piece_score : (next_piece board n s).score ≡ u32 (s.score + n * n * 100)
  unfolding next_piece enter
  next_piece_score = ground arith

pub lock_result :
    (s : Tetris) (b : Board) (n : ℕ)
    → clear_rows clear_fuel well_h (locked s) 0 ≡ some (b, n)
    → tetris_lock s ≡ some (next_piece b n s)
unfolding tetris_lock locked
lock_result s b n h = rw (tetris_lock, h) refl

-- The lock of a piece always comes to its end. It takes the full rows, as many as `line_count` has
-- of them, out of the board with the piece on it, keeps the other rows in their order and puts
-- blank rows on top. In 32 bits, the lines grow by the number of these rows, and the score by a
-- hundred times its square.
pub tetris_lock-clears :
    (s : Tetris) → (t : Tetris) × LockClears s t (line_count (rows well_h (locked s)))
tetris_lock-clears s =
    let n = line_count (rows well_h (locked s)) in
    let c =
      clear_rows-Cleared clear_fuel well_h 0 (locked s)
        (omega (arith, line_count_le well_h (locked s))) in
    let t = next_piece c.after n s in
    (
      t,
      record {
        locks = lock_result s c.after n (c.result ∙ ap (λ k. some (c.after, k)) (omega arith));
        board_rows = ap (rows well_h) (next_piece_board c.after n s) ∙ c.above;
        lines_added = next_piece_lines c.after n s;
        score_added = next_piece_score c.after n s;
      },
    )
