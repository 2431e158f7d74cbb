-- ===== src/Console/Paper.antt =====
-- The screen of kernel.c against a paper without an end, of which it shows the last lines.
use asm_os.Prelude.{
  ℕ, ◌+◌, ◌*◌, ◌≤◌, ◌<◌, ◌≡◌, refl, sym, ap, ◌∙◌, ◌≢◌, inl, inr, true, false, ◌&&◌, List, [], ◌∷◌,
  arith, ℕ_discrete, ltb, leb, ◌==◌, if◌then◌else◌, Bool-cases, length, get_or, set, length-set,
  get_or-set_self, get_or-set_ne,
}
use asm_os.Console.{
  vga_height, default_color, Console, cell, move_up, scroll, write_char, kprint_char_color,
  kprint_char, putchar, kprint, kprint_color, clear_screen,
}
use asm_os.Console.Scrolling.{length-blank, get_or-blank, length-move_up, get_or-move_up}

abbrev space : ℕ
space = cell default_color b' '

-- A paper with 80 columns: a mark in each place, and the place of the next mark.
pub record Paper : Type 0 where
  pub mark : ℕ → ℕ
  pub row : ℕ
  pub col : ℕ

pub type_mark : ℕ → ℕ → Paper → Paper
type_mark color c p =
    let marks : ℕ → ℕ = λ i. if i == p.row * 80 + p.col then cell color c else p.mark i in
    if leb 80 (p.col + 1)
    then record { mark = marks; row = p.row + 1; col = 0 }
    else record { mark = marks; row = p.row; col = p.col + 1 }

pub type_char : ℕ → ℕ → Paper → Paper
unfolding type_mark
type_char color c p =
    if c == b'\n' then record p { row = p.row + 1; col = 0 } else type_mark color c p

pub type_text : ℕ → List ℕ → Paper → Paper
unfolding type_char
type_text color [] p = p
type_text color (c ∷ str) p = type_text color str (type_char color c p)

-- The screen shows the 25 lines of the paper that stand `over` lines below its top, and what
-- follows them on the paper is blank.
pub record ShowsAt (over rows : ℕ) (s : Console) (p : Paper) : Type 0 where
  pub size : length s.vga_buffer ≡ 2000
  pub row : p.row ≡ over + s.cursor_row
  pub col : p.col ≡ s.cursor_col
  pub row_le : s.cursor_row < rows
  pub col_le : s.cursor_col < 80
  pub cells : (k : ℕ) → k < 2000 → get_or s.vga_buffer k 0 ≡ p.mark (over * 80 + k)
  pub below : (k : ℕ) → 2000 ≤ k → p.mark (over * 80 + k) ≡ space

pub Shows : Console → Paper → Type 0
Shows s p = (over : ℕ) × ShowsAt over 25 s p

scroll-moves :
    (s : Console)
    → leb vga_height s.cursor_row ≡ true
    → scroll s ≡ record s { vga_buffer = move_up s.vga_buffer; cursor_row = 24 }
unfolding scroll
scroll-moves s h = rw h refl

scroll-stays : (s : Console) → leb vga_height s.cursor_row ≡ false → scroll s ≡ s
unfolding scroll
scroll-stays s h = rw h refl

later : (over k : ℕ) → (over + 1) * 80 + k ≡ over * 80 + (k + 80)
later over k = omega arith

shown_below :
    (over rows : ℕ) (s : Console) (p : Paper)
    → ShowsAt over rows s p
    → (k : ℕ)
    → (if ltb k 1920 then get_or s.vga_buffer (k + 80) 0 else space) ≡ p.mark ((over + 1) * 80 + k)
shown_below over rows s p w k = rw (later over k) (elim (Bool-cases (ltb k 1920)) [
  | inl t ↦ rw t (w.cells (k + 80) (ground arith))
  | inr f ↦ rw f (sym (w.below (k + 80) (ground arith)))
])

-- When the cursor has left the screen by a line, the screen moves down the paper by a line.
scroll-Shows : (over : ℕ) (s : Console) (p : Paper) → ShowsAt over 26 s p → Shows (scroll s) p
unfolding Shows
scroll-Shows over s p w = elim (Bool-cases (leb vga_height s.cursor_row)) [
  | inl t ↦ rw (scroll-moves s t) (
    over + 1,
    record {
      size = length-move_up s.vga_buffer ∙ w.size;
      row = ground (arith, w.row, w.row_le);
      col = w.col;
      row_le = omega arith;
      col_le = w.col_le;
      cells = λ k h. get_or-move_up k s.vga_buffer w.size h ∙ shown_below over 26 s p w k;
      below = λ k h. ap p.mark (later over k) ∙ w.below (k + 80) (omega arith);
    },
  )
  | inr f ↦ rw (scroll-stays s f) (
    over,
    record {
      size = w.size;
      row = w.row;
      col = w.col;
      row_le = ground arith;
      col_le = w.col_le;
      cells = w.cells;
      below = w.below;
    },
  )
]

mark-off : (i j c : ℕ) (mark : ℕ → ℕ) → i ≢ j → (if i == j then c else mark i) ≡ mark i
mark-off i j c mark h = let differ : (i == j) ≡ false = ground arith in rw differ refl

-- The buffer and the paper after the same mark.
cells-mark :
    (over rows color c : ℕ) (s : Console) (p : Paper)
    → ShowsAt over rows s p
    → s.cursor_row < 25
    → (k : ℕ) → k < 2000
    → get_or (set s.vga_buffer (s.cursor_row * 80 + s.cursor_col) (cell color c)) k 0
      ≡ (if over * 80 + k == p.row * 80 + p.col then cell color c else p.mark (over * 80 + k))
cells-mark over rows color c s p w on k h =
    let i = s.cursor_row * 80 + s.cursor_col in
    let v = cell color c in
    let room : i < length s.vga_buffer = omega (arith, w.size, w.col_le, on) in
    elim (ℕ_discrete i k) [
      | yes e ↦
          let same : (over * 80 + k == p.row * 80 + p.col) ≡ true =
            ground (arith, w.row, w.col, e) in
          rw (same, sym e) (get_or-set_self s.vga_buffer i v 0 room)
      | no differ ↦
          let apart : over * 80 + k ≢ p.row * 80 + p.col =
            λ e. differ (omega (arith, w.row, w.col, e)) in
          get_or-set_ne s.vga_buffer i k v 0 differ
          ∙ w.cells k h
          ∙ sym (mark-off (over * 80 + k) (p.row * 80 + p.col) v p.mark apart)
    ]

below-mark :
    (over rows color c : ℕ) (s : Console) (p : Paper)
    → ShowsAt over rows s p
    → s.cursor_row < 25
    → (k : ℕ) → 2000 ≤ k
    → (if over * 80 + k == p.row * 80 + p.col then cell color c else p.mark (over * 80 + k)) ≡ space
below-mark over rows color c s p w on k h =
    let apart : over * 80 + k ≢ p.row * 80 + p.col =
      λ e. absurd (omega (arith, w.row, w.col, w.col_le, e)) in
    mark-off (over * 80 + k) (p.row * 80 + p.col) (cell color c) p.mark apart ∙ w.below k h

write_char-wraps :
    (color c : ℕ) (s : Console)
    → leb 80 (s.cursor_col + 1) ≡ true
    → write_char color c s ≡ (record {
      vga_buffer = set s.vga_buffer (s.cursor_row * 80 + s.cursor_col) (cell color c);
      cursor_row = s.cursor_row + 1;
      cursor_col = 0;
    })
unfolding write_char
write_char-wraps color c s h = rw h refl

write_char-steps :
    (color c : ℕ) (s : Console)
    → leb 80 (s.cursor_col + 1) ≡ false
    → write_char color c s ≡ (record {
      vga_buffer = set s.vga_buffer (s.cursor_row * 80 + s.cursor_col) (cell color c);
      cursor_row = s.cursor_row;
      cursor_col = s.cursor_col + 1;
    })
unfolding write_char
write_char-steps color c s h = rw h refl

write_char-Shows :
    (over color c : ℕ) (s : Console) (p : Paper)
    → ShowsAt over 25 s p
    → ShowsAt over 26 (write_char color c s) (type_mark color c p)
unfolding type_mark
write_char-Shows over color c s p w =
    let i = s.cursor_row * 80 + s.cursor_col in
    elim (Bool-cases (leb 80 (s.cursor_col + 1))) [
      | inl t ↦
          let here : leb 80 (p.col + 1) ≡ true = rw w.col t in
          rw (write_char-wraps color c s t, here)
            (record {
              size = length-set s.vga_buffer i (cell color c) ∙ w.size;
              row = omega (arith, w.row);
              col = refl;
              row_le = omega (arith, w.row_le);
              col_le = omega arith;
              cells = cells-mark over 25 color c s p w w.row_le;
              below = below-mark over 25 color c s p w w.row_le;
            })
      | inr f ↦
          let here : leb 80 (p.col + 1) ≡ false = rw w.col f in
          rw (write_char-steps color c s f, here)
            (record {
              size = length-set s.vga_buffer i (cell color c) ∙ w.size;
              row = w.row;
              col = omega (arith, w.col);
              row_le = omega (arith, w.row_le);
              col_le = ground arith;
              cells = cells-mark over 25 color c s p w w.row_le;
              below = below-mark over 25 color c s p w w.row_le;
            })
    ]

char-Shows :
    (color c : ℕ) (s : Console) (p : Paper)
    → Shows s p
    → Shows (kprint_char_color c color s) (type_char color c p)
unfolding Shows kprint_char_color type_char
char-Shows color c s p w = elim (Bool-cases (c == b'\n')) [
  | inl t ↦ rw t (
      scroll-Shows w.0 (record s { cursor_row = s.cursor_row + 1; cursor_col = 0 })
        (record p { row = p.row + 1; col = 0 })
        (record {
          size = w.1.size;
          row = omega (arith, w.1.row);
          col = refl;
          row_le = omega (arith, w.1.row_le);
          col_le = omega arith;
          cells = w.1.cells;
          below = w.1.below;
        }))
  | inr f ↦ rw f (
      scroll-Shows w.0 (write_char color c s) (type_mark color c p)
        (write_char-Shows w.0 color c s p w.1))
]

-- A printed text on the screen: from a screen that shows the last lines of a paper, the print of
-- any text, in any color, however often the screen scrolls, leads to a screen that shows the last
-- lines of the paper on which that text was typed at the end. A byte of 0x80 or more gets all bits
-- of the color set, on the paper as in the code.
pub kprint_color-Shows :
    (color : ℕ) (str : List ℕ) (s : Console) (p : Paper)
    → Shows s p
    → Shows (kprint_color str color s) (type_text color str p)
unfolding kprint_color type_text
kprint_color-Shows color [] s p w = w
kprint_color-Shows color (c ∷ str) s p w =
    kprint_color-Shows color str (kprint_char_color c color s) (type_char color c p)
      (char-Shows color c s p w)

-- The three copies of the loop in kernel.c agree: `putchar` is `kprint_char`, and `kprint` prints
-- as `kprint_color` does with the default color.
pub kprint-kprint_color :
    (str : List ℕ) (s : Console)
    → (kprint str s ≡ kprint_color str default_color s) × ((c : ℕ) → putchar c s ≡ kprint_char c s)
unfolding kprint kprint_color kprint_char kprint_char_color putchar
kprint-kprint_color [] s = (refl, λ c. refl)
kprint-kprint_color (c ∷ str) s = ((kprint-kprint_color str (kprint_char c s)).0, λ c. refl)

abbrev pub blank_paper : Paper
blank_paper = record { mark = λ i. cell default_color b' '; row = 0; col = 0 }

-- A cleared screen shows a paper on which nothing was typed.
pub clear_screen-Shows :
    (s : Console) → length s.vga_buffer ≡ 2000 → Shows (clear_screen s) blank_paper
unfolding Shows clear_screen
clear_screen-Shows s size = (
  0,
  record {
    size = length-blank 2000 0 s.vga_buffer ∙ size;
    row = refl;
    col = refl;
    row_le = omega arith;
    col_le = omega arith;
    cells = λ k h.
        get_or-blank 2000 0 k s.vga_buffer (omega (arith, size))
        ∙ (let inside : leb 0 k && ltb k (0 + 2000) ≡ true = ground arith in rw inside refl);
    below = λ k h. refl;
  },
)
