-- ===== src/Console.antt =====
-- kernel.c: the text screen. A string is the list of its characters, which are below 128.
mod Scrolling
mod Paper
mod Format
mod Tests
use asm_os.Prelude.{
  ltb, ℕ, zero, suc, ◌+◌, ◌-◌, ◌*◌, List, [], ◌∷◌, leb, ◌==◌, if◌then◌else◌, get_or, set,
}

abbrev pub vga_width : ℕ
vga_width = 80

abbrev pub vga_height : ℕ
vga_height = 25

abbrev pub default_color : ℕ
default_color = 0x07

pub record Console : Type 0 where
  pub vga_buffer : List ℕ
  pub cursor_row : ℕ
  pub cursor_col : ℕ

-- A cell of the screen: `((uint16_t)color << 8) | c`. A `char` has a sign, so one of 0x80 or more
-- sets every bit of the color.
abbrev pub cell : ℕ → ℕ → ℕ
cell color c = (if ltb c 0x80 then color else 0xFF) * 256 + c

-- The loops that copy each line to the one above: `n` cells from `i` on.
pub copy_up : ℕ → ℕ → List ℕ → List ℕ
copy_up zero i buf = buf
copy_up (suc n) i buf = copy_up n (i + 1) (set buf i (get_or buf (i + vga_width) 0))

-- The loop that blanks `n` cells from `i` on.
pub blank : ℕ → ℕ → List ℕ → List ℕ
blank zero i buf = buf
blank (suc n) i buf = blank n (i + 1) (set buf i (cell default_color b' '))

-- The two loops: the lines move up by one, and the last one is blank.
pub move_up : List ℕ → List ℕ
move_up buf =
    blank vga_width ((vga_height - 1) * vga_width) (copy_up ((vga_height - 1) * vga_width) 0 buf)

-- The end of `kprint_char`: the screen moves up when the cursor is below it.
pub scroll : Console → Console
scroll s =
    if leb vga_height s.cursor_row
    then record s { vga_buffer = move_up s.vga_buffer; cursor_row = vga_height - 1 }
    else s

-- The write of a character that is no newline, and the step of the cursor.
pub write_char : ℕ → ℕ → Console → Console
write_char color c s =
    let buf = set s.vga_buffer (s.cursor_row * vga_width + s.cursor_col) (cell color c) in
    if leb vga_width (s.cursor_col + 1)
    then record { vga_buffer = buf; cursor_row = s.cursor_row + 1; cursor_col = 0 }
    else record { vga_buffer = buf; cursor_row = s.cursor_row; cursor_col = s.cursor_col + 1 }

pub kprint_char_color : ℕ → ℕ → Console → Console
kprint_char_color c color s = scroll (
    if c == b'\n'
    then record s { cursor_row = s.cursor_row + 1; cursor_col = 0 }
    else write_char color c s)

pub kprint_char : ℕ → Console → Console
kprint_char c s = scroll (
    if c == b'\n'
    then record s { cursor_row = s.cursor_row + 1; cursor_col = 0 }
    else write_char default_color c s)

pub putchar : ℕ → Console → Console
putchar c s = scroll (
    if c == b'\n'
    then record s { cursor_row = s.cursor_row + 1; cursor_col = 0 }
    else write_char default_color c s)

pub kprint : List ℕ → Console → Console
kprint [] s = s
kprint (c ∷ str) s = kprint str (kprint_char c s)

pub kprint_color : List ℕ → ℕ → Console → Console
kprint_color [] color s = s
kprint_color (c ∷ str) color s = kprint_color str color (kprint_char_color c color s)

pub clear_screen : Console → Console
clear_screen s = record {
  vga_buffer = blank (vga_width * vga_height) 0 s.vga_buffer;
  cursor_row = 0;
  cursor_col = 0;
}
