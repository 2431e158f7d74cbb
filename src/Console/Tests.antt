-- ===== src/Console/Tests.antt =====
-- Runs of the screen, and its theorems at a screen.
use asm_os.Prelude.{ℕ, ◌≡◌, refl, some, List, [], ◌∷◌, arith, replicate, length-replicate}
use asm_os.Prelude.CString.{codes}
use asm_os.Console.{Console, write_char, kprint, kprint_color, clear_screen}
use asm_os.Console.Paper.{type_text, Shows, blank_paper, clear_screen-Shows, kprint_color-Shows}
use asm_os.Console.Format.{int, kprintf, ksscanf}
use asm_os.Console.Format.Scan.{ksscanf-kprintf}

abbrev no_string : List ℕ → Console → Console
no_string text s = kprint text s

abbrev started : Console
started = record { vga_buffer = replicate 2000 0; cursor_row = 24; cursor_col = 79 }

-- The last place of the screen: the cursor goes to the start of the last line, after a move.
last_place : (write_char 7 b'a' started).cursor_row ≡ 25
unfolding write_char
last_place = refl

kprint_color-Shows_example :
    Shows
      (kprint_color (codes "ok\n") 0x0A (clear_screen started))
      (type_text 0x0A (codes "ok\n") blank_paper)
kprint_color-Shows_example =
    kprint_color-Shows 0x0A (codes "ok\n") (clear_screen started) blank_paper
      (clear_screen-Shows started (length-replicate {A = ℕ} 2000 0))

ksscanf-kprintf_example :
    (text : List ℕ) × (kprintf no_string (codes "%d") (int 0xFFFFFFF4 ∷ []) started
      ≡ some (kprint text started))
    × (ksscanf text (codes "%d") ≡ some (int 0xFFFFFFF4 ∷ []))
ksscanf-kprintf_example = ksscanf-kprintf no_string 0xFFFFFFF4 started (omega arith) (omega arith)
