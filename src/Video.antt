-- ===== src/Video.antt =====
-- video.h: the screen of the x86 build.
use asm_os.Prelude.{ℕ}

abbrev pub video_width : ℕ
video_width = 320

abbrev pub video_height : ℕ
video_height = 200

abbrev pub video_bpp : ℕ
video_bpp = 1
