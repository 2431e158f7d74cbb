-- ===== src/Console/Scrolling.antt =====
-- Scrolling the screen of kernel.c.
use asm_os.Prelude.{
  ℕ, zero, suc, ◌+◌, ◌≤◌, ◌<◌, ◌≡◌, refl, sym, ◌∙◌, ◌≢◌, inl, inr, true, false, ◌&&◌, List, arith,
  ℕ_discrete, ltb, leb, if◌then◌else◌, Bool-cases, length, get_or, set, length-set, get_or-set_self,
  get_or-set_ne,
}
use asm_os.Console.{vga_width, default_color, cell, copy_up, blank, move_up}

pub length-copy_up : (n i : ℕ) (buf : List ℕ) → length (copy_up n i buf) ≡ length buf
unfolding copy_up
length-copy_up zero i buf = refl
length-copy_up (suc n) i buf =
    let v = get_or buf (i + vga_width) 0 in
    length-copy_up n (i + 1) (set buf i v) ∙ length-set buf i v

pub length-blank : (n i : ℕ) (buf : List ℕ) → length (blank n i buf) ≡ length buf
unfolding blank
length-blank zero i buf = refl
length-blank (suc n) i buf =
    let v = cell default_color b' ' in length-blank n (i + 1) (set buf i v) ∙ length-set buf i v

-- A test of a range that starts at `i`, as a test of the range that starts after it.
range-step : (n i k : ℕ) → i ≢ k → leb i k && ltb k (i + suc n) ≡ leb (i + 1) k && ltb k (i + 1 + n)
range-step n i k h = ground arith

-- The cells behind the copied ones stay, and a copied one holds what stood a line below.
pub get_or-copy_up :
    (n i k : ℕ) (buf : List ℕ)
    → i + n ≤ length buf
    → get_or (copy_up n i buf) k 0
      ≡ (if leb i k && ltb k (i + n) then get_or buf (k + 80) 0 else get_or buf k 0)
unfolding copy_up
get_or-copy_up zero i k buf h =
    let out : leb i k && ltb k (i + 0) ≡ false = ground arith in rw out refl
get_or-copy_up (suc n) i k buf h =
    let v = get_or buf (i + 80) 0 in
    let rest = get_or-copy_up n (i + 1) k (set buf i v) (omega (arith, length-set buf i v)) in
    elim (ℕ_discrete i k) [
      | yes e ↦
          let inside : leb i k && ltb k (i + suc n) ≡ true = ground arith in
          let after : leb (i + 1) k && ltb k (i + 1 + n) ≡ false = ground arith in
          let same : get_or (set buf i v) k 0 ≡ get_or buf (k + 80) 0 =
            rw (sym e) (get_or-set_self buf i v 0 (omega arith)) in
          rw (inside, rest, after) same
      | no ne ↦
          rw (range-step n i k ne, rest)
            (elim (Bool-cases (leb (i + 1) k && ltb k (i + 1 + n))) [
              | inl t ↦
                  let far : i ≢ k + 80 = λ e. absurd (ground arith) in
                  rw t (get_or-set_ne buf i (k + 80) v 0 far)
              | inr f ↦ rw f (get_or-set_ne buf i k v 0 ne)
            ])
    ]

pub get_or-blank :
    (n i k : ℕ) (buf : List ℕ)
    → i + n ≤ length buf
    → get_or (blank n i buf) k 0
      ≡ (if leb i k && ltb k (i + n) then cell default_color b' ' else get_or buf k 0)
unfolding blank
get_or-blank zero i k buf h =
    let out : leb i k && ltb k (i + 0) ≡ false = ground arith in rw out refl
get_or-blank (suc n) i k buf h =
    let v = cell default_color b' ' in
    let rest = get_or-blank n (i + 1) k (set buf i v) (omega (arith, length-set buf i v)) in
    elim (ℕ_discrete i k) [
      | yes e ↦
          let inside : leb i k && ltb k (i + suc n) ≡ true = ground arith in
          let after : leb (i + 1) k && ltb k (i + 1 + n) ≡ false = ground arith in
          let same : get_or (set buf i v) k 0 ≡ v =
            rw (sym e) (get_or-set_self buf i v 0 (omega arith)) in
          rw (inside, rest, after) same
      | no ne ↦
          rw (range-step n i k ne, rest)
            (elim (Bool-cases (leb (i + 1) k && ltb k (i + 1 + n))) [
              | inl t ↦ rw t refl
              | inr f ↦ rw f (get_or-set_ne buf i k v 0 ne)
            ])
    ]

pub length-move_up : (buf : List ℕ) → length (move_up buf) ≡ length buf
unfolding move_up
length-move_up buf = length-blank 80 1920 (copy_up 1920 0 buf) ∙ length-copy_up 1920 0 buf

-- The two ranges of the loops, on the lines that moved and on the last one.
moved :
    (k v up stay old : ℕ)
    → k < 2000
    → stay ≡ (if leb 0 k && ltb k (0 + 1920) then up else old)
    → (if leb 1920 k && ltb k (1920 + 80) then v else stay) ≡ (if ltb k 1920 then up else v)
moved k v up stay old h copied = elim (Bool-cases (ltb k 1920)) [
  | inl t ↦
      let out : leb 1920 k && ltb k (1920 + 80) ≡ false = ground arith in
      let inside : leb 0 k && ltb k (0 + 1920) ≡ true = ground arith in
      rw (out, t, copied, inside) refl
  | inr f ↦
      let inside : leb 1920 k && ltb k (1920 + 80) ≡ true = ground arith in rw (inside, f) refl
]

-- The buffer after the move: the lines below the first one, then a blank one.
pub get_or-move_up :
    (k : ℕ) (buf : List ℕ)
    → length buf ≡ 2000
    → k < 2000
    → get_or (move_up buf) k 0
      ≡ (if ltb k 1920 then get_or buf (k + 80) 0 else cell default_color b' ')
unfolding move_up
get_or-move_up k buf size h =
    let copied = copy_up 1920 0 buf in
    get_or-blank 80 1920 k copied (omega (arith, size, length-copy_up 1920 0 buf))
    ∙ moved k (cell default_color b' ') (get_or buf (k + 80) 0) (get_or copied k 0) (get_or buf k 0)
        h (get_or-copy_up 1920 0 k buf (omega (arith, size)))
