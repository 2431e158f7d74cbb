-- ===== src/Console/Format.antt =====
-- kernel.c: printing of numbers and formats, and the scan of a string by a format.
--
-- An `int` is its 32-bit word. `none` marks a read behind the end of the format, or of an argument
-- that is not there, which C leaves undefined.
pub mod Scan
use asm_os.Prelude.{
  ℕ, zero, suc, ◌+◌, ◌-◌, ◌*◌, ◌/◌, ◌%◌, ◌^◌, Bool, true, false, ◌&&◌, ◌||◌, Option, none, some,
  List, [], ◌∷◌, ◌++◌, ltb, leb, ◌==◌, if◌then◌else◌, get_or, drop,
}
use asm_os.Prelude.Words.{u8, u32, sub32}
use asm_os.Prelude.CString.{codes}
use mathlib.Core.Option
use asm_os.Console.{Console, putchar}

-- A positive `int`.
pub is_positive : ℕ → Bool
is_positive value = ltb 0 value && ltb value (2 ^ 31)

-- The digits that `print_decimal` puts into its buffer, the last one of the number first.
pub digits : ℕ → ℕ → List ℕ
digits zero value = []
digits (suc room) value =
    let more = digits room (value / 10) in
    if is_positive value then (b'0' + value % 10) ∷ more else []

-- The buffer is printed from its end.
pub put_back : List ℕ → Console → Console
put_back [] s = s
put_back (c ∷ buffer) s = putchar c (put_back buffer s)

pub print_decimal : ℕ → Console → Console
print_decimal value s =
    if value == 0
    then putchar b'0' s
    else if ltb value (2 ^ 31)
    then put_back (digits 16 value) s
    else put_back (digits 16 (sub32 0 value)) (putchar b'-' s)

pub hex_digit : ℕ → ℕ
hex_digit d = get_or (codes "0123456789ABCDEF") d 0

-- The loop of `print_hex`, for the last `n` digits.
pub put_nibbles : ℕ → ℕ → Console → Console
put_nibbles zero value s = s
put_nibbles (suc n) value s = put_nibbles n value (putchar (hex_digit (value / 16 ^ n % 16)) s)

pub print_hex : ℕ → Console → Console
print_hex value s = put_nibbles 8 value (putchar b'x' (putchar b'0' s))

-- An argument of `kprintf`, and what `ksscanf` stores, where a character is its number.
pub data Arg : Type 0 where
  int : ℕ → Arg
  str : List ℕ → Arg

module _ (print_string : List ℕ → Console → Console) where
  -- What stands behind a `%`: the arguments left, and the screen.
  pub directive : ℕ → List Arg → Console → Option (List Arg × Console)
  directive c [] s =
      if c == b'%'
      then some ([], putchar b'%' s)
      else if (c == b's') || (c == b'c') || (c == b'd') || (c == b'x')
      then none
      else some ([], putchar b'?' s)
  directive c (int v ∷ args) s =
      if c == b'd'
      then some (args, print_decimal v s)
      else if c == b'x'
      then some (args, print_hex v s)
      else if c == b'%'
      then some (int v ∷ args, putchar b'%' s)
      else if c == b'c'
      then some (args, putchar (u8 v) s)
      else if c == b's'
      then none
      else some (int v ∷ args, putchar b'?' s)
  directive c (str v ∷ args) s =
      if c == b's'
      then some (args, print_string v s)
      else if c == b'%'
      then some (str v ∷ args, putchar b'%' s)
      else if (c == b'c') || (c == b'd') || (c == b'x')
      then none
      else some (str v ∷ args, putchar b'?' s)

  pub kprintf : List ℕ → List Arg → Console → Option Console
  kprintf [] args s = some s
  kprintf (f ∷ []) args s = if f == b'%' then none else some (putchar f s)
  kprintf (f ∷ g ∷ format) args s = elim (f == b'%') [
    | true ↦ elim (directive g args s) [ none ↦ none | some r ↦ kprintf format r.0 r.1 ]
    | false ↦ kprintf (g ∷ format) args (putchar f s)
  ]

pub is_decimal : ℕ → Bool
is_decimal c = leb b'0' c && leb c b'9'

-- The value of a run of digits, and the string behind it.
pub scan_decimal : ℕ → List ℕ → ℕ × List ℕ
scan_decimal val [] = (val, [])
scan_decimal val (c ∷ cs) =
    let more = scan_decimal (u32 (val * 10 + (c - b'0'))) cs in
    if is_decimal c then more else (val, c ∷ cs)

-- `*out = val * sign`.
pub scan_int : List ℕ → ℕ × List ℕ
scan_int cs =
    if get_or cs 0 0 == b'-'
    then (let r = scan_decimal 0 (drop 1 cs) in (sub32 0 r.0, r.1))
    else scan_decimal 0 cs

pub hex_value : ℕ → Option ℕ
hex_value c =
    if leb b'0' c && leb c b'9'
    then some (c - b'0')
    else if leb b'a' c && leb c b'f'
    then some (c - b'a' + 10)
    else if leb b'A' c && leb c b'F'
    then some (c - b'A' + 10)
    else none

pub scan_hex : ℕ → List ℕ → ℕ × List ℕ
scan_hex val [] = (val, [])
scan_hex val (c ∷ cs) = elim (hex_value c) [
  | none ↦ (val, c ∷ cs)
  | some d ↦ scan_hex (u32 (val * 16 + d)) cs
]

-- The word of `%s`, which ends at a space or a newline.
pub scan_word : List ℕ → List ℕ × List ℕ
scan_word [] = ([], [])
scan_word (c ∷ cs) =
    let more = scan_word cs in
    if (c == b' ') || (c == b'\n') then ([], c ∷ cs) else (c ∷ more.0, more.1)

-- What stands behind a `%`, on a string that is not empty: what is stored, and the string left.
pub convert : ℕ → ℕ → List ℕ → List Arg × List ℕ
convert g c cs =
    if g == b'd'
    then (let r = scan_int (c ∷ cs) in (int r.0 ∷ [], r.1))
    else if g == b'x'
    then (let r = scan_hex 0 (c ∷ cs) in (int r.0 ∷ [], r.1))
    else if g == b'c'
    then (int c ∷ [], cs)
    else if g == b's'
    then (let r = scan_word (c ∷ cs) in (str r.0 ∷ [], r.1))
    else ([], c ∷ cs)

-- The values that `ksscanf` stores; it returns their number.
pub ksscanf : List ℕ → List ℕ → Option (List Arg)
ksscanf cs [] = some []
ksscanf [] (f ∷ format) = some []
ksscanf (c ∷ cs) (f ∷ []) = if f == b'%' then none else some []
ksscanf (c ∷ cs) (f ∷ g ∷ format) = elim (f == b'%') [
  | true ↦ (let r = convert g c cs in Option.map (λ later. r.0 ++ later) (ksscanf r.1 format))
  | false ↦ elim (f == c) [ true ↦ ksscanf cs (g ∷ format) | false ↦ some [] ]
]
