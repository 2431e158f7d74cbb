-- ===== src/Console/Format/Scan.antt =====
-- What kernel.c prints of a number is scanned back to it.
use asm_os.Prelude.{
  ℕ, zero, suc, ◌+◌, ◌-◌, ◌*◌, ◌/◌, ◌%◌, ◌^◌, ◌≤◌, ◌<◌, ◌≡◌, refl, ap, ◌∙◌, ◌≢◌, inl, inr, true,
  false, ◌&&◌, some, List, [], ◌∷◌, arith, ltb, leb, ◌==◌, if◌then◌else◌, Bool-cases, get_or,
}
use asm_os.Prelude.Words.{u32, sub32}
use asm_os.Prelude.CString.{codes}
use asm_os.Console.{Console, kprint_char, putchar, kprint}
use asm_os.Console.Format.{
  is_positive, digits, put_back, print_decimal, hex_digit, put_nibbles, print_hex, int, directive,
  kprintf, is_decimal, scan_decimal, scan_int, hex_value, scan_hex, convert, ksscanf,
}

-- The text that `put_back` prints of a buffer, before the text `t`.
pub backwards : List ℕ → List ℕ → List ℕ
backwards [] t = t
backwards (d ∷ ds) t = backwards ds (d ∷ t)

kprint-put_back :
    (ds t : List ℕ) (s : Console) → kprint t (put_back ds s) ≡ kprint (backwards ds t) s
unfolding put_back backwards kprint putchar kprint_char
kprint-put_back [] t s = refl
kprint-put_back (d ∷ ds) t s = kprint-put_back ds (d ∷ t) s

scan_decimal-digit :
    (v d : ℕ) (t : List ℕ)
    → d < 10
    → v * 10 + d < 2 ^ 32
    → scan_decimal v ((b'0' + d) ∷ t) ≡ scan_decimal (v * 10 + d) t
unfolding scan_decimal is_decimal
scan_decimal-digit v d t h b =
    let digit : leb b'0' (b'0' + d) && leb (b'0' + d) b'9' ≡ true = ground arith in
    let value : u32 (v * 10 + (b'0' + d - b'0')) ≡ v * 10 + d = omega arith in
    rw (digit, value) refl

-- The digits of a number, scanned from the last one printed to the first.
scan-digits :
    (room v : ℕ) (t : List ℕ)
    → v < 10 ^ room
    → v < 2 ^ 31
    → scan_decimal 0 (backwards (digits room v) t) ≡ scan_decimal v t
unfolding digits backwards is_positive
scan-digits zero v t h b = let none_left : v ≡ 0 = omega arith in rw none_left refl
scan-digits (suc room) v t h b = elim (Bool-cases (ltb 0 v && ltb v (2 ^ 31))) [
  | inl more ↦
      let whole : v / 10 * 10 + v % 10 ≡ v = omega arith in
      let shorter : v / 10 < 10 ^ room = omega arith in
      rw more (
        scan-digits room (v / 10) ((b'0' + v % 10) ∷ t) shorter (omega arith)
        ∙ scan_decimal-digit (v / 10) (v % 10) t (omega arith) (omega arith)
        ∙ ap (λ n. scan_decimal n t) whole)
  | inr done ↦ let none_left : v ≡ 0 = ground arith in rw (done, none_left) refl
]

-- A text that starts with a digit.
Starts : List ℕ → Type 0
Starts t = (b'0' ≤ get_or t 0 0) × (get_or t 0 0 ≤ b'9')

backwards-Starts : (room v : ℕ) (t : List ℕ) → Starts t → Starts (backwards (digits room v) t)
unfolding digits backwards is_positive Starts
backwards-Starts zero v t h = h
backwards-Starts (suc room) v t h = elim (Bool-cases (ltb 0 v && ltb v (2 ^ 31))) [
  | inl more ↦
      rw more (backwards-Starts room (v / 10) ((b'0' + v % 10) ∷ t) (omega arith, omega arith))
  | inr done ↦ rw done h
]

digits-Starts : (room v : ℕ) → 0 < v → v < 2 ^ 31 → Starts (backwards (digits (suc room) v) [])
unfolding digits backwards is_positive Starts
digits-Starts room v h b =
    let more : ltb 0 v && ltb v (2 ^ 31) ≡ true = ground arith in
    rw more (backwards-Starts room (v / 10) ((b'0' + v % 10) ∷ []) (omega arith, omega arith))

ksscanf-decimal :
    (t : List ℕ) → Starts t → ksscanf t (codes "%d") ≡ some (int (scan_decimal 0 t).0 ∷ [])
unfolding ksscanf convert scan_int Starts
ksscanf-decimal [] h = absurd (omega (arith, h.0))
ksscanf-decimal (c ∷ t) h = let plain : (c == b'-') ≡ false = ground (arith, h.0) in rw plain refl

ksscanf-minus :
    (t : List ℕ) → ksscanf (b'-' ∷ t) (codes "%d") ≡ some (int (sub32 0 (scan_decimal 0 t).0) ∷ [])
unfolding ksscanf convert scan_int
ksscanf-minus t = refl

-- The text that `print_decimal` prints.
pub decimal_text : ℕ → List ℕ
decimal_text v =
    if v == 0
    then b'0' ∷ []
    else if ltb v (2 ^ 31)
    then backwards (digits 16 v) []
    else b'-' ∷ backwards (digits 16 (sub32 0 v)) []

print_decimal-text : (v : ℕ) (s : Console) → print_decimal v s ≡ kprint (decimal_text v) s
unfolding print_decimal decimal_text kprint putchar kprint_char
print_decimal-text v s = elim (Bool-cases (v == 0)) [
  | inl z ↦ rw z refl
  | inr nz ↦ elim (Bool-cases (ltb v (2 ^ 31))) [
    | inl pos ↦ rw (nz, pos) (kprint-put_back (digits 16 v) [] s)
    | inr neg ↦ rw (nz, neg) (kprint-put_back (digits 16 (sub32 0 v)) [] (putchar b'-' s))
  ]
]

scan_decimal-digits : (v : ℕ) → v < 2 ^ 31 → (scan_decimal 0 (backwards (digits 16 v) [])).0 ≡ v
unfolding scan_decimal
scan_decimal-digits v h = ap (λ r. r.0) (scan-digits 16 v [] (omega arith) h)

scan_zero : ksscanf (b'0' ∷ []) (codes "%d") ≡ some (int 0 ∷ [])
unfolding ksscanf convert scan_int scan_decimal is_decimal
scan_zero = refl

ksscanf-decimal_text :
    (v : ℕ) → v < 2 ^ 32 → v ≢ 2 ^ 31 → ksscanf (decimal_text v) (codes "%d") ≡ some (int v ∷ [])
unfolding decimal_text
ksscanf-decimal_text v h least = elim (Bool-cases (v == 0)) [
  | inl z ↦ let zero_v : v ≡ 0 = ground arith in rw (z, zero_v) scan_zero
  | inr nz ↦ elim (Bool-cases (ltb v (2 ^ 31))) [
    | inl pos ↦
        let starts = digits-Starts 15 v (ground arith) (ground arith) in
        rw (nz, pos)
          (ksscanf-decimal (backwards (digits 16 v) []) starts
            ∙ ap (λ n. some (int n ∷ [])) (scan_decimal-digits v (ground arith)))
    | inr neg ↦
        let t = backwards (digits 16 (sub32 0 v)) [] in
        let back : sub32 0 (sub32 0 v) ≡ v = ground arith in
        rw (nz, neg)
          (ksscanf-minus t
            ∙ ap (λ n. some (int (sub32 0 n) ∷ [])) (scan_decimal-digits (sub32 0 v) (ground arith))
            ∙ ap (λ n. some (int n ∷ [])) back)
  ]
]

-- The digits that `print_hex` prints of a number.
pub nibbles : ℕ → ℕ → List ℕ
nibbles zero v = []
nibbles (suc n) v = hex_digit (v / 16 ^ n % 16) ∷ nibbles n v

put_nibbles-text : (n v : ℕ) (s : Console) → put_nibbles n v s ≡ kprint (nibbles n v) s
unfolding put_nibbles nibbles kprint putchar kprint_char
put_nibbles-text zero v s = refl
put_nibbles-text (suc n) v s = put_nibbles-text n v (putchar (hex_digit (v / 16 ^ n % 16)) s)

print_hex-text : (v : ℕ) (s : Console) → print_hex v s ≡ kprint (b'0' ∷ b'x' ∷ nibbles 8 v) s
unfolding print_hex kprint putchar kprint_char
print_hex-text v s = put_nibbles-text 8 v (putchar b'x' (putchar b'0' s))

hex_value-digit : (d : ℕ) → d < 16 → hex_value (hex_digit d) ≡ some d
unfolding hex_value hex_digit
hex_value-digit zero h = refl
hex_value-digit (suc zero) h = refl
hex_value-digit (suc (suc zero)) h = refl
hex_value-digit (suc (suc (suc zero))) h = refl
hex_value-digit (suc (suc (suc (suc zero)))) h = refl
hex_value-digit (suc (suc (suc (suc (suc zero))))) h = refl
hex_value-digit (suc (suc (suc (suc (suc (suc zero)))))) h = refl
hex_value-digit (suc (suc (suc (suc (suc (suc (suc zero))))))) h = refl
hex_value-digit (suc (suc (suc (suc (suc (suc (suc (suc zero)))))))) h = refl
hex_value-digit (suc (suc (suc (suc (suc (suc (suc (suc (suc zero))))))))) h = refl
hex_value-digit (suc (suc (suc (suc (suc (suc (suc (suc (suc (suc zero)))))))))) h = refl
hex_value-digit (suc (suc (suc (suc (suc (suc (suc (suc (suc (suc (suc zero))))))))))) h = refl
hex_value-digit (suc (suc (suc (suc (suc (suc (suc (suc (suc (suc (suc (suc zero)))))))))))) h =
    refl
hex_value-digit (suc (suc (suc (suc (suc (suc (suc (suc (suc (suc (suc (suc (suc zero)))))))))))))
      h =
    refl
hex_value-digit
      (suc (suc (suc (suc (suc (suc (suc (suc (suc (suc (suc (suc (suc (suc zero)))))))))))))) h =
    refl
hex_value-digit
      (suc (suc (suc (suc (suc (suc (suc (suc (suc (suc (suc (suc (suc (suc (suc zero)))))))))))))))
      h =
    refl
hex_value-digit
      (suc
        (suc (suc (suc (suc (suc (suc (suc (suc (suc (suc (suc (suc (suc (suc (suc d))))))))))))))))
      h =
    absurd (omega arith)

scan_hex-some :
    (v c d : ℕ) (t : List ℕ)
    → hex_value c ≡ some d
    → scan_hex v (c ∷ t) ≡ scan_hex (u32 (v * 16 + d)) t
unfolding scan_hex
scan_hex-some v c d t h = rw (scan_hex, h) refl

scan_hex-digit :
    (v q p : ℕ) (t : List ℕ)
    → v / q ≡ v / p / 16
    → v / p < 2 ^ 32
    → scan_hex (v / q) (hex_digit (v / p % 16) ∷ t) ≡ scan_hex (v / p) t
scan_hex-digit v q p t next b =
    let value : u32 (v / q * 16 + v / p % 16) ≡ v / p = omega (arith, next) in
    let d = v / p % 16 in
    scan_hex-some (v / q) (hex_digit d) d t (hex_value-digit d (omega arith))
    ∙ ap (λ n. scan_hex n t) value

scan_hex-nibbles : (v : ℕ) → v < 2 ^ 32 → scan_hex 0 (nibbles 8 v) ≡ (v, [])
unfolding scan_hex nibbles
scan_hex-nibbles v h =
    let start : 0 ≡ v / 2 ^ 32 = omega arith in
    let whole : v / 16 ^ 0 ≡ v = omega arith in
    let step : (q p : ℕ)
        → v / q ≡ v / p / 16
        → v / p < 2 ^ 32
        → (t : List ℕ) → scan_hex (v / q) (hex_digit (v / p % 16) ∷ t) ≡ scan_hex (v / p) t =
      λ q p e b t. scan_hex-digit v q p t e b in
    ap (λ n. scan_hex n (nibbles 8 v)) start
    ∙ step (16 ^ 8) (16 ^ 7) (omega arith) (omega arith) (nibbles 7 v)
    ∙ step (16 ^ 7) (16 ^ 6) (omega arith) (omega arith) (nibbles 6 v)
    ∙ step (16 ^ 6) (16 ^ 5) (omega arith) (omega arith) (nibbles 5 v)
    ∙ step (16 ^ 5) (16 ^ 4) (omega arith) (omega arith) (nibbles 4 v)
    ∙ step (16 ^ 4) (16 ^ 3) (omega arith) (omega arith) (nibbles 3 v)
    ∙ step (16 ^ 3) (16 ^ 2) (omega arith) (omega arith) (nibbles 2 v)
    ∙ step (16 ^ 2) (16 ^ 1) (omega arith) (omega arith) (nibbles 1 v)
    ∙ step (16 ^ 1) (16 ^ 0) (omega arith) (omega arith) []
    ∙ ap (λ n. (n, [])) whole

ksscanf-hex :
    (c : ℕ) (t : List ℕ)
    → ksscanf (b'0' ∷ b'x' ∷ c ∷ t) (codes "0x%x") ≡ some (int (scan_hex 0 (c ∷ t)).0 ∷ [])
unfolding ksscanf convert
ksscanf-hex c t = refl

ksscanf-nibbles :
    (v : ℕ) → v < 2 ^ 32 → ksscanf (b'0' ∷ b'x' ∷ nibbles 8 v) (codes "0x%x") ≡ some (int v ∷ [])
unfolding nibbles
ksscanf-nibbles v h =
    ksscanf-hex (hex_digit (v / 16 ^ 7 % 16)) (nibbles 7 v)
    ∙ ap (λ r. some (int r.0 ∷ [])) (scan_hex-nibbles v h)

-- A number that `kprintf` prints is scanned back: for every `int` but the least one, what the
-- format `%d` prints is a text from which `ksscanf` with the format `%d` stores that `int`.
pub ksscanf-kprintf :
    (print_string : List ℕ → Console → Console) (v : ℕ) (s : Console)
    → v < 2 ^ 32
    → v ≢ 2 ^ 31
    → (text : List ℕ) × (kprintf print_string (codes "%d") (int v ∷ []) s ≡ some (kprint text s))
      × (ksscanf text (codes "%d") ≡ some (int v ∷ []))
unfolding kprintf directive
ksscanf-kprintf print_string v s h least =
    (decimal_text v, ap some (print_decimal-text v s), ksscanf-decimal_text v h least)

-- What the format `%x` of `kprintf` prints of a 32-bit word is a text from which `ksscanf` with the
-- format `0x%x` stores that word.
pub ksscanf-kprintf_hex :
    (print_string : List ℕ → Console → Console) (v : ℕ) (s : Console)
    → v < 2 ^ 32
    → (text : List ℕ) × (kprintf print_string (codes "%x") (int v ∷ []) s ≡ some (kprint text s))
      × (ksscanf text (codes "0x%x") ≡ some (int v ∷ []))
unfolding kprintf directive
ksscanf-kprintf_hex print_string v s h =
    (b'0' ∷ b'x' ∷ nibbles 8 v, ap some (print_hex-text v s), ksscanf-nibbles v h)
