-- ===== src/Net/Icmp/Checksum.antt =====
-- The checksum of net/icmp.c.
use asm_os.Prelude.{
  ℕ, ◌+◌, ◌*◌, [], ◌∷◌, ◌/◌, ◌%◌, ◌^◌, ◌<◌, ◌≡◌, refl, sym, ◌∙◌, ◌↔◌, inl, inr, true, some, List,
  arith, ◌==◌, Bool-cases, length, take, drop, take-append, drop-append,
}
use asm_os.Prelude.Words.{u32}
use mathlib.Core.Path.{subst}
use asm_os.Net.Icmp.{
  sum_words, fold, fold_sum, checksum, word16, word32, Unset, ip_header, icmp_header, ping_packet,
}

zero_together : (a b : ℕ) → (a ≡ 0) ↔ (b ≡ 0) → (a == 0) ≡ (b == 0)
zero_together a b h = ground arith

zero_iff : (a b : ℕ) → (a == 0) ≡ (b == 0) → (a ≡ 0) ↔ (b ≡ 0)
zero_iff a b h = ground arith

folded :
    (sum r : ℕ)
    → fold 3 sum ≡ some r
    → r < 2 ^ 16
    → r % 65535 ≡ sum % 65535
    → (r == 0) ≡ (sum == 0)
    → (fold 3 sum ≡ some (fold_sum sum))
      × (fold_sum sum < 2 ^ 16)
      × (fold_sum sum % 65535 ≡ sum % 65535)
      × ((fold_sum sum == 0) ≡ (sum == 0))
unfolding fold_sum
folded sum r e small same empty =
    let result : fold_sum sum ≡ r = rw (fold_sum, e) refl in rw result (e, small, same, empty)

-- The folding of any 32-bit sum ends after at most two rounds, with 16 bits that are congruent to
-- the sum modulo 65535, and zero only for zero.
pub fold_sum_lem :
    (sum : ℕ)
    → sum < 2 ^ 32
    → (fold 3 sum ≡ some (fold_sum sum))
      × (fold_sum sum < 2 ^ 16)
      × (fold_sum sum % 65535 ≡ sum % 65535)
      × ((fold_sum sum == 0) ≡ (sum == 0))
unfolding fold
fold_sum_lem sum h =
    let once = sum % 2 ^ 16 + sum / 2 ^ 16 in
    let twice = once % 2 ^ 16 + once / 2 ^ 16 in
    elim (Bool-cases (sum / 2 ^ 16 == 0)) [
      | inl small ↦ folded sum sum (rw small refl) (ground arith) refl refl
      | inr big ↦ elim (Bool-cases (once / 2 ^ 16 == 0)) [
        | inl small ↦
            folded sum once (rw (big, small) refl) (ground arith) (omega arith)
              (zero_together once sum (omega arith))
        | inr large ↦
            let last : (twice / 2 ^ 16 == 0) ≡ true = ground arith in
            folded sum twice (rw (big, large, last) refl) (ground arith) (omega arith)
              (zero_together twice sum (omega arith))
      ]
    ]

-- The sum of the 16-bit words of the bytes, of any size.
pub word_sum : List ℕ → ℕ
word_sum [] = 0
word_sum (x ∷ []) = x
word_sum (x ∷ y ∷ bytes) = x + 256 * y + word_sum bytes

-- What a receiver checks: the sum of the words, with end-around carries, has all its bits set. That
-- is so where the sum is a multiple of 65535 and not zero.
abbrev pub Verifies : List ℕ → Type 0
Verifies bytes = (word_sum bytes % 65535 ≡ 0) × (0 < word_sum bytes)

-- The code's sum is that sum as long as it stays below 2^32.
sum_words_lem :
    (sum : ℕ) (bytes : List ℕ)
    → sum + word_sum bytes < 2 ^ 32
    → sum_words sum bytes ≡ sum + word_sum bytes
unfolding sum_words word_sum
sum_words_lem sum [] h = omega arith
sum_words_lem sum (x ∷ []) h = omega arith
sum_words_lem sum (x ∷ y ∷ bytes) h =
    let exact : u32 (sum + (x + 256 * y)) ≡ sum + (x + 256 * y) = omega arith in
    rw exact (omega (arith, sum_words_lem (sum + (x + 256 * y)) bytes (omega arith)))

-- The sum over the address header is the sum with an empty checksum, and the checksum.
word_sum-ip_header :
    (u : Unset) (src dst sum : ℕ)
    → u.tos < 256
    → sum < 2 ^ 16
    → word_sum (ip_header u src dst sum) ≡ word_sum (ip_header u src dst 0) + sum
unfolding word_sum ip_header word16 word32
word_sum-ip_header u src dst sum t h = omega arith

word_sum-icmp_header :
    (sum : ℕ) → sum < 2 ^ 16 → word_sum (icmp_header sum) ≡ word_sum (icmp_header 0) + sum
unfolding word_sum icmp_header word16
word_sum-icmp_header sum h = omega arith

length-ip_header : (u : Unset) (src dst sum : ℕ) → length (ip_header u src dst sum) ≡ 20
unfolding ip_header word16 word32
length-ip_header u src dst sum = refl

word_sum-ip_header-lt :
    (u : Unset) (src dst : ℕ) → u.tos < 256 → word_sum (ip_header u src dst 0) < 2 ^ 31
unfolding word_sum ip_header word16 word32
word_sum-ip_header-lt u src dst t = omega arith

word_sum-icmp_header-lt : word_sum (icmp_header 0) < 2 ^ 31
unfolding word_sum icmp_header word16
word_sum-icmp_header-lt = omega arith

checksum-lt : (bytes : List ℕ) → checksum bytes < 2 ^ 16
unfolding checksum
checksum-lt bytes = omega arith

-- The checksum completes the sum of the words to a multiple of 65535.
checksum_completes :
    (bytes : List ℕ)
    → word_sum bytes < 2 ^ 31
    → ((word_sum bytes + checksum bytes) % 65535 ≡ 0) × (0 < word_sum bytes + checksum bytes)
unfolding checksum
checksum_completes bytes h =
    let exact : sum_words 0 bytes ≡ word_sum bytes =
      sum_words_lem 0 bytes (omega arith) ∙ omega arith in
    let done = fold_sum_lem (word_sum bytes) (omega arith) in
    let empty = zero_iff (fold_sum (word_sum bytes)) (word_sum bytes) done.3 in
    rw exact (omega (arith, done.1, done.2), ground (arith, done.1, empty.0, empty.1))

-- A header whose sum grows by its checksum field verifies when the field holds the checksum.
checksum-Verifies :
    (header : ℕ → List ℕ)
    → word_sum (header 0) < 2 ^ 31
    → word_sum (header (checksum (header 0))) ≡ word_sum (header 0) + checksum (header 0)
    → Verifies (header (checksum (header 0)))
checksum-Verifies header h e = rw e (checksum_completes (header 0) h)

-- Both headers that an echo request carries pass the check of a receiver, whatever the fields hold
-- that the code leaves unset: the sum of the 16-bit words of the whole header, with its checksum, is
-- a multiple of 65535 and not zero.
pub checksum-ping_packet :
    (u : Unset) (src dst : ℕ)
    → u.tos < 256
    → Verifies (take 20 (ping_packet u src dst)) × Verifies (drop 20 (ping_packet u src dst))
unfolding ping_packet
checksum-ping_packet u src dst t =
    let sum = checksum (ip_header u src dst 0) in
    let header = ip_header u src dst sum in
    let request = icmp_header (checksum (icmp_header 0)) in
    let size = sym (length-ip_header u src dst sum) in
    (
      subst Verifies (sym (take-append header request 20 size)) (
          checksum-Verifies (ip_header u src dst) (word_sum-ip_header-lt u src dst t)
            (word_sum-ip_header u src dst sum t (checksum-lt (ip_header u src dst 0)))),
      subst Verifies (sym (drop-append header request 20 size)) (
          checksum-Verifies icmp_header word_sum-icmp_header-lt
            (word_sum-icmp_header (checksum (icmp_header 0)) (checksum-lt (icmp_header 0)))),
    )
