-- ===== src/Prelude/Bits.antt =====
-- Bitwise or of numbers with no digit in common.
use Prim.Native.Nat.{
  ℕ, zero, suc, ◌+◌, ◌*◌, ◌/◌, ◌%◌, ◌≤◌, ◌<◌, max, bit_or, bit_or-bitwise, digits,
}
use mathlib.Core.Path.{◌≡◌, refl, ap, ◌∙◌}
use native.Mathlib.Omega.{arith}
use native.Mathlib.Decide.{ℕ_discrete}

-- `a` shifted to the left by `k` digits.
abbrev pub shift : ℕ → ℕ → ℕ
shift zero a = a
shift (suc k) a = 2 * shift k a

abbrev or_digits : ℕ → ℕ → ℕ → ℕ
or_digits n a b = digits (λ c. c) max n a b

or_step :
    (n x b : ℕ)
    → 0 < x
    → or_digits (suc n) x b ≡ or_digits n (x / 2) (b / 2) * 2 + max (x % 2) (b % 2)
or_step n zero b h = absurd (omega arith)
or_step n (suc x) b h = refl

or_zero : (n a : ℕ) → a ≤ n → or_digits n a 0 ≡ a
or_zero zero a h = omega arith
or_zero (suc n) zero h = refl
or_zero (suc n) (suc a) h =
    omega (arith, or_step n (suc a) 0 (omega arith), or_zero n (suc a / 2) (omega arith))

or_none : (n b : ℕ) → or_digits n 0 b ≡ b
or_none zero b = refl
or_none (suc n) b = refl

or_shift : (k n a b : ℕ) → shift k a ≤ n → b < shift k 1 → or_digits n (shift k a) b ≡ shift k a + b
or_shift zero n a b h l =
    let nothing : b ≡ 0 = omega arith in
    let here : a ≤ n = h in ap (or_digits n a) nothing ∙ or_zero n a h ∙ omega arith
or_shift (suc k) zero a b h l =
    let nothing : 2 * shift k a ≡ 0 = omega arith in ap (λ x. or_digits 0 x b) nothing ∙ omega arith
or_shift (suc k) (suc n) a b h l = elim (ℕ_discrete (shift k a) 0) [
  | yes nothing ↦ ap (λ x. or_digits (suc n) (2 * x) b) nothing ∙ omega arith
  | no some ↦
      let d = shift k a in
      let half : 2 * d / 2 ≡ d = omega arith in
      let even : 2 * d % 2 ≡ 0 = omega arith in
      or_step n (2 * d) b (omega arith)
      ∙ ap (λ x. or_digits n x (b / 2) * 2 + max (2 * d % 2) (b % 2)) half
      ∙ omega (arith, or_shift k n a (b / 2) (omega arith) (omega arith))
]

pub bit_or_disjoint : (k a b : ℕ) → b < shift k 1 → bit_or (shift k a) b ≡ shift k a + b
bit_or_disjoint k a b l = bit_or-bitwise (shift k a) b ∙ or_shift k (shift k a) a b (omega arith) l
