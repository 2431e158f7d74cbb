-- ===== src/Fat12/Chains/Lengths.antt =====
-- How long a chain of clusters of the FAT12 driver can be.
use asm_os.Prelude.{
  ℕ, zero, suc, ◌≤◌, ◌<◌, ◌≡◌, refl, inl, inr, Bool, true, false, ◌||◌, Option, List, [], ◌∷◌,
  arith, ◌==◌, ==→eq, if◌then◌else◌, Bool-cases, length,
}
use mathlib.Core.Path.{subst}
use asm_os.Fat12.{cluster_eof, Fat12, fat12_next_cluster}
use asm_os.Fat12.Chains.Sectors.{Chain}

mem : ℕ → List ℕ → Bool
mem x [] = false
mem x (y ∷ l) = (y == x) || mem x l

abbrev Distinct : List ℕ → Type 0
Distinct [] = Unit {0}
Distinct (x ∷ l) = (mem x l ≡ false) × Distinct l

abbrev Below : ℕ → List ℕ → Type 0
Below m [] = Unit {0}
Below m (x ∷ l) = (x < m) × Below m l

remove : ℕ → List ℕ → List ℕ
remove x [] = []
remove x (y ∷ l) = if y == x then remove x l else y ∷ remove x l

mem-remove : (x y : ℕ) (l : List ℕ) → mem y l ≡ false → mem y (remove x l) ≡ false
unfolding mem remove
mem-remove x y [] h = refl
mem-remove x y (z ∷ l) h = ground (arith, mem-remove x y l)

remove-Distinct : (x : ℕ) (l : List ℕ) → Distinct l → Distinct (remove x l)
unfolding remove
remove-Distinct x [] d = tt
remove-Distinct x (y ∷ l) d = elim (Bool-cases (y == x)) [
  | inl same ↦ rw same (remove-Distinct x l d.1)
  | inr other ↦ rw other (mem-remove x y l d.0, remove-Distinct x l d.1)
]

remove-Below : (m : ℕ) (l : List ℕ) → Below (suc m) l → Below m (remove m l)
unfolding remove
remove-Below m [] b = tt
remove-Below m (y ∷ l) b = elim (Bool-cases (y == m)) [
  | inl same ↦ rw same (remove-Below m l b.1)
  | inr other ↦ rw other (ground (arith, b.0), remove-Below m l b.1)
]

length-remove_absent : (x : ℕ) (l : List ℕ) → mem x l ≡ false → length (remove x l) ≡ length l
unfolding mem remove
length-remove_absent x [] h = refl
length-remove_absent x (y ∷ l) h = ground (arith, length-remove_absent x l)

length-remove : (x : ℕ) (l : List ℕ) → Distinct l → length l ≤ suc (length (remove x l))
unfolding remove
length-remove x [] d = omega arith
length-remove x (y ∷ l) d = elim (Bool-cases (y == x)) [
  | inl same ↦
      let absent : mem x l ≡ false = cc (d.0, ==→eq _ _ same) in
      rw same (omega (arith, length-remove_absent x l absent))
  | inr other ↦ rw other (omega (arith, length-remove x l d.1))
]

-- Distinct numbers below `m` are at most `m`.
length-le : (m : ℕ) (l : List ℕ) → Distinct l → Below m l → length l ≤ m
length-le zero [] d b = omega arith
length-le zero (x ∷ l) d b = absurd (omega (arith, b.0))
length-le (suc m) l d b = omega (
  arith,
  length-remove m l d,
  length-le m (remove m l) (remove-Distinct m l d) (remove-Below m l b),
)

module _ {D : Type 0} (block_read : D → ℕ → Option (List ℕ)) (fs : Fat12) (d : D) where
  -- The clusters of a chain, given its sectors.
  clusters : ℕ → List (List ℕ) → List ℕ
  clusters c [] = []
  clusters c (s ∷ ss) = c ∷ clusters (fat12_next_cluster fs c) ss

  length-clusters : (c : ℕ) (ss : List (List ℕ)) → length (clusters c ss) ≡ length ss
  unfolding clusters
  length-clusters c [] = refl
  length-clusters c (s ∷ ss) = omega (arith, length-clusters (fat12_next_cluster fs c) ss)

  -- Every chain from the same cluster has the same length.
  lengths_agree :
      (c : ℕ) (ss ts : List (List ℕ))
      → Chain block_read fs d c ss
      → Chain block_read fs d c ts
      → length ss ≡ length ts
  unfolding Chain
  lengths_agree c [] [] v w = refl
  lengths_agree c [] (t ∷ ts) v w = absurd (omega (arith, v, w.0))
  lengths_agree c (s ∷ ss) [] v w = absurd (omega (arith, v.0, w))
  lengths_agree c (s ∷ ss) (t ∷ ts) v w =
      omega (arith, lengths_agree (fat12_next_cluster fs c) ss ts v.2 w.2)

  -- From each cluster of a chain there is a chain that is no longer.
  rest_from :
      (c x : ℕ) (ss : List (List ℕ))
      → Chain block_read fs d c ss
      → mem x (clusters c ss) ≡ true
      → (ts : List (List ℕ)) × Chain block_read fs d x ts × (length ts ≤ length ss)
  unfolding Chain clusters mem
  rest_from c x [] w h = absurd (cc h)
  rest_from c x (s ∷ ss) w h = elim (Bool-cases (c == x)) [
    | inl here ↦
        (s ∷ ss, subst (λ y. Chain block_read fs d y (s ∷ ss)) (==→eq _ _ here) w, omega arith)
    | inr there ↦
        let rest = rest_from (fat12_next_cluster fs c) x ss w.2 (ground (arith, h, there)) in
        (rest.0, rest.1, omega (arith, rest.2))
  ]

  clusters-Distinct :
      (c : ℕ) (ss : List (List ℕ)) → Chain block_read fs d c ss → Distinct (clusters c ss)
  unfolding Chain clusters
  clusters-Distinct c [] w = tt
  clusters-Distinct c (s ∷ ss) w =
      elim (Bool-cases (mem c (clusters (fat12_next_cluster fs c) ss))) [
        | inl again ↦
            let rest = rest_from (fat12_next_cluster fs c) c ss w.2 again in
            absurd (omega (arith, lengths_agree c (s ∷ ss) rest.0 w rest.1, rest.2))
        | inr new ↦ (new, clusters-Distinct (fat12_next_cluster fs c) ss w.2)
      ]

  clusters-Below :
      (c : ℕ) (ss : List (List ℕ)) → Chain block_read fs d c ss → Below cluster_eof (clusters c ss)
  unfolding Chain clusters
  clusters-Below c [] w = tt
  clusters-Below c (s ∷ ss) w = (w.0, clusters-Below (fat12_next_cluster fs c) ss w.2)

  -- No chain has more sectors than there are numbers of clusters.
  pub length_le_eof :
      (c : ℕ) (ss : List (List ℕ)) → Chain block_read fs d c ss → length ss ≤ cluster_eof
  length_le_eof c ss w = omega (
    arith,
    length-clusters c ss,
    length-le cluster_eof (clusters c ss) (clusters-Distinct c ss w) (clusters-Below c ss w),
  )
