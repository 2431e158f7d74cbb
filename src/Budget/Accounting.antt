-- ===== src/Budget/Accounting.antt =====
-- The accounting of src/memory_budget.c: limits hold, a charge is undone by its refund, and the
-- query agrees with the charge.
use asm_os.Prelude.{
  ℕ, zero, suc, ◌+◌, ◌^◌, ◌≤◌, ◌<◌, ◌≡◌, refl, ap, ◌↔◌, ◌⊎◌, inl, inr, true, false, List, [], ◌∷◌,
  arith, dec_lt, leb, leb→gt, Bool-cases, length, get_or, set, All, length-set, get_or-set_self,
  All-set,
}
use asm_os.Budget.{
  Entry, Budget, region_max, no_entry, granted, memory_budget_init, to_kb, charge,
  memory_budget_alloc, refund, memory_budget_free, memory_budget_can_alloc,
  memory_budget_total_used_kb,
}

-- Every region has an entry, and its use is within its limit, where it has one. The limits leave
-- room for one request below the top of 32 bits.
pub record IsSound (b : Budget) : Type 0 where
  pub entries : length b.regions ≡ region_max
  pub ready : b.inited ≡ true
  pub within : All (λ e. (e.limit_kb ≡ 0) ⊎ (e.used_kb ≤ e.limit_kb)) b.regions
  pub small : All (λ e. (e.limit_kb < 2 ^ 31) × (e.used_kb < 2 ^ 31)) b.regions

-- The entry of a region, and what holds of it.
All-get_or {ℓ κ} :
    {A : Type ℓ} (P : A → Type κ) (xs : List A) (i : ℕ) (d : A)
    → All P xs
    → i < length xs
    → P (get_or xs i d)
All-get_or P [] i d a h = absurd (omega arith)
All-get_or P (x ∷ xs) zero d a h = a.0
All-get_or P (x ∷ xs) (suc i) d a h = All-get_or P xs i d a.1 (omega arith)

set-set {ℓ} : {A : Type ℓ} (xs : List A) (i : ℕ) (v w : A) → set (set xs i v) i w ≡ set xs i w
set-set [] i v w = refl
set-set (x ∷ xs) zero v w = refl
set-set (x ∷ xs) (suc i) v w = ap (λ l. x ∷ l) (set-set xs i v w)

set-get_or {ℓ} : {A : Type ℓ} (xs : List A) (i : ℕ) (d : A) → set xs i (get_or xs i d) ≡ xs
set-get_or [] i d = refl
set-get_or (x ∷ xs) zero d = refl
set-get_or (x ∷ xs) (suc i) d = ap (λ l. x ∷ l) (set-get_or xs i d)

-- `memory_budget_init` gives each region its default limit and an empty account, once.
pub memory_budget_init_lem :
    (b : Budget)
    → b.inited ≡ false
    → IsSound (memory_budget_init b)
      × (memory_budget_total_used_kb (memory_budget_init b) ≡ 0)
      × (memory_budget_init (memory_budget_init b) ≡ memory_budget_init b)
unfolding memory_budget_init memory_budget_total_used_kb
memory_budget_init_lem b h =
    rw h (
      record { entries = refl; ready = refl; within = omega arith; small = omega arith },
      refl,
      refl,
    )

alloc_in_range :
    (region size_bytes : ℕ) (b : Budget)
    → b.inited ≡ true
    → region < region_max
    → memory_budget_alloc region size_bytes b ≡ (
      (charge size_bytes (get_or b.regions region no_entry)).0,
      record b {
        regions = set b.regions region (charge size_bytes (get_or b.regions region no_entry)).1;
      },
    )
unfolding memory_budget_alloc memory_budget_init
alloc_in_range region size_bytes b r h = ground arith

charge_within :
    (size_bytes : ℕ) (e : Entry)
    → (e.limit_kb ≡ 0) ⊎ (e.used_kb ≤ e.limit_kb)
    → ((charge size_bytes e).1.limit_kb ≡ 0)
      ⊎ ((charge size_bytes e).1.used_kb ≤ (charge size_bytes e).1.limit_kb)
unfolding charge
charge_within size_bytes e w = ground arith

charge_small :
    (size_bytes : ℕ) (e : Entry)
    → (e.limit_kb < 2 ^ 31) × (e.used_kb < 2 ^ 31)
    → e.used_kb + to_kb size_bytes < 2 ^ 31
    → ((charge size_bytes e).1.limit_kb < 2 ^ 31) × ((charge size_bytes e).1.used_kb < 2 ^ 31)
unfolding charge
charge_small size_bytes e w k = ground arith

-- A charge never brings a region over its limit, and no other region changes.
pub memory_budget_alloc-IsSound :
    (region size_bytes : ℕ) (b : Budget)
    → IsSound b
    → (get_or b.regions region no_entry).used_kb + to_kb size_bytes < 2 ^ 31
    → IsSound (memory_budget_alloc region size_bytes b).1
unfolding memory_budget_alloc memory_budget_init
memory_budget_alloc-IsSound region size_bytes b v k = elim (Bool-cases (leb region_max region)) [
  | inl out ↦ let same : (memory_budget_alloc region size_bytes b).1 ≡ b = ground arith in rw same v
  | inr within ↦
      let inside : region < length b.regions = omega (arith, leb→gt _ _ within) in
      let e = get_or b.regions region no_entry in
      rw (alloc_in_range region size_bytes b v.ready (leb→gt _ _ within)) (record {
        entries = rw (length-set b.regions region (charge size_bytes e).1) v.entries;
        ready = v.ready;
        within =
            All-set _ b.regions region _ v.within
              (charge_within size_bytes e (All-get_or _ b.regions region no_entry v.within inside));
        small =
            All-set _ b.regions region _ v.small
              (charge_small size_bytes e (All-get_or _ b.regions region no_entry v.small inside) k);
      })
]

-- The query of a ready budget says yes exactly when the charge would be granted.
pub memory_budget_can_alloc_iff :
    (region size_bytes : ℕ) (b : Budget)
    → b.inited ≡ true
    → (memory_budget_can_alloc region size_bytes b ≡ true)
      ↔ ((memory_budget_alloc region size_bytes b).0 ≡ granted)
unfolding memory_budget_alloc memory_budget_init memory_budget_can_alloc
memory_budget_can_alloc_iff region size_bytes b r = (λ h. ground arith, λ h. ground arith)

refund-charge :
    (size_bytes : ℕ) (e : Entry)
    → e.used_kb + to_kb size_bytes < 2 ^ 32
    → (charge size_bytes e).0 ≡ granted
    → refund size_bytes (charge size_bytes e).1 ≡ e
unfolding charge refund
refund-charge size_bytes e k g = ground arith

free_in_range :
    (region size_bytes : ℕ) (b : Budget)
    → region < region_max
    → memory_budget_free region size_bytes b ≡ record b {
      regions = set b.regions region (refund size_bytes (get_or b.regions region no_entry));
    }
unfolding memory_budget_free
free_in_range region size_bytes b h = ground arith

-- Freeing what was just granted restores the budget, where the 32-bit account does not wrap.
pub memory_budget_free-alloc :
    (region size_bytes : ℕ) (b : Budget)
    → IsSound b
    → (get_or b.regions region no_entry).used_kb + to_kb size_bytes < 2 ^ 32
    → (memory_budget_alloc region size_bytes b).0 ≡ granted
    → memory_budget_free region size_bytes (memory_budget_alloc region size_bytes b).1 ≡ b
memory_budget_free-alloc region size_bytes b v k g = elim (dec_lt region region_max) [
  | no out ↦ absurd (unfold memory_budget_alloc memory_budget_init in ground arith)
  | yes h ↦
      let e = get_or b.regions region no_entry in
      let step = alloc_in_range region size_bytes b v.ready h in
      let done : (charge size_bytes e).0 ≡ granted = rw step at g in
      rw (
        step,
        free_in_range region size_bytes _ h,
        get_or-set_self b.regions region (charge size_bytes e).1 no_entry (omega arith),
        refund-charge size_bytes e k done,
        set-set,
        set-get_or b.regions region no_entry,
      )
]
