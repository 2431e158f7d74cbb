-- ===== src/Swap/Ownership.antt =====
-- The swap slots of src/memory_budget.c own what they point at: no double free, no leak of a pointer.
use asm_os.Prelude.{
  ℕ, zero, suc, ◌≤◌, ◌≡◌, refl, ◌≢◌, true, false, none, some, List, [], ◌∷◌, arith, get_or, set,
  All, All-set,
}
use asm_os.Budget.{Budget}
use asm_os.Allocator.{Allocator, max_request}
use asm_os.Swap.{Slot, no_slot, Code, System, give_back}

All-map {ℓ κ μ} :
    {A : Type ℓ} (P : A → Type κ) (Q : A → Type μ) (xs : List A)
    → ((x : A) → P x → Q x)
    → All P xs
    → All Q xs
All-map P Q [] f a = tt
All-map P Q (x ∷ xs) f a = (f x a.0, All-map P Q xs f a.1)

pub All-get {κ} :
    (P : Slot → Type κ) (xs : List Slot) (i : ℕ) → All P xs → P no_slot → P (get_or xs i no_slot)
All-get P [] i a d = d
All-get P (x ∷ xs) zero a d = a.0
All-get P (x ∷ xs) (suc i) a d = All-get P xs i a.1 d

-- No slot of the list holds `p`.
abbrev pub NotHeld : ℕ → List Slot → Type 0
NotHeld p = All (λ s. s.local_ptr ≢ some p)

-- No pointer is held by two slots.
abbrev pub Distinct : List Slot → Type 0
Distinct [] = Unit
Distinct (s ∷ ss) = ((p : ℕ) → s.local_ptr ≡ some p → NotHeld p ss) × Distinct ss

Distinct-set-none :
    (ss : List Slot) (i : ℕ) (v : Slot) → v.local_ptr ≡ none → Distinct ss → Distinct (set ss i v)
Distinct-set-none [] i v e d = d
Distinct-set-none (s ∷ ss) zero v e d = (λ p h. cc, d.1)
Distinct-set-none (s ∷ ss) (suc i) v e d = (
  λ p h. All-set (λ t. t.local_ptr ≢ some p) ss i v (d.0 p h) (λ k. cc),
  Distinct-set-none ss i v e d.1,
)

Distinct-set-some :
    (ss : List Slot) (i p : ℕ) (v : Slot)
    → v.local_ptr ≡ some p
    → NotHeld p ss
    → Distinct ss
    → Distinct (set ss i v)
Distinct-set-some [] i p v e n d = d
Distinct-set-some (s ∷ ss) zero p v e n d =
    (λ q h. let same : p ≡ q = ground arith in rw (← same) n.1, d.1)
Distinct-set-some (s ∷ ss) (suc i) p v e n d = (
  λ q h.
      All-set (λ t. t.local_ptr ≢ some q) ss i v (d.0 q h)
        (λ k. n.0 (let same : p ≡ q = ground arith in rw same h)),
  Distinct-set-some ss i p v e n.1 d.1,
)

-- Clearing the slot that holds `p` leaves no holder of it.
NotHeld-cleared :
    (ss : List Slot) (i p : ℕ) (v : Slot)
    → Distinct ss
    → (get_or ss i no_slot).local_ptr ≡ some p
    → v.local_ptr ≡ none
    → NotHeld p (set ss i v)
NotHeld-cleared [] i p v d h e = tt
NotHeld-cleared (s ∷ ss) zero p v d h e = (λ k. cc, d.0 p h)
NotHeld-cleared (s ∷ ss) (suc i) p v d h e = (
  λ k. All-get (λ t. t.local_ptr ≢ some p) ss i (d.0 p k) (λ n. cc) h,
  NotHeld-cleared ss i p v d.1 h e,
)

module _ (A : Allocator) where
  open A use {State, IsValid, Owned, alloc, dealloc}

  abbrev pub OwnedBy : State → List Slot → Type 0
  OwnedBy h = All (λ s. (p : ℕ) → s.local_ptr ≡ some p → Owned h p)

  -- Each pointer in a slot is owned, by that slot alone, and a slot that is not in use has none.
  pub record IsSafe (s : System A) : Type 0 where
    pub valid : IsValid s.heap
    pub owned : OwnedBy s.heap s.slots
    pub distinct : Distinct s.slots
    pub idle : All (λ t. t.in_use ≡ false → t.local_ptr ≡ none) s.slots

  OwnedBy-after :
      (h h' : State) (p : ℕ) (ss : List Slot)
      → IsValid h
      → Owned h p
      → dealloc p h ≡ some h'
      → OwnedBy h ss
      → NotHeld p ss
      → OwnedBy h' ss
  OwnedBy-after h h' p [] v o e w n = tt
  OwnedBy-after h h' p (t ∷ ss) v o e w n = (
    λ q k. A.dealloc-keeps p q h h' v o e (w.0 q k) (λ same. n.0 (rw same k)),
    OwnedBy-after h h' p ss v o e w.1 n.1,
  )

  OwnedBy-alloc :
      (h : State) (n p : ℕ) (ss : List Slot)
      → IsValid h
      → n ≤ max_request
      → (alloc n h).0 ≡ some p
      → OwnedBy h ss
      → OwnedBy (alloc n h).1 ss
  OwnedBy-alloc h n p [] v k r w = tt
  OwnedBy-alloc h n p (t ∷ ss) v k r w =
      (λ q e. (A.alloc-keeps n p q h v k r (w.0 q e)).0, OwnedBy-alloc h n p ss v k r w.1)

  new_pointer :
      (h : State) (n p : ℕ) (ss : List Slot)
      → IsValid h
      → n ≤ max_request
      → (alloc n h).0 ≡ some p
      → OwnedBy h ss
      → NotHeld p ss
  new_pointer h n p [] v k r w = tt
  new_pointer h n p (t ∷ ss) v k r w =
      (λ e. (A.alloc-keeps n p p h v k r (w.0 p e)).1 refl, new_pointer h n p ss v k r w.1)

  -- Giving back the pointer of a slot whose entry is replaced by one without a pointer.
  pub give_back-IsSafe :
      (s : System A) (i p : ℕ) (v : Slot) (b : Budget) (code : Code)
      → IsSafe s
      → (get_or s.slots i no_slot).local_ptr ≡ some p
      → v.local_ptr ≡ none
      → (s' : System A) × (give_back A p (record s { slots = set s.slots i v; budget = b }) code
          ≡ some (code, s'))
        × IsSafe s'
        × (s'.budget ≡ b)
        × (s'.slots ≡ set s.slots i v)
  unfolding give_back
  give_back-IsSafe s i p v b code w h e =
      let held = All-get _ s.slots i w.owned (λ q k. absurd (cc)) p h in
      let freed = A.dealloc_some p s.heap w.valid held in
      let lone = NotHeld-cleared s.slots i p v w.distinct h e in
      let kept =
        All-set (λ t. (q : ℕ) → t.local_ptr ≡ some q → Owned s.heap q) s.slots i v w.owned
          (λ q k. absurd (cc)) in
      (
        record { budget = b; slots = set s.slots i v; heap = freed.0 },
        rw (freed.1, give_back),
        record {
          valid = freed.2;
          owned = OwnedBy-after s.heap freed.0 p (set s.slots i v) w.valid held freed.1 kept lone;
          distinct = Distinct-set-none s.slots i v e w.distinct;
          idle = All-set (λ t. t.in_use ≡ false → t.local_ptr ≡ none) s.slots i v w.idle (λ _. e);
        },
        refl,
        refl,
      )

  -- Filling a slot with a new pointer.
  pub fill-IsSafe :
      (s : System A) (i n p : ℕ) (v : Slot) (b : Budget)
      → IsSafe s
      → n ≤ max_request
      → (alloc n s.heap).0 ≡ some p
      → v.local_ptr ≡ some p
      → v.in_use ≡ true
      → IsSafe (record { budget = b; slots = set s.slots i v; heap = (alloc n s.heap).1 })
  fill-IsSafe s i n p v b w k r e u = record {
    valid = A.alloc-IsValid n s.heap w.valid;
    owned =
        All-set (λ t. (q : ℕ) → t.local_ptr ≡ some q → Owned (alloc n s.heap).1 q) s.slots i v
          (OwnedBy-alloc s.heap n p s.slots w.valid k r w.owned)
          (λ q h.
            let same : p ≡ q = ground arith in rw (← same) (A.alloc-Owned n p s.heap w.valid k r));
    distinct =
        Distinct-set-some s.slots i p v e (new_pointer s.heap n p s.slots w.valid k r w.owned)
          w.distinct;
    idle =
        All-set (λ t. t.in_use ≡ false → t.local_ptr ≡ none) s.slots i v w.idle (λ h. absurd (cc));
  }

  -- Replacing a slot by one without a pointer, the heap as it was.
  pub clear-IsSafe :
      (s : System A) (i : ℕ) (v : Slot)
      → IsSafe s
      → v.local_ptr ≡ none
      → IsSafe (record s { slots = set s.slots i v })
  clear-IsSafe s i v w e = record {
    valid = w.valid;
    owned =
        All-set (λ t. (q : ℕ) → t.local_ptr ≡ some q → Owned s.heap q) s.slots i v w.owned
          (λ q k. absurd (cc));
    distinct = Distinct-set-none s.slots i v e w.distinct;
    idle = All-set (λ t. t.in_use ≡ false → t.local_ptr ≡ none) s.slots i v w.idle (λ _. e);
  }

  -- A pointer that no slot holds yet is given back.
  pub return-IsSafe :
      (s : System A) (n p : ℕ) (b : Budget) (code : Code)
      → IsSafe s
      → n ≤ max_request
      → (alloc n s.heap).0 ≡ some p
      → (s' : System A) × (give_back A p (record s { budget = b; heap = (alloc n s.heap).1 }) code
          ≡ some (code, s'))
        × IsSafe s'
  unfolding give_back
  return-IsSafe s n p b code w k r =
      let h = (alloc n s.heap).1 in
      let valid = A.alloc-IsValid n s.heap w.valid in
      let mine = A.alloc-Owned n p s.heap w.valid k r in
      let freed = A.dealloc_some p h valid mine in
      (
        record { budget = b; slots = s.slots; heap = freed.0 },
        rw (freed.1, give_back),
        record {
          valid = freed.2;
          owned =
              OwnedBy-after h freed.0 p s.slots valid mine freed.1
                (OwnedBy-alloc s.heap n p s.slots w.valid k r w.owned)
                (new_pointer s.heap n p s.slots w.valid k r w.owned);
          distinct = w.distinct;
          idle = w.idle;
        },
      )
