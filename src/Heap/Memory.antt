-- ===== src/Heap/Memory.antt =====
-- The loops of `memcpy` and `memset` of src/memory_manager.c on the bytes of the memory.
use asm_os.Prelude.{
  ℕ, zero, suc, ◌+◌, ◌≤◌, ◌<◌, ◌≡◌, refl, ◌∙◌, ◌⊎◌, arith, ltb, leb, ◌&&◌, if◌then◌else◌,
}
use asm_os.Heap.{store, memcpy, memset}

pub memcpy_outside : (n d s x : ℕ) (m : ℕ → ℕ) → (x < d) ⊎ (d + n ≤ x) → memcpy n d s m x ≡ m x
unfolding memcpy store
memcpy_outside zero d s x m o = refl
memcpy_outside (suc n) d s x m o =
    memcpy_outside n (d + 1) (s + 1) x (store m d (m s)) (omega arith) ∙ ground arith

-- Between ranges that do not overlap, `memcpy` copies each byte.
pub memcpy_lem :
    (n d s i : ℕ) (m : ℕ → ℕ)
    → (d + n ≤ s) ⊎ (s + n ≤ d)
    → i < n
    → memcpy n d s m (d + i) ≡ m (s + i)
unfolding memcpy store
memcpy_lem zero d s i m o h = absurd (omega arith)
memcpy_lem (suc n) d s zero m o h =
    let at : d + 0 ≡ d = omega arith in
    let from : s + 0 ≡ s = omega arith in
    rw (at, from)
      (memcpy_outside n (d + 1) (s + 1) d (store m d (m s)) (omega arith) ∙ ground arith)
memcpy_lem (suc n) d s (suc i) m o h =
    let at : d + suc i ≡ d + 1 + i = omega arith in
    let from : s + suc i ≡ s + 1 + i = omega arith in
    rw (at, from)
      (memcpy_lem n (d + 1) (s + 1) i (store m d (m s)) (omega arith) (omega arith) ∙ ground arith)

-- The memory after a `memset`, at every address.
pub memset_lem :
    (n p x : ℕ) (m : ℕ → ℕ) → memset n p 0 m x ≡ (if leb p x && ltb x (p + n) then 0 else m x)
unfolding memset store
memset_lem zero p x m = ground arith
memset_lem (suc n) p x m = memset_lem n (p + 1) x (store m p 0) ∙ ground arith
