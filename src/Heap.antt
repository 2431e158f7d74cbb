-- ===== src/Heap.antt =====
-- src/memory_manager.c: the first-fit heap of the kernel, on the 32-bit target.
-- The list reached from `free_list` through `next` is a list of blocks, each with its address.
-- `memory_pool` is the address at which the linker places the pool. The bytes of the pool that
-- are not block headers are a function of their address.
-- An operation that would write a header which is no block of the list, or past the end of the block
-- that it fills, has the result `none`.
pub mod Tiling
pub mod Blocks
pub mod Malloc
pub mod InUse
pub mod Free
pub mod Memory
pub mod Contents
pub mod Interface
pub mod Runs
mod Tests
use asm_os.Prelude.{
  ℕ, zero, suc, ◌+◌, ◌-◌, ◌*◌, ◌/◌, Bool, true, false, ◌&&◌, ◌||◌, Option, none, some, List, [],
  ◌∷◌, ltb, leb, ◌==◌, if◌then◌else◌,
}
use asm_os.Prelude.Words.{u8, u32, sub32}
use mathlib.Core.Option

-- `mem_block_t`: three 32-bit words.
pub record Block : Type 0 where
  pub addr : ℕ
  pub size : ℕ
  pub free : Bool

pub record Heap : Type 0 where
  pub blocks : List Block
  pub bytes : ℕ → ℕ

abbrev pub header_size : ℕ
header_size = 12

abbrev pub pool_size : ℕ
pool_size = 1024 * 1024

abbrev pub alignment : ℕ
alignment = 4

-- `ALIGN`, with the wrap of `size_t`.
unfoldable pub align : ℕ → ℕ
align size = u32 (size + (alignment - 1)) / 4 * 4

pub init_memory_manager : ℕ → (ℕ → ℕ) → Heap
init_memory_manager memory_pool bytes = record {
  blocks = record { addr = memory_pool; size = pool_size - header_size; free = true } ∷ [];
  bytes = bytes;
}

-- The address of the first free block of at least `size` bytes.
unfoldable pub find_free_block : List Block → ℕ → Option ℕ
find_free_block [] size = none
find_free_block (b ∷ bs) size =
    let rest = find_free_block bs size in if b.free && leb size b.size then some b.addr else rest

-- The body of `split_block`, at the block and the ones behind it.
unfoldable pub split : Block → ℕ → List Block → List Block
split b size bs =
    if leb (u32 (size + header_size + alignment)) b.size
    then record b { size = size }
      ∷ record {
        addr = b.addr + header_size + size;
        size = sub32 (sub32 b.size size) header_size;
        free = true;
      }
      ∷ bs
    else b ∷ bs

-- The block at the address `at`.
unfoldable pub split_block : ℕ → ℕ → List Block → List Block
unfolding split
split_block at size [] = []
split_block at size (b ∷ bs) = if b.addr == at then split b size bs else b ∷ split_block at size bs

-- `block->free = v` at the address `at`.
unfoldable pub set_free : ℕ → Bool → List Block → List Block
set_free at v [] = []
set_free at v (b ∷ bs) = if b.addr == at then record b { free = v } ∷ bs else b ∷ set_free at v bs

-- The loop of `merge_free_blocks`: `current`, and the blocks behind it.
pub merge_from : Block → List Block → List Block
merge_from b [] = b ∷ []
merge_from b (c ∷ bs) = elim (b.free && c.free) [
  | true ↦ merge_from (record b { size = u32 (b.size + (header_size + c.size)) }) bs
  | false ↦ b ∷ merge_from c bs
]

pub merge_free_blocks : List Block → List Block
merge_free_blocks [] = []
merge_free_blocks (b ∷ bs) = merge_from b bs

-- The block whose payload begins at `ptr`.
pub block_of : ℕ → List Block → Option Block
block_of ptr [] = none
block_of ptr (b ∷ bs) = if b.addr + header_size == ptr then some b else block_of ptr bs

unfoldable pub malloc : ℕ → Heap → Option ℕ × Heap
malloc size h = if size == 0 then (none, h) else elim (find_free_block h.blocks (align size)) [
  | none ↦ (none, h)
  | some a ↦ (
    some (a + header_size),
    record h { blocks = set_free a false (split_block a (align size) h.blocks) },
  )
]

-- `free`, for a pointer into the pool.
pub release : ℕ → Heap → Option Heap
release ptr h = elim (block_of ptr h.blocks) [
  | none ↦ none
  | some b ↦ some (record h { blocks = merge_free_blocks (set_free b.addr true h.blocks) })
]

-- A pointer outside the pool is ignored.
pub free : ℕ → Option ℕ → Heap → Option Heap
unfolding release
free memory_pool none h = some h
free memory_pool (some ptr) h =
    if ltb ptr memory_pool || leb (memory_pool + pool_size) ptr then some h else release ptr h

pub store : (ℕ → ℕ) → ℕ → ℕ → ℕ → ℕ
store m a v b = if b == a then v else m b

-- `while (n--) *d++ = *s++;`
pub memcpy : ℕ → ℕ → ℕ → (ℕ → ℕ) → ℕ → ℕ
memcpy zero d s m = m
memcpy (suc n) d s m = memcpy n (d + 1) (s + 1) (store m d (m s))

-- `while (n--) *p++ = c;`
pub memset : ℕ → ℕ → ℕ → (ℕ → ℕ) → ℕ → ℕ
memset zero p c m = m
memset (suc n) p c m = memset n (p + 1) c (store m p (u8 c))

-- The `memcpy` of `realloc`, with no result where it writes past the block at `q`.
pub copy_to : ℕ → ℕ → ℕ → Heap → Option Heap
copy_to n q ptr h = elim (block_of q h.blocks) [
  | none ↦ none
  | some c ↦ if leb n c.size then some (record h { bytes = memcpy n q ptr h.bytes }) else none
]

-- The end of `realloc`: the new block `q` is there, and `block->size` is read again.
pub move_to : ℕ → ℕ → ℕ → ℕ → Heap → Option (Option ℕ × Heap)
move_to memory_pool ptr new_size q h = elim (block_of ptr h.blocks) [
  | none ↦ none
  | some b ↦
      let n = if ltb b.size new_size then b.size else new_size in
      elim (copy_to n q ptr h) [
        | none ↦ none
        | some h' ↦ Option.map (λ h3. (some q, h3)) (free memory_pool (some ptr) h')
      ]
]

pub realloc : ℕ → Option ℕ → ℕ → Heap → Option (Option ℕ × Heap)
unfolding move_to
realloc memory_pool none new_size h = some (malloc new_size h)
realloc memory_pool (some ptr) new_size h =
    if new_size == 0
    then Option.map (λ h'. (none, h')) (free memory_pool (some ptr) h)
    else elim (block_of ptr h.blocks) [
      | none ↦ none
      | some b ↦
          if leb new_size b.size
          then some (some ptr, record h { blocks = split_block b.addr (align new_size) h.blocks })
          else (let (r, h') = malloc new_size h in
              elim r [ none ↦ some (none, h') | some q ↦ move_to memory_pool ptr new_size q h' ])
    ]

-- The `memset` of `calloc`, with no result where it writes past the block at `p`.
unfoldable pub clear : ℕ → ℕ → Heap → Option (Option ℕ × Heap)
clear p n h = elim (block_of p h.blocks) [
  | none ↦ none
  | some b ↦ if leb n b.size then some (some p, record h { bytes = memset n p 0 h.bytes }) else none
]

pub calloc : ℕ → ℕ → Heap → Option (Option ℕ × Heap)
calloc nmemb size h =
    let (r, h') = malloc (u32 (nmemb * size)) h in
    elim r [ none ↦ some (none, h') | some p ↦ clear p (u32 (nmemb * size)) h' ]

pub used_bytes : List Block → ℕ
used_bytes [] = 0
used_bytes (b ∷ bs) = (if b.free then 0 else header_size + b.size) + used_bytes bs

pub get_memory_usage_percent : Heap → ℕ
get_memory_usage_percent h = u32 (u32 (used_bytes h.blocks) * 100) / pool_size
