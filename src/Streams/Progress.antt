-- ===== src/Streams/Progress.antt =====
-- How the transfers of streaming.c make progress.
use asm_os.Prelude.{
  ℕ, zero, suc, ◌<◌, ◌≡◌, inl, inr, Bool, true, ◌&&◌, arith, ltb, leb, ◌==◌, Bool-cases, length,
}
use asm_os.Streams.{chunk_size, StreamOp, Request, advance_chunk, request, sync_rounds, goes_on}

advance_chunk-goes_on :
    (for_write : Bool) (r : Request)
    → goes_on r ≡ true
    → goes_on (advance_chunk for_write r).1 ≡ true
unfolding goes_on advance_chunk
advance_chunk-goes_on for_write r h = elim (Bool-cases (leb r.length chunk_size)) [
  | inl last ↦ rw last (ground arith)
  | inr more ↦ rw more (ground arith)
]

keeps_going :
    (n : ℕ) (for_write : Bool) (r : Request)
    → goes_on r ≡ true
    → goes_on (sync_rounds n for_write r) ≡ true
unfolding sync_rounds goes_on
keeps_going zero for_write r h = h
keeps_going (suc n) for_write r h =
    let next =
      keeps_going n for_write (advance_chunk for_write r).1 (advance_chunk-goes_on for_write r h) in
    let again : ltb 0 r.length && r.error == 0 ≡ true = h in rw again next

-- The loop of a synchronous transfer of at least one byte goes on after every number of rounds:
-- the last chunk does not take its bytes off the length, so the transfer never returns.
pub sync_rounds-goes_on :
    (n : ℕ) (for_write : Bool) (op : StreamOp) (offset length buffer : ℕ)
    → 0 < length
    → goes_on (sync_rounds n for_write (request op offset length buffer)) ≡ true
unfolding request goes_on
sync_rounds-goes_on n for_write op offset length buffer h =
    keeps_going n for_write (request op offset length buffer) (ground arith)
