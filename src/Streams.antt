-- ===== src/Streams.antt =====
-- streaming.c: requests that are carried out in chunks. The stream itself is not null. The
-- streaming of the screen is in Streaming.antt.
pub mod Progress
mod Tests
use asm_os.Prelude.{
  ℕ, zero, suc, ◌+◌, ◌-◌, Bool, true, false, not, ◌&&◌, ◌||◌, Option, none, some, List, [], ◌∷◌,
  ◌++◌, ltb, leb, ◌==◌, if◌then◌else◌, length, set, take, replicate,
}
use asm_os.Prelude.Words.{u32}
use mathlib.Core.Option

abbrev pub chunk_size : ℕ
chunk_size = 4096

abbrev pub queue_depth : ℕ
queue_depth = 8

pub data StreamOp : Type 0 where
  op_read : StreamOp
  op_write : StreamOp

pub record Request : Type 0 where
  pub op : StreamOp
  pub offset : ℕ
  pub length : ℕ
  pub buffer : Option ℕ
  pub done : Bool
  pub error : ℕ

-- A call of `plat_fs_write` or `plat_fs_read` with the path of the stream.
pub record Access : Type 0 where
  pub is_write : Bool
  pub buffer : ℕ
  pub length : ℕ

-- `accesses` lists the calls of the file storage, the last one first; their results are ignored.
pub record Stream : Type 0 where
  pub path : List ℕ
  pub for_write : Bool
  pub queue : List Request
  pub queue_head : ℕ
  pub queue_tail : ℕ
  pub active_buf : ℕ
  pub accesses : List Access

-- `allocated` tells if `malloc` succeeded, and `garbage` is what the new memory holds.
pub stream_open : Option (List ℕ) → Bool → Bool → Request → Option Stream
stream_open none for_write allocated garbage = none
stream_open (some path) for_write allocated garbage =
    if not allocated
    then none
    else some (record {
      path = take 127 path;
      for_write = for_write;
      queue = replicate queue_depth (record garbage { done = true; error = 0 });
      queue_head = 0;
      queue_tail = 0;
      active_buf = 0;
      accesses = [];
    })

-- The file access of a chunk of that length.
pub access : Bool → Request → ℕ → List Access
access for_write r n = elim r.buffer [
  | none ↦ []
  | some b ↦ record { is_write = for_write; buffer = b; length = n } ∷ []
]

-- `advance_chunk`: its result, and the request and the accesses that it leaves.
pub advance_chunk : Bool → Request → Bool × Request × List Access
unfolding access
advance_chunk for_write r =
    if leb r.length chunk_size
    then (false, record r { done = true; error = 0 }, access for_write r r.length)
    else (
      true,
      record r {
        offset = u32 (r.offset + chunk_size);
        length = r.length - chunk_size;
        buffer = Option.map (λ b. u32 (b + chunk_size)) r.buffer;
      },
      access for_write r chunk_size,
    )

-- A new request.
pub request : StreamOp → ℕ → ℕ → ℕ → Request
request op offset length buffer = record {
  op = op;
  offset = offset;
  length = length;
  buffer = some buffer;
  done = false;
  error = 0;
}

-- The return codes 0, -1 and -2.
pub data Queued : Type 0 where
  queued : Queued
  bad_argument : Queued
  queue_full : Queued

-- `stream_read_async` and `stream_write_async`, which differ in the operation only; the stream is
-- not null.
pub stream_async : StreamOp → ℕ → ℕ → Option ℕ → Stream → Queued × Stream
unfolding request
stream_async op offset length none s = (bad_argument, s)
stream_async op offset length (some buffer) s =
    if leb queue_depth s.queue_tail then (queue_full, s) else (
      queued,
      record s {
        queue = set s.queue s.queue_tail (request op offset length buffer);
        queue_tail = s.queue_tail + 1;
      },
    )

-- The loop of `stream_poll` over `n` requests.
pub poll_requests : ℕ → Bool → Bool → List Request → List Access → Bool × List Request × List Access
unfolding advance_chunk
poll_requests zero for_write progress rs log = (progress, rs, log)
poll_requests (suc n) for_write progress [] log = (progress, [], log)
poll_requests (suc n) for_write progress (r ∷ rs) log =
    let (more, r', new) = advance_chunk for_write r in
    let (p, rs', log') = poll_requests n for_write progress rs log in
    let (q, rs'', log'') = poll_requests n for_write (progress || more) rs (new ++ log) in
    if r.done then (p, r ∷ rs', log') else (q, r' ∷ rs'', log'')

pub stream_poll : Stream → Bool × Stream
unfolding poll_requests
stream_poll s =
    let (progress, rs, log) = poll_requests s.queue_tail s.for_write false s.queue s.accesses in
    (progress, record s { queue = rs; accesses = log })

-- `n` polls.
pub polls : ℕ → Stream → Stream
unfolding stream_poll
polls zero s = s
polls (suc n) s = polls n (stream_poll s).1

-- The request of `stream_read_sync` and `stream_write_sync` after `n` rounds of their loop, which
-- ends when no byte is left or an error is set.
pub sync_rounds : ℕ → Bool → Request → Request
unfolding advance_chunk
sync_rounds zero for_write r = r
sync_rounds (suc n) for_write r =
    let rest = sync_rounds n for_write (advance_chunk for_write r).1 in
    if ltb 0 r.length && r.error == 0 then rest else r

-- The condition of that loop.
pub goes_on : Request → Bool
goes_on r = ltb 0 r.length && r.error == 0
