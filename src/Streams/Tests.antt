-- ===== src/Streams/Tests.antt =====
-- Runs of streaming.c, and its theorem at a concrete transfer.
use asm_os.Prelude.{◌≡◌, refl, true, false, some, [], ◌∷◌, arith}
use asm_os.Prelude.CString.{codes}
use asm_os.Streams.{
  op_read, Stream, access, advance_chunk, request, queue_full, stream_async, poll_requests,
  stream_poll, polls, sync_rounds, goes_on,
}
use asm_os.Streams.Progress.{sync_rounds-goes_on}

sync_rounds-goes_on_example : goes_on (sync_rounds 9 false (request op_read 0 5000 4096)) ≡ true
sync_rounds-goes_on_example = sync_rounds-goes_on 9 false op_read 0 5000 4096 (omega arith)

abbrev reading : Stream
reading = record {
  path = codes "mass0:a";
  for_write = false;
  queue =
      record {
        op = op_read;
        offset = 0;
        length = 5000;
        buffer = some 8192;
        done = false;
        error = 0;
      }
      ∷ [];
  queue_head = 0;
  queue_tail = 1;
  active_buf = 0;
  accesses = [];
}

-- Two polls read the two chunks.
polled :
    (polls 2 reading).accesses
    ≡ record { is_write = false; buffer = 12288; length = 904 }
      ∷ record { is_write = false; buffer = 8192; length = 4096 }
      ∷ []
unfolding polls stream_poll poll_requests advance_chunk access
polled = refl

-- The queue takes eight requests in its whole life, finished or not.
refused : (stream_async op_read 0 1 (some 8192) (record reading { queue_tail = 8 })).0 ≡ queue_full
unfolding stream_async
refused = refl
