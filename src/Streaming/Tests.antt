-- ===== src/Streaming/Tests.antt =====
-- The stream of the screen at a concrete state.
use asm_os.Prelude.{◌%◌, ◌≡◌, refl, true, false, [], replicate}
use asm_os.Transport.{no_session}
use asm_os.Streaming.{Streaming, quality_low, streaming_capture_and_send}
use asm_os.Streaming.Frames.Sending.{Streamed, streaming_capture_and_send-Streamed}

abbrev ready : Streaming
ready = record {
  initialized = true;
  running = true;
  quality = quality_low;
  passthrough = false;
  frame_id = 7;
  transport = record {
    session = record no_session { connected = true; local_seq = 65530 };
    tx_buf = replicate 1412 0;
    rx_buf = replicate 1412 0;
    initialized = true;
    transport_ticks = 0;
    next_reconnect_tick = 0;
    reconnect_attempts = 0;
    sent = [];
  };
}

stopped_sends_nothing :
    streaming_capture_and_send
      (λ before p. true)
      (λ a. a % 256)
      []
      (record ready { running = false })
    ≡ (false, record ready { running = false })
unfolding streaming_capture_and_send
stopped_sends_nothing = refl

streaming_capture_and_send-Streamed_example :
    Streamed
      (λ a. a % 256)
      ready
      (streaming_capture_and_send (λ before p. true) (λ a. a % 256) [] ready)
streaming_capture_and_send-Streamed_example =
    streaming_capture_and_send-Streamed (λ before p. true) (λ before p. refl) (λ a. a % 256) []
      ready refl refl refl refl
