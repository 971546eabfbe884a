-- ===== src/Chunking/Examples.antt =====
-- The properties of app/asr_gateway_chunking.py on small buffers.
use model_test.Prelude.{◌+◌, ◌≤◌, ◌≡◌, refl, List, [], ◌∷◌, ◌++◌, none, some, false, ok, pos, arith}
use model_test.Chunking.{
  ReadyChunk, PcmRingBuffer, Call, appends, reserves, acknowledges, rolls_back, discards, init,
  reserve_range, acknowledge, rollback, run, after, buffered_samples, reserved_samples,
}
use model_test.Chunking.Invariant.{IsValid, buffer_accounting, init-IsValid}
use model_test.Chunking.Stream.{received, released, over, run-conserves, reserve-settle}

abbrev empty_buffer : PcmRingBuffer
empty_buffer = record {
  max_samples = 4;
  bytes = [];
  base_sample = 0;
  accepted_samples = 0;
  acknowledged_samples = 0;
  discarded_samples = 0;
  reservation = none;
}

abbrev stream_calls : List Call
stream_calls =
    appends (1 ∷ 2 ∷ 3 ∷ 4 ∷ 5 ∷ 6 ∷ [])
    ∷ reserves (pos 2) false
    ∷ rolls_back 0 2
    ∷ reserves (pos 1) false
    ∷ acknowledges 0 1
    ∷ discards (pos 1)
    ∷ []

buffer_accounting_example :
    let b = run empty_buffer stream_calls in
    (b.accepted_samples
      ≡ b.acknowledged_samples + b.discarded_samples + buffered_samples b + reserved_samples b)
    × (buffered_samples b + reserved_samples b ≤ b.max_samples)
unfolding init
buffer_accounting_example = buffer_accounting (pos 4) empty_buffer stream_calls refl

empty_buffer-IsValid : IsValid empty_buffer
unfolding init
empty_buffer-IsValid = init-IsValid (pos 4) empty_buffer refl

run-conserves_example :
    over released empty_buffer stream_calls ++ (run empty_buffer stream_calls).bytes
    ≡ over received empty_buffer stream_calls
run-conserves_example = run-conserves empty_buffer stream_calls empty_buffer-IsValid

abbrev full_buffer : PcmRingBuffer
full_buffer = record empty_buffer { bytes = 1 ∷ 2 ∷ 3 ∷ 4 ∷ []; accepted_samples = 2 }

full_buffer-IsValid : IsValid full_buffer
full_buffer-IsValid = ground arith

abbrev first_chunk : ReadyChunk
first_chunk = record { start_sample = 0; end_sample = 1; pcm = 1 ∷ 2 ∷ []; final = false }

abbrev reserved_buffer : PcmRingBuffer
reserved_buffer = record full_buffer { reservation = some first_chunk }

reserve-settle_example :
    (rollback 0 1 reserved_buffer ≡ ok full_buffer)
    × (1 ∷ 2 ∷ (after reserved_buffer (acknowledge 0 1 reserved_buffer)).bytes ≡ 1 ∷ 2 ∷ 3 ∷ 4 ∷ [])
    × (1 ≡ 0 + 1)
unfolding reserve_range
reserve-settle_example =
    reserve-settle 1 false full_buffer reserved_buffer first_chunk full_buffer-IsValid refl
