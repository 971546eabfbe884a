-- ===== src/Chunking/Invariant.antt =====
-- The invariant of `PcmRingBuffer` (app/asr_gateway_chunking.py) and its sample accounting.
use model_test.Prelude.{
  ℕ, ◌+◌, ◌*◌, ◌/◌, ◌%◌, ◌≤◌, ◌<◌, ◌≡◌, refl, List, [], ◌∷◌, Option, none, some, Bool, arith,
  length, take, length-append, take-append, length-drop, ◌++◌, ◌∙◌, sym, ok, ℤ, pos, negsuc,
}
use model_test.Chunking.{
  ReadyChunk, PcmRingBuffer, Call, appends, reserves, acknowledges, rolls_back, discards, init,
  append, reserve_range, acknowledge, rollback, discard, step, run, sample_count, buffered_samples,
  reserved_samples, after, drop_value,
}

-- The reservation is a nonempty prefix of the buffered bytes, at the base cursor.
abbrev pub IsReserved : ℕ → List ℕ → Option ReadyChunk → Type 0
IsReserved base bytes none = Unit
IsReserved base bytes (some c) =
    (c.start_sample ≡ base)
    × (c.start_sample < c.end_sample)
    × (c.end_sample ≤ base + length bytes / 2)
    × (c.pcm ≡ take (sample_count c * 2) bytes)

pub record IsValid (b : PcmRingBuffer) : Type 0 where
  pub aligned : length b.bytes % 2 ≡ 0
  pub bounded : length b.bytes / 2 ≤ b.max_samples
  pub cursor : b.base_sample ≡ b.acknowledged_samples + b.discarded_samples
  pub accounted : b.accepted_samples ≡ b.base_sample + length b.bytes / 2
  pub reserved : IsReserved b.base_sample b.bytes b.reservation

pub init-IsValid : (n : ℤ) (b : PcmRingBuffer) → init n ≡ ok b → IsValid b
unfolding init
init-IsValid (negsuc n) b h = cc
init-IsValid (pos n) b h = ground arith

IsReserved-append :
    (base : ℕ) (bytes pcm : List ℕ) (r : Option ReadyChunk)
    → IsReserved base bytes r
    → IsReserved base (bytes ++ pcm) r
IsReserved-append base bytes pcm none h = tt
IsReserved-append base bytes pcm (some c) h = (
  h.0,
  h.1,
  omega (arith, length-append bytes pcm),
  h.3 ∙ sym (take-append (sample_count c * 2) bytes pcm (omega arith)),
)

pub append-IsValid :
    (pcm : List ℕ) (b : PcmRingBuffer) → IsValid b → IsValid (after b (drop_value (append pcm b)))
unfolding append
append-IsValid pcm b v = ground (
  arith,
  length-append b.bytes pcm,
  IsReserved-append b.base_sample b.bytes pcm b.reservation v.reserved,
)

pub reserve_range-IsValid :
    (n : ℤ) (final : Bool) (b : PcmRingBuffer)
    → IsValid b
    → IsValid (after b (drop_value (reserve_range n final b)))
unfolding reserve_range
reserve_range-IsValid (negsuc n) final b v = ground arith
reserve_range-IsValid (pos n) final b v = ground arith

acknowledge-IsValid_at :
    (s e : ℕ) (b : PcmRingBuffer) (r : Option ReadyChunk)
    → b.reservation ≡ r
    → IsValid b
    → IsValid (after b (acknowledge s e b))
unfolding acknowledge
acknowledge-IsValid_at s e b none h v = ground arith
acknowledge-IsValid_at s e b (some c) h v = ground (arith, length-drop (sample_count c * 2) b.bytes)

pub acknowledge-IsValid :
    (s e : ℕ) (b : PcmRingBuffer) → IsValid b → IsValid (after b (acknowledge s e b))
acknowledge-IsValid s e b v = acknowledge-IsValid_at s e b b.reservation refl v

pub rollback-IsValid :
    (s e : ℕ) (b : PcmRingBuffer) → IsValid b → IsValid (after b (rollback s e b))
unfolding rollback
rollback-IsValid s e b v = ground arith

pub discard-IsValid : (n : ℤ) (b : PcmRingBuffer) → IsValid b → IsValid (after b (discard n b))
unfolding discard
discard-IsValid (negsuc n) b v = ground arith
discard-IsValid (pos n) b v = ground (arith, length-drop (n * 2) b.bytes)

-- Whatever a call does, raising included, a valid buffer stays valid.
pub step-IsValid : (b : PcmRingBuffer) (c : Call) → IsValid b → IsValid (step b c)
unfolding step
step-IsValid b (appends pcm) v = append-IsValid pcm b v
step-IsValid b (reserves n final) v = reserve_range-IsValid n final b v
step-IsValid b (acknowledges s e) v = acknowledge-IsValid s e b v
step-IsValid b (rolls_back s e) v = rollback-IsValid s e b v
step-IsValid b (discards n) v = discard-IsValid n b v

pub run-IsValid : (b : PcmRingBuffer) (cs : List Call) → IsValid b → IsValid (run b cs)
unfolding run
run-IsValid b [] v = v
run-IsValid b (c ∷ cs) v = run-IsValid (step b c) cs (step-IsValid b c v)

pub accounting :
    (b : PcmRingBuffer) (r : Option ReadyChunk)
    → b.reservation ≡ r
    → IsValid b
    → (b.accepted_samples
        ≡ b.acknowledged_samples + b.discarded_samples + buffered_samples b + reserved_samples b)
      × (buffered_samples b + reserved_samples b ≤ b.max_samples)
accounting b none h v = ground arith
accounting b (some c) h v = ground arith

-- In a buffer made by `__init__`, after any calls, every accepted sample is counted in exactly one
-- of: acknowledged, discarded, buffered and reserved; and no more than `max_samples` samples are
-- held.
pub buffer_accounting :
    (n : ℤ) (b : PcmRingBuffer) (cs : List Call)
    → init n ≡ ok b
    → let b' = run b cs in
      (b'.accepted_samples
        ≡ b'.acknowledged_samples
          + b'.discarded_samples
          + buffered_samples b'
          + reserved_samples b')
      × (buffered_samples b' + reserved_samples b' ≤ b'.max_samples)
buffer_accounting n b cs h =
    accounting (run b cs) (run b cs).reservation refl (run-IsValid b cs (init-IsValid n b h))
