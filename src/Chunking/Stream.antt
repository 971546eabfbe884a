-- ===== src/Chunking/Stream.antt =====
-- `PcmRingBuffer` (app/asr_gateway_chunking.py) as a stream: what goes in comes out once, in order.
use mathlib.Core.Path.{◌≡⟨◌⟩◌, ◌∎}
use model_test.Prelude.{
  ℕ, ◌+◌, ◌*◌, ◌≡◌, refl, sym, ap, ◌∙◌, List, [], ◌∷◌, ◌++◌, Option, none, some, Bool, arith,
  append-nil, append_assoc, take, take-append-drop, ok, pos, negsuc, is_ok, if◌then◌else◌,
}
use model_test.Chunking.{
  ReadyChunk, PcmRingBuffer, Call, appends, reserves, acknowledges, rolls_back, discards, append,
  reserve_range, acknowledge, rollback, discard, step, run, sample_count, after,
}
use model_test.Chunking.Invariant.{IsValid, step-IsValid}

-- The bytes that a call brings in.
pub received : PcmRingBuffer → Call → List ℕ
received b (appends pcm) = if is_ok (append pcm b) then pcm else []
received b _ = []

abbrev chunk_pcm : Option ReadyChunk → List ℕ
chunk_pcm none = []
chunk_pcm (some c) = c.pcm

-- The bytes that a call takes out: those of the acknowledged chunk, or those discarded.
pub released : PcmRingBuffer → Call → List ℕ
released b (acknowledges s e) = if is_ok (acknowledge s e b) then chunk_pcm b.reservation else []
released b (discards (pos n)) = if is_ok (discard (pos n) b) then take (n * 2) b.bytes else []
released b _ = []

abbrev pub over : (PcmRingBuffer → Call → List ℕ) → PcmRingBuffer → List Call → List ℕ
over f b [] = []
over f b (c ∷ cs) = f b c ++ over f (step b c) cs

acknowledge_conserves :
    (s e : ℕ) (b : PcmRingBuffer) (r : Option ReadyChunk)
    → b.reservation ≡ r
    → IsValid b
    → released b (acknowledges s e) ++ (step b (acknowledges s e)).bytes ≡ b.bytes
unfolding released step acknowledge
acknowledge_conserves s e b none h v = ground arith
acknowledge_conserves s e b (some c) h v =
    ground (arith, take-append-drop (sample_count c * 2) b.bytes)

step_conserves :
    (b : PcmRingBuffer) (c : Call)
    → IsValid b
    → released b c ++ (step b c).bytes ≡ b.bytes ++ received b c
unfolding received released step append reserve_range rollback discard
step_conserves b (appends pcm) v = ground (arith, append-nil b.bytes)
step_conserves b (reserves (pos n) final) v = ground (arith, append-nil b.bytes)
step_conserves b (reserves (negsuc n) final) v = ground (arith, append-nil b.bytes)
step_conserves b (acknowledges s e) v =
    acknowledge_conserves s e b b.reservation refl v ∙ sym (append-nil b.bytes)
step_conserves b (rolls_back s e) v = ground (arith, append-nil b.bytes)
step_conserves b (discards (pos n)) v =
    ground (arith, append-nil b.bytes, take-append-drop (n * 2) b.bytes)
step_conserves b (discards (negsuc n)) v = ground (arith, append-nil b.bytes)

-- From a valid buffer, after any calls: the bytes taken out, in order, followed by the bytes still
-- held are the bytes held at first followed by the bytes brought in. So each accepted byte leaves
-- at most once, in order, and none is lost or made up.
pub run-conserves :
    (b : PcmRingBuffer) (cs : List Call)
    → IsValid b
    → over released b cs ++ (run b cs).bytes ≡ b.bytes ++ over received b cs
unfolding run
run-conserves b [] v = sym (append-nil b.bytes)
run-conserves b (c ∷ cs) v =
    (released b c ++ over released (step b c) cs) ++ (run (step b c) cs).bytes
    ≡⟨ append_assoc (released b c) _ _ ⟩
      released b c ++ (over released (step b c) cs ++ (run (step b c) cs).bytes)
    ≡⟨ ap (◌++◌ (released b c)) (run-conserves (step b c) cs (step-IsValid b c v)) ⟩
      released b c ++ ((step b c).bytes ++ over received (step b c) cs)
    ≡⟨ sym (append_assoc (released b c) _ _) ⟩
      (released b c ++ (step b c).bytes) ++ over received (step b c) cs
    ≡⟨ ap (λ l. l ++ over received (step b c) cs) (step_conserves b c v) ⟩
      (b.bytes ++ received b c) ++ over received (step b c) cs
    ≡⟨ append_assoc b.bytes _ _ ⟩ b.bytes ++ (received b c ++ over received (step b c) cs) ∎

-- On a valid buffer with no reservation, `reserve_range n` followed by `rollback` of the range
-- restores the buffer, and followed by `acknowledge` of the range removes exactly the reserved
-- bytes from the front.
pub reserve-settle :
    (n : ℕ) (final : Bool) (b b' : PcmRingBuffer) (c : ReadyChunk)
    → IsValid b
    → reserve_range (pos n) final b ≡ ok (c, b')
    → (rollback c.start_sample c.end_sample b' ≡ ok b)
      × (c.pcm ++ (after b' (acknowledge c.start_sample c.end_sample b')).bytes ≡ b.bytes)
      × (c.end_sample ≡ c.start_sample + n)
unfolding reserve_range rollback acknowledge
reserve-settle n final b b' c v h = ground (arith, take-append-drop (n * 2) b.bytes)
