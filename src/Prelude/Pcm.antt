-- ===== src/Prelude/Pcm.antt =====
-- Little-endian signed 16-bit PCM as bytes, and the root mean square of its samples. The energy of
-- a sample is its square, so a negative sample enters by its magnitude.
use Prim.Native.Nat.{ℕ, zero, suc, ◌+◌, ◌-◌, ◌*◌, ◌/◌, ◌≤◌, ◌<◌}
use mathlib.Core.List.{List, [], ◌∷◌}
use native.Mathlib.Omega.{arith}
use model_test.Prelude.Tests.{ltb, leb, ◌==◌, if◌then◌else◌}
use model_test.Prelude.Lists.{length}

-- The magnitude of `int.from_bytes((lo, hi), "little", signed=True)`
abbrev pub magnitude : ℕ → ℕ → ℕ
magnitude lo hi = let v = lo + 256 * hi in if ltb v 32768 then v else 65536 - v

-- The squares of the complete samples, added up; a last odd byte is left out
unfoldable pub total_square : List ℕ → ℕ
total_square [] = 0
total_square (lo ∷ []) = 0
total_square (lo ∷ hi ∷ rest) = magnitude lo hi * magnitude lo hi + total_square rest

-- The integer part of a square root, by counting up from zero
root_below : ℕ → ℕ → ℕ
root_below n zero = 0
root_below n (suc k) = let below = root_below n k in if leb (suc k * suc k) n then suc k else below

unfoldable pub isqrt : ℕ → ℕ
unfolding root_below
isqrt n = root_below n n

root_below_bounds :
    (n k : ℕ)
    → n < suc k * suc k
    → (root_below n k * root_below n k ≤ n) × (n < suc (root_below n k) * suc (root_below n k))
unfolding root_below
root_below_bounds n zero h = (omega arith, h)
root_below_bounds n (suc k) h = ground (arith, root_below_bounds n k)

pub isqrt_bounds : (n : ℕ) → (isqrt n * isqrt n ≤ n) × (n < suc (isqrt n) * suc (isqrt n))
unfolding isqrt
isqrt_bounds n = root_below_bounds n n (grind arith)

-- `int((total_square / sample_count) ** 0.5)`
unfoldable pub pcm_s16le_rms : List ℕ → ℕ
pcm_s16le_rms pcm =
    let count = length pcm / 2 in if count == 0 then 0 else isqrt (total_square pcm / count)
