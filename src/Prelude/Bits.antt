-- ===== src/Prelude/Bits.antt =====
-- Single bits of a machine word, one binary digit at a time: the C expressions
-- `(w >> k) & 1`, `w | (1ULL << k)` and `w & ~(1ULL << k)`.
use Prim.Native.Nat.{ℕ, zero, suc, ◌+◌, ◌*◌, ◌/◌, ◌%◌, bit_or}
use mathlib.Core.Path.{◌≡◌, refl}
use mathlib.Core.Bool.{Bool, true, false}
use native.Mathlib.Omega.{arith}
use vibecoded_os.Prelude.Tests.{◌==◌, if◌then◌else◌}

-- `(w >> k) & 1`
unfoldable pub test_bit : ℕ → ℕ → Bool
test_bit w zero = w % 2 == 1
test_bit w (suc k) = test_bit (w / 2) k

-- `w | (1ULL << k)`
unfoldable pub set_bit : ℕ → ℕ → ℕ
set_bit w zero = w / 2 * 2 + 1
set_bit w (suc k) = set_bit (w / 2) k * 2 + w % 2

-- `w & ~(1ULL << k)`
unfoldable pub clear_bit : ℕ → ℕ → ℕ
clear_bit w zero = w / 2 * 2
clear_bit w (suc k) = clear_bit (w / 2) k * 2 + w % 2

double_half : (x d : ℕ) → (x * 2 + d % 2) / 2 ≡ x
double_half x d = omega arith

double_low : (x d : ℕ) → (x * 2 + d % 2) % 2 ≡ d % 2
double_low x d = omega arith

pub test_bit-set_bit :
    (w k j : ℕ) → test_bit (set_bit w k) j ≡ (if j == k then true else test_bit w j)
unfolding test_bit set_bit
test_bit-set_bit w zero zero = ground arith
test_bit-set_bit w zero (suc j) =
    rw (let e : (w / 2 * 2 + 1) / 2 ≡ w / 2 = omega arith in e) (ground arith)
test_bit-set_bit w (suc k) zero = rw (double_low (set_bit (w / 2) k) w) (ground arith)
test_bit-set_bit w (suc k) (suc j) =
    rw (double_half (set_bit (w / 2) k) w) (ground (arith, test_bit-set_bit (w / 2) k j))

pub test_bit-clear_bit :
    (w k j : ℕ) → test_bit (clear_bit w k) j ≡ (if j == k then false else test_bit w j)
unfolding test_bit clear_bit
test_bit-clear_bit w zero zero = ground arith
test_bit-clear_bit w zero (suc j) =
    rw (let e : (w / 2 * 2) / 2 ≡ w / 2 = omega arith in e) (ground arith)
test_bit-clear_bit w (suc k) zero = rw (double_low (clear_bit (w / 2) k) w) (ground arith)
test_bit-clear_bit w (suc k) (suc j) =
    rw (double_half (clear_bit (w / 2) k) w) (ground (arith, test_bit-clear_bit (w / 2) k j))

-- The definitions agree with the machine operations on a word.
set_bit_agrees : set_bit 0xa5 3 ≡ bit_or 0xa5 8
unfolding set_bit
set_bit_agrees = refl

-- Setting and then clearing a bit that was clear gives the word back.
pub clear_bit-set_bit : (w k : ℕ) → test_bit w k ≡ false → clear_bit (set_bit w k) k ≡ w
unfolding clear_bit set_bit test_bit
clear_bit-set_bit w zero h = ground arith
clear_bit-set_bit w (suc k) h =
    rw (double_half (set_bit (w / 2) k) w, double_low (set_bit (w / 2) k) w)
      (omega (arith, clear_bit-set_bit (w / 2) k h))
