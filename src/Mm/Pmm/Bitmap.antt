-- ===== src/Mm/Pmm/Bitmap.antt =====
-- The laws of the bitmap of Kernel/mm/pmm.c, and the count of its set bits.
use vibecoded_os.Prelude.{
  ℕ, zero, suc, ◌+◌, ◌*◌, ◌%◌, ◌<◌, ◌≡◌, refl, true, false, List, [], ◌∷◌, arith, ◌==◌,
  if◌then◌else◌, length, get_or, set, length-set, u32_mod,
}
use vibecoded_os.Prelude.Bits.{set_bit, clear_bit, test_bit-set_bit, test_bit-clear_bit}
use vibecoded_os.Mm.Pmm.{test, mark, clear, mark_run, index}

get_or-set :
    (ws : List ℕ) (i j v : ℕ)
    → i < length ws
    → get_or (set ws i v) j 0 ≡ (if i == j then v else get_or ws j 0)
get_or-set [] i j v h = absurd (omega arith)
get_or-set (w ∷ ws) zero zero v h = refl
get_or-set (w ∷ ws) zero (suc j) v h = ground arith
get_or-set (w ∷ ws) (suc i) zero v h = ground arith
get_or-set (w ∷ ws) (suc i) (suc j) v h = ground (arith, get_or-set ws i j v)

-- Page `p` has a bit in the array `ws`.
abbrev pub InRange : List ℕ → ℕ → Type 0
InRange ws p = (p < 64 * length ws) × (p < 64 * u32_mod)

pub test-mark :
    (ws : List ℕ) (p q : ℕ)
    → InRange ws p
    → q < 64 * u32_mod
    → test (mark ws p) q ≡ (if q == p then true else test ws q)
unfolding test mark
test-mark ws p q h k = ground (
  arith,
  get_or-set ws (index p) (index q) (set_bit (get_or ws (index p) 0) (p % 64)),
  test_bit-set_bit (get_or ws (index p) 0) (p % 64) (q % 64),
)

pub test-clear :
    (ws : List ℕ) (p q : ℕ)
    → InRange ws p
    → q < 64 * u32_mod
    → test (clear ws p) q ≡ (if q == p then false else test ws q)
unfolding test clear
test-clear ws p q h k = ground (
  arith,
  get_or-set ws (index p) (index q) (clear_bit (get_or ws (index p) 0) (p % 64)),
  test_bit-clear_bit (get_or ws (index p) 0) (p % 64) (q % 64),
)

pub length-mark : (ws : List ℕ) (p : ℕ) → length (mark ws p) ≡ length ws
unfolding mark
length-mark ws p = length-set ws _ _

pub length-clear : (ws : List ℕ) (p : ℕ) → length (clear ws p) ≡ length ws
unfolding clear
length-clear ws p = length-set ws _ _

pub length-mark_run : (n j : ℕ) (ws : List ℕ) → length (mark_run n j ws) ≡ length ws
unfolding mark_run
length-mark_run zero j ws = refl
length-mark_run (suc n) j ws =
    omega (arith, length-mark_run n (j + 1) (mark ws j), length-mark ws j)
