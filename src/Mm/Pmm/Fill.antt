-- ===== src/Mm/Pmm/Fill.antt =====
-- `RtMemSet(g_pmm_bitmap, 0xFF, ...)` of PmmInit marks every page as used.
use vibecoded_os.Prelude.{
  ap, ℕ, zero, suc, ◌-◌, ◌*◌, ◌%◌, ◌^◌, ◌≤◌, ◌<◌, ◌≡◌, refl, inl, inr, Bool, true, List, [], ◌∷◌,
  arith, ◌==◌, ◌&&◌, length, Bool-cases, get_or,
}
use vibecoded_os.Prelude.Bits.{test_bit}
use vibecoded_os.Mm.Pmm.{test, fill, index, bitmap_size_max}

ones : ℕ
ones = 2 ^ 64 - 1

all_ones : ℕ → Bool
all_ones zero = true
all_ones (suc n) = test_bit ones n && all_ones n

all_ones_sound : (n k : ℕ) → all_ones n ≡ true → k < n → test_bit ones k ≡ true
unfolding all_ones
all_ones_sound zero k h lt = absurd (omega arith)
all_ones_sound (suc n) k h lt = elim (Bool-cases (k == n)) [
  | inl e ↦ let e' : k ≡ n = ground arith in rw e' (ground arith)
  | inr e ↦ all_ones_sound n k (ground arith) (ground arith)
]

test_bit-ones : (k : ℕ) → k < 64 → test_bit ones k ≡ true
unfolding all_ones test_bit ones
test_bit-ones k h = all_ones_sound 64 k refl h

get_or-fill : (n i : ℕ) (ws : List ℕ) → i < n → n ≤ length ws → get_or (fill n ws) i 0 ≡ ones
unfolding fill ones
get_or-fill zero i ws h b = absurd (omega arith)
get_or-fill (suc n) i [] h b = absurd (omega arith)
get_or-fill (suc n) zero (w ∷ ws) h b = refl
get_or-fill (suc n) (suc i) (w ∷ ws) h b = get_or-fill n i ws (omega arith) (omega arith)

pub length-fill : (n : ℕ) (ws : List ℕ) → length (fill n ws) ≡ length ws
unfolding fill
length-fill zero ws = refl
length-fill (suc n) [] = refl
length-fill (suc n) (w ∷ ws) = ap suc (length-fill n ws)

pub test-fill :
    (n q : ℕ) (ws : List ℕ)
    → q < 64 * n
    → n ≤ length ws
    → length ws ≤ bitmap_size_max
    → test (fill n ws) q ≡ true
unfolding test
test-fill n q ws h b c =
    rw (get_or-fill n (index q) ws (omega arith) b) (test_bit-ones (q % 64) (omega arith))
