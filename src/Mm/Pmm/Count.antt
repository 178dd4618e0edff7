-- ===== src/Mm/Pmm/Count.antt =====
-- The number of set bits of the bitmap below a page, against `g_pmm_used_pages`.
use vibecoded_os.Prelude.{
  ℕ, zero, suc, ◌+◌, ◌*◌, ◌≤◌, ◌<◌, ◌≡◌, refl, inl, inr, true, false, List, arith, ◌==◌,
  if◌then◌else◌, length, Bool-cases, u32_mod, ltb,
}
use vibecoded_os.Mm.Pmm.{Pmm, test, mark, clear, bitmap_size_max}
use vibecoded_os.Mm.Pmm.Bitmap.{InRange, test-mark, test-clear}

-- The set bits among the pages below `n`.
unfoldable pub used_below : ℕ → List ℕ → ℕ
used_below zero ws = 0
used_below (suc n) ws = used_below n ws + (if test ws n then 1 else 0)

pub used_below-le : (n : ℕ) (ws : List ℕ) → used_below n ws ≤ n
unfolding used_below
used_below-le zero ws = omega arith
used_below-le (suc n) ws = ground (arith, used_below-le n ws)

pub used_below-mark :
    (n : ℕ) (ws : List ℕ) (p : ℕ)
    → InRange ws p
    → test ws p ≡ false
    → n ≤ 64 * u32_mod
    → used_below n (mark ws p) ≡ used_below n ws + (if ltb p n then 1 else 0)
unfolding used_below
used_below-mark zero ws p r free b = ground arith
used_below-mark (suc n) ws p r free b =
    ground (arith, used_below-mark n ws p r free (omega arith), test-mark ws p n r (omega arith))

pub used_below-clear :
    (n : ℕ) (ws : List ℕ) (p : ℕ)
    → InRange ws p
    → test ws p ≡ true
    → n ≤ 64 * u32_mod
    → used_below n ws ≡ used_below n (clear ws p) + (if ltb p n then 1 else 0)
unfolding used_below
used_below-clear zero ws p r used b = ground arith
used_below-clear (suc n) ws p r used b =
    ground (arith, used_below-clear n ws p r used (omega arith), test-clear ws p n r (omega arith))

-- All pages below `n` are set.
pub used_below-full :
    (n : ℕ) (ws : List ℕ) → ((k : ℕ) → k < n → test ws k ≡ true) → used_below n ws ≡ n
unfolding used_below
used_below-full zero ws all = refl
used_below-full (suc n) ws all =
    ground (arith, used_below-full n ws (λ k h. all k (omega arith)), all n (omega arith))

pub used_below-lt : (n : ℕ) (ws : List ℕ) (k : ℕ) → k < n → test ws k ≡ false → used_below n ws < n
unfolding used_below
used_below-lt zero ws k h free = absurd (omega arith)
used_below-lt (suc n) ws k h free = elim (Bool-cases (k == n)) [
  | inl e ↦ let e' : k ≡ n = ground arith in ground (arith, used_below-le n ws)
  | inr e ↦ let h' : k < n = ground arith in ground (arith, used_below-lt n ws k h' free)
]

-- The arrays reach past `g_pmm_highest_page`, and their size is within `PMM_BITMAP_SIZE_MAX`.
pub record IsValid (p : Pmm) : Type 0 where
  pub reach : p.highest_page < 64 * length p.bitmap
  pub small : length p.bitmap ≤ bitmap_size_max
  pub pins : length p.pinned ≡ length p.bitmap

-- `g_pmm_used_pages` counts the set bits of the pages that can be allocated.
abbrev pub Counted : Pmm → Type 0
Counted p = p.used_pages ≡ used_below p.highest_page p.bitmap
