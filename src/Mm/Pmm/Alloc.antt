-- ===== src/Mm/Pmm/Alloc.antt =====
-- `PmmAllocPage` of Kernel/mm/pmm.c: first fit, and nothing else changes.
use vibecoded_os.Prelude.{
  ℕ, zero, suc, ◌+◌, ◌*◌, ◌≤◌, ◌<◌, ◌≡◌, refl, ◌⊎◌, inl, inr, true, false, none, some, List, arith,
  ◌==◌, if◌then◌else◌, Bool-cases, Option-cases, u32_mod,
}
use vibecoded_os.Mm.Pmm.{Pmm, test, find_free, alloc_page, page_size}
use vibecoded_os.Mm.Pmm.Bitmap.{test-mark, length-mark}
use vibecoded_os.Mm.Pmm.Count.{used_below-mark, used_below-le, IsValid, Counted}

pub find_free-some :
    (ws : List ℕ) (n i : ℕ) {j : ℕ}
    → find_free ws n i ≡ some j
    → (i ≤ j) × (j < i + n) × (test ws j ≡ false) × ((k : ℕ) → i ≤ k → k < j → test ws k ≡ true)
unfolding find_free
find_free-some ws zero i h = elim (let b : ⊥ = ground arith in b) [ ]
find_free-some ws (suc n) i {j} h = elim (Bool-cases (test ws i)) [
  | inl used ↦
      let h' : find_free ws n (i + 1) ≡ some j = ground arith in
      let ih = find_free-some ws n (i + 1) h' in
      (omega arith, omega arith, ih.2, λ k lo hi. step used ih.3 k lo hi)
  | inr free ↦
      let e : i ≡ j = ground arith in
      (omega arith, omega arith, ground arith, λ k lo hi. absurd (omega arith))
]
  where
    step :
        test ws i ≡ true
        → ((k : ℕ) → i + 1 ≤ k → k < j → test ws k ≡ true)
        → (k : ℕ) → i ≤ k
        → k < j
        → test ws k ≡ true
    step used rest k lo hi = elim (Bool-cases (k == i)) [
      | inl e ↦ let e' : k ≡ i = ground arith in ground arith
      | inr e ↦ rest k (ground arith) hi
    ]

pub find_free-none :
    (ws : List ℕ) (n i : ℕ)
    → find_free ws n i ≡ none
    → (k : ℕ) → i ≤ k
    → k < i + n
    → test ws k ≡ true
unfolding find_free
find_free-none ws zero i h k lo hi = absurd (omega arith)
find_free-none ws (suc n) i h k lo hi = elim (Bool-cases (test ws i)) [
  | inl used ↦ elim (Bool-cases (k == i)) [
    | inl e ↦ let e' : k ≡ i = ground arith in ground arith
    | inr e ↦ find_free-none ws n (i + 1) (ground arith) k (ground arith) (omega arith)
  ]
  | inr free ↦ absurd (let b : ⊥ = ground arith in b)
]

-- What a successful `PmmAllocPage` does: the first free page below `highest_page` is the result, it
-- alone becomes used, and the counter goes up by one.
pub record Allocated (p : Pmm) (i : ℕ) (r : ℕ × Pmm) : Type 0 where
  pub address : r.0 ≡ i * page_size
  pub below : i < p.highest_page
  pub was_free : test p.bitmap i ≡ false
  pub first : (k : ℕ) → k < i → test p.bitmap k ≡ true
  pub bits :
      (q : ℕ) → q < 64 * u32_mod → test r.1.bitmap q ≡ (if q == i then true else test p.bitmap q)
  pub counter : r.1.used_pages ≡ p.used_pages + 1
  pub kept :
      (r.1.highest_page ≡ p.highest_page)
      × (r.1.pinned ≡ p.pinned)
      × (r.1.total_pages ≡ p.total_pages)

abbrev pub AllUsed : Pmm → Type 0
AllUsed p = (k : ℕ) → k < p.highest_page → test p.bitmap k ≡ true

-- On a valid state whose counter is exact, PmmAllocPage either takes the first free page (its
-- address is returned, only its bit changes, the counter goes up by one), or every page below
-- `highest_page` is used and it returns 0 and changes nothing.
pub alloc_page_lem :
    {p : Pmm}
    → IsValid p
    → Counted p
    → ((i : ℕ) × Allocated p i (alloc_page p)) ⊎ (AllUsed p × (alloc_page p ≡ (0, p)))
unfolding alloc_page
alloc_page_lem {p} v c = elim (Option-cases (find_free p.bitmap p.highest_page 0)) [
  | inl e ↦
      inr (λ k h. find_free-none p.bitmap p.highest_page 0 e k (omega arith) (omega arith), rw e)
  | inr (i, e) ↦
      let f = find_free-some p.bitmap p.highest_page 0 e in
      inl (
        i,
        rw e (record {
          address = omega arith;
          below = omega arith;
          was_free = f.2;
          first = λ k h. f.3 k (omega arith) h;
          bits = λ q h. test-mark p.bitmap i q (omega arith) h;
          counter = omega (arith, used_below-le p.highest_page p.bitmap);
          kept = (refl, refl, refl);
        }),
      )
]

pub alloc_page-IsValid : {p : Pmm} → IsValid p → IsValid (alloc_page p).1
unfolding alloc_page
alloc_page-IsValid {p} v = elim (Option-cases (find_free p.bitmap p.highest_page 0)) [
  | inl e ↦ rw e v
  | inr (i, e) ↦ rw e (ground (arith, length-mark p.bitmap i))
]

-- PmmAllocPage keeps the counter exact: it equals the number of used pages below `highest_page`.
pub alloc_page-Counted : {p : Pmm} → IsValid p → Counted p → Counted (alloc_page p).1
unfolding alloc_page
alloc_page-Counted {p} v c = elim (Option-cases (find_free p.bitmap p.highest_page 0)) [
  | inl e ↦ rw e c
  | inr (i, e) ↦
      let f = find_free-some p.bitmap p.highest_page 0 e in
      rw e (
        ground (
          arith,
          used_below-mark p.highest_page p.bitmap i (omega arith) f.2 (omega arith),
          used_below-le p.highest_page p.bitmap,
        ))
]
