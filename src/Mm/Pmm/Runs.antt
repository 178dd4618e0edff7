-- ===== src/Mm/Pmm/Runs.antt =====
-- `PmmAllocPages` of Kernel/mm/pmm.c: a run of free pages is found exactly if there is one.
use vibecoded_os.Prelude.{
  ℕ, zero, suc, ◌+◌, ◌-◌, ◌*◌, ◌≤◌, ◌<◌, ◌≡◌, ◌∙◌, refl, ◌≢◌, ◌⊎◌, inl, inr, true, false, none,
  some, List, arith, ◌==◌, ◌&&◌, if◌then◌else◌, length, Bool-cases, Option-cases, u32_mod, ltb, leb,
}
use vibecoded_os.Mm.Pmm.{Pmm, test, mark, find_run, mark_run, take_run, alloc_pages, page_size}
use vibecoded_os.Mm.Pmm.Bitmap.{test-mark, length-mark, length-mark_run}
use vibecoded_os.Mm.Pmm.Count.{used_below, used_below-mark, used_below-le, IsValid, Counted}
use vibecoded_os.Mm.Pmm.Alloc.{alloc_page_lem, alloc_page-IsValid, alloc_page-Counted}

-- All pages of `[s, e)` are free.
abbrev pub FreeRun : List ℕ → ℕ → ℕ → Type 0
FreeRun ws s e = (k : ℕ) → s ≤ k → k < e → test ws k ≡ false

extend : (ws : List ℕ) (s i : ℕ) → FreeRun ws s i → test ws i ≡ false → FreeRun ws s (i + 1)
extend ws s i run free k lo hi = elim (Bool-cases (k == i)) [
  | inl e ↦ let e' : k ≡ i = ground arith in ground arith
  | inr e ↦ run k lo (ground arith)
]

-- `found` pages are free from `start` up to `i`.
abbrev Partial : List ℕ → (i found start : ℕ) → Type 0
Partial ws i found start = (found ≤ i) × FreeRun ws (i - found) i × (found ≢ 0 → start + found ≡ i)

Partial-next :
    (ws : List ℕ) (i found start : ℕ)
    → Partial ws i found start
    → test ws i ≡ false
    → Partial ws (i + 1) (found + 1) (if found == 0 then i else start)
Partial-next ws i found start (le, run, at) free = (
  omega arith,
  let e : i + 1 - (found + 1) ≡ i - found = omega arith in rw e (extend ws (i - found) i run free),
  λ _. starts,
)
  where
    starts : (if found == 0 then i else start) + (found + 1) ≡ i + 1
    starts = elim (Bool-cases (found == 0)) [
      | inl z ↦ ground arith
      | inr z ↦ let nz : found ≢ 0 = ground arith in let e = at nz in ground arith
    ]

pub find_run-some :
    (ws : List ℕ) (count n i found start : ℕ) {s : ℕ}
    → Partial ws i found start
    → find_run ws count n i found start ≡ some s
    → (s + count ≤ i + n) × FreeRun ws s (s + count)
unfolding find_run
find_run-some ws count zero i found start part h = absurd (let b : ⊥ = ground arith in b)
find_run-some ws count (suc n) i found start {s} part h = elim (Bool-cases (test ws i)) [
  | inl used ↦
      let h' : find_run ws count n (i + 1) 0 start ≡ some s = ground arith in
      let r =
        find_run-some ws count n (i + 1) 0 start
          (omega arith, λ k lo hi. absurd (omega arith), λ z. absurd (z refl)) h' in
      (omega arith, r.1)
  | inr free ↦
      let next = Partial-next ws i found start part free in
      elim (Bool-cases (found + 1 == count)) [
        | inl full ↦
            let es : (if found == 0 then i else start) ≡ s = ground arith in
            let len : s + count ≡ i + 1 =
              omega
                (arith, next.2 (omega arith), let q : found + 1 ≡ count = ground arith in q, es) in
            (
              omega arith,
              rw len (
                  let lo : i + 1 - (found + 1) ≡ s =
                    omega (arith, let q : found + 1 ≡ count = ground arith in q) in
                  rw lo at next.1),
            )
        | inr more ↦
            let h' : find_run ws count n (i + 1) (found + 1) (if found == 0 then i else start)
                ≡ some s =
              ground arith in
            let r =
              find_run-some ws count n (i + 1) (found + 1) (if found == 0 then i else start) next
                h' in
            (omega arith, r.1)
      ]
]

-- A run of `count` free pages from page `s` on.
find_run-none :
    (ws : List ℕ) (count n i found start : ℕ)
    → found < count
    → find_run ws count n i found start ≡ none
    → (s : ℕ) → i ≤ s + found
    → s + count ≤ i + n
    → ¬ FreeRun ws s (s + count)
unfolding find_run
find_run-none ws count zero i found start lt h s lo hi run = omega arith
find_run-none ws count (suc n) i found start lt h s lo hi run = elim (Bool-cases (test ws i)) [
  | inl used ↦
      let h' : find_run ws count n (i + 1) 0 start ≡ none = ground arith in
      elim (Bool-cases (leb s i)) [
        | inl below ↦ let f = run i (ground arith) (omega arith) in ground arith
        | inr above ↦
            find_run-none ws count n (i + 1) 0 start (omega arith) h' s (ground arith) (omega arith)
              run
      ]
  | inr free ↦ elim (Bool-cases (found + 1 == count)) [
    | inl full ↦ ground arith
    | inr more ↦
        find_run-none ws count n (i + 1) (found + 1) (if found == 0 then i else start)
          (ground arith) (ground arith) s (omega arith) (omega arith) run
  ]
]

pub test-mark_run :
    (n j : ℕ) (ws : List ℕ) (q : ℕ)
    → j + n ≤ 64 * length ws
    → j + n ≤ 64 * u32_mod
    → q < 64 * u32_mod
    → test (mark_run n j ws) q ≡ (if leb j q && ltb q (j + n) then true else test ws q)
unfolding mark_run
test-mark_run zero j ws q b c d = ground arith
test-mark_run (suc n) j ws q b c d = ground (
  arith,
  test-mark_run n (j + 1) (mark ws j) q (omega (arith, length-mark ws j)) (omega arith) d,
  test-mark ws j q (omega arith) d,
)

used_below-mark_run :
    (n j m : ℕ) (ws : List ℕ)
    → j + n ≤ m
    → m ≤ 64 * length ws
    → m ≤ 64 * u32_mod
    → FreeRun ws j (j + n)
    → used_below m (mark_run n j ws) ≡ used_below m ws + n
unfolding mark_run
used_below-mark_run zero j m ws a b c run = omega arith
used_below-mark_run (suc n) j m ws a b c run = ground (
  arith,
  used_below-mark_run n (j + 1) m (mark ws j) (omega arith) (omega (arith, length-mark ws j)) c
      rest,
  used_below-mark m ws j (omega arith) (run j (omega arith) (omega arith)) c,
)
  where
    rest : FreeRun (mark ws j) (j + 1) (j + 1 + n)
    rest k lo hi =
        let t = test-mark ws j k (omega arith) (omega arith) in
        let f = run k (omega arith) (omega arith) in ground arith

-- What a successful `PmmAllocPages` of several pages does.
pub record TookRun (p : Pmm) (count s : ℕ) (r : ℕ × Pmm) : Type 0 where
  pub address : r.0 ≡ s * page_size
  pub below : s + count ≤ p.highest_page
  pub were_free : FreeRun p.bitmap s (s + count)
  pub bits :
      (q : ℕ)
      → q < 64 * u32_mod
      → test r.1.bitmap q ≡ (if leb s q && ltb q (s + count) then true else test p.bitmap q)
  pub counted : Counted r.1
  pub valid : IsValid r.1

abbrev pub NoRun : Pmm → ℕ → Type 0
NoRun p count = (s : ℕ) → s + count ≤ p.highest_page → ¬ FreeRun p.bitmap s (s + count)

take_run_lem :
    {p : Pmm} (count s : ℕ)
    → IsValid p
    → Counted p
    → s + count ≤ p.highest_page
    → FreeRun p.bitmap s (s + count)
    → TookRun p count s (take_run count p (some s))
take_run_lem {p} count s v c b run =
    let u = used_below-mark_run count s p.highest_page p.bitmap b (omega arith) (omega arith) run in
    let le = used_below-le p.highest_page (mark_run count s p.bitmap) in
    record {
      address = omega arith;
      below = b;
      were_free = run;
      bits = λ q h. test-mark_run count s p.bitmap q (omega arith) (omega arith) h;
      counted = omega arith;
      valid = omega (arith, length-mark_run count s p.bitmap);
    }

alloc_pages_several :
    {p : Pmm} (count : ℕ)
    → 2 ≤ count
    → IsValid p
    → Counted p
    → ((s : ℕ) × TookRun p count s (alloc_pages count p))
      ⊎ (NoRun p count × (alloc_pages count p ≡ (0, p)))
unfolding alloc_pages
alloc_pages_several {p} count two v c =
    elim (Option-cases (find_run p.bitmap count p.highest_page 0 0 0)) [
      | inl e ↦ inr (
        λ s h.
            find_run-none p.bitmap count p.highest_page 0 0 0 (omega arith) e s (omega arith)
              (omega arith),
        rw (n0, n1, e),
      )
      | inr (s, e) ↦
          let f =
            find_run-some p.bitmap count p.highest_page 0 0 0
              (omega arith, λ k lo hi. absurd (omega arith), λ z. absurd (z refl)) e in
          inl (s, rw (n0, n1, e) (take_run_lem count s v c (omega arith) f.1))
    ]
  where
    n0 : (count == 0) ≡ false
    n0 = ground arith

    n1 : (count == 1) ≡ false
    n1 = ground arith

alloc_pages_one :
    {p : Pmm}
    → IsValid p
    → Counted p
    → ((s : ℕ) × TookRun p 1 s (alloc_pages 1 p)) ⊎ (NoRun p 1 × (alloc_pages 1 p ≡ (0, p)))
unfolding alloc_pages
alloc_pages_one {p} v c = elim (alloc_page_lem v c) [
  | inl (i, a) ↦ inl (
    i,
    record {
      address = a.address;
      below = let b = a.below in omega arith;
      were_free = λ k lo hi. let e : k ≡ i = omega arith in rw e a.was_free;
      bits = λ q h. a.bits q h ∙ same_test i q;
      counted = alloc_page-Counted v c;
      valid = alloc_page-IsValid v;
    },
  )
  | inr (full, e) ↦ inr (
    λ s h run.
        let f = run s (omega arith) (omega arith) in let t = full s (omega arith) in ground arith,
    e,
  )
]
  where
    same_test :
        (i q : ℕ)
        → (if q == i then true else test p.bitmap q)
          ≡ (if leb i q && ltb q (i + 1) then true else test p.bitmap q)
    same_test i q = ground arith

-- For one page or more, on a valid state with an exact counter: either PmmAllocPages returns the
-- address of a run of free pages below `highest_page`, sets exactly the bits of that run and keeps
-- the counter exact and the state valid, or there is no such run, and it returns 0 and changes
-- nothing.
pub alloc_pages_lem :
    {p : Pmm} (count : ℕ)
    → 1 ≤ count
    → IsValid p
    → Counted p
    → ((s : ℕ) × TookRun p count s (alloc_pages count p))
      ⊎ (NoRun p count × (alloc_pages count p ≡ (0, p)))
alloc_pages_lem {p} count one v c = elim (Bool-cases (count == 1)) [
  | inl e ↦ let e' : count ≡ 1 = ground arith in rw e' (alloc_pages_one v c)
  | inr e ↦ alloc_pages_several count (ground arith) v c
]

alloc_pages_few :
    {p : Pmm} (n : ℕ)
    → n < 2
    → IsValid p
    → Counted p
    → IsValid (alloc_pages n p).1 × Counted (alloc_pages n p).1
unfolding alloc_pages
alloc_pages_few zero h v c = (v, c)
alloc_pages_few (suc zero) h v c = (alloc_page-IsValid v, alloc_page-Counted v c)
alloc_pages_few (suc (suc n)) h v c = absurd (omega arith)

-- PmmAllocPages keeps the state valid and the counter exact, whatever the count.
pub alloc_pages_keeps :
    {p : Pmm} (count : ℕ)
    → IsValid p
    → Counted p
    → IsValid (alloc_pages count p).1 × Counted (alloc_pages count p).1
alloc_pages_keeps {p} count v c = elim (Bool-cases (leb 2 count)) [
  | inl two ↦ elim (alloc_pages_several count (ground arith) v c) [
    | inl (s, t) ↦ (t.valid, t.counted)
    | inr (_, e) ↦ rw e (v, c)
  ]
  | inr small ↦ alloc_pages_few count (ground arith) v c
]
