-- ===== src/Mm/Pmm/Pins.antt =====
-- What PmmPinPage promises (Kernel/mm/pmm.h: "Pin a page so PmmFreePage will never release it"),
-- over every sequence of calls of the allocator.
use vibecoded_os.Prelude.{
  ℕ, zero, suc, ◌+◌, ◌*◌, ◌/◌, ◌≤◌, ◌<◌, ◌≡◌, refl, inl, inr, true, some, List, [], ◌∷◌, arith,
  ◌==◌, Bool-cases, Option-cases, u32_mod, add64, mul64,
}
use vibecoded_os.Mm.Pmm.{
  Pmm, test, alloc_page, alloc_pages, free_page, free_pages, free_loop, pin_page, page_size,
  take_run, find_free, find_run,
}
use vibecoded_os.Mm.Pmm.Bitmap.{InRange, test-mark, length-mark_run, length-mark}
use vibecoded_os.Mm.Pmm.Count.{IsValid}
use vibecoded_os.Mm.Pmm.Alloc.{find_free-some}
use vibecoded_os.Mm.Pmm.Free.{free_page-IsValid, free_page_others, free_page_pinned, free_page_pins}
use vibecoded_os.Mm.Pmm.Runs.{find_run-some, test-mark_run}

-- The calls of the allocator.
pub data Call : Type 0 where
  alloc : Call
  alloc_n : ℕ → Call
  free : ℕ → Call
  free_n : ℕ → ℕ → Call
  pin : ℕ → Call

unfoldable pub step : Call → Pmm → Pmm
step alloc p = (alloc_page p).1
step (alloc_n n) p = (alloc_pages n p).1
step (free a) p = free_page a p
step (free_n a n) p = free_pages a n p
step (pin a) p = pin_page a p

unfoldable pub run : List Call → Pmm → Pmm
run [] p = p
run (c ∷ cs) p = run cs (step c p)

-- The page is pinned and used, in a state whose arrays hold it.
pub record Held (q : ℕ) (p : Pmm) : Type 0 where
  pub valid : IsValid p
  pub pinned : test p.pinned q ≡ true
  pub used : test p.bitmap q ≡ true
  pub below : q < 64 * u32_mod

alloc_page-Held : (q : ℕ) (p : Pmm) → Held q p → Held q (alloc_page p).1
unfolding alloc_page
alloc_page-Held q p h = elim (Option-cases (find_free p.bitmap p.highest_page 0)) [
  | inl e ↦ rw e h
  | inr (i, e) ↦
      let f = find_free-some p.bitmap p.highest_page 0 e in
      rw e (ground (arith, h.valid, test-mark p.bitmap i q, length-mark p.bitmap i))
]

take_run-Held :
    (q count s : ℕ) (p : Pmm)
    → Held q p
    → s + count ≤ p.highest_page
    → Held q (take_run count p (some s)).1
take_run-Held q count s p h b =
    let v = h.valid in
    ground (arith, test-mark_run count s p.bitmap q, length-mark_run count s p.bitmap)

alloc_pages-Held : (q n : ℕ) (p : Pmm) → Held q p → Held q (alloc_pages n p).1
unfolding alloc_pages
alloc_pages-Held q n p h = elim (Option-cases (find_run p.bitmap n p.highest_page 0 0 0)) [
  | inl e ↦ rw e (ground (arith, alloc_page-Held q p))
  | inr (s, e) ↦
      let f =
        find_run-some p.bitmap n p.highest_page 0 0 0
          (omega arith, λ k lo hi. absurd (omega arith), λ z. absurd (z refl)) e in
      rw e (ground (arith, alloc_page-Held q p, take_run-Held q n s p h (omega arith)))
]

free_page-Held : (q a : ℕ) (p : Pmm) → Held q p → Held q (free_page a p)
free_page-Held q a p h = elim (Bool-cases (q == a / page_size)) [
  | inl e ↦
      let e' : q ≡ a / page_size = ground arith in
      rw (free_page_pinned {p = p} a (rw e' at (h.pinned))) h
  | inr e ↦ record {
    valid = free_page-IsValid a h.valid;
    pinned = rw (free_page_pins p a) h.pinned;
    used = rw (free_page_others {p = p} a q h.valid h.below (ground arith)) h.used;
    below = h.below;
  }
]

free_loop-Held : (q a n i : ℕ) (p : Pmm) → Held q p → Held q (free_loop a n i p)
unfolding free_loop
free_loop-Held q a zero i p h = h
free_loop-Held q a (suc n) i p h =
    free_loop-Held q a n (i + 1) (free_page (add64 a (mul64 i page_size)) p)
      (free_page-Held q (add64 a (mul64 i page_size)) p h)

pin_page-Held : (q a : ℕ) (p : Pmm) → Held q p → Held q (pin_page a p)
unfolding pin_page
pin_page-Held q a p h =
    let v = h.valid in
    ground (
      arith,
      λ (r : InRange p.pinned (a / page_size)). test-mark p.pinned (a / page_size) q r h.below,
      length-mark p.pinned (a / page_size),
    )

step-Held : (q : ℕ) (c : Call) (p : Pmm) → Held q p → Held q (step c p)
unfolding step free_pages
step-Held q alloc p h = alloc_page-Held q p h
step-Held q (alloc_n n) p h = alloc_pages-Held q n p h
step-Held q (free a) p h = free_page-Held q a p h
step-Held q (free_n a n) p h = free_loop-Held q a n 0 p h
step-Held q (pin a) p h = pin_page-Held q a p h

-- A page that is pinned and used stays pinned and used, and the state valid, through every sequence
-- of allocations, frees and pinnings, also of frees that name the page itself.
pub run-Held : (q : ℕ) (cs : List Call) (p : Pmm) → Held q p → Held q (run cs p)
unfolding run
run-Held q [] p h = h
run-Held q (c ∷ cs) p h = run-Held q cs (step c p) (step-Held q c p h)
