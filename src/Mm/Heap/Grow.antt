-- ===== src/Mm/Heap/Grow.antt =====
-- The invariant of Kernel/mm/heap.c and KmAlloc as a whole, on top of the page allocator.
use vibecoded_os.Prelude.{
  ℕ, ◌+◌, ◌-◌, ◌*◌, ◌/◌, ◌%◌, ◌≤◌, ◌<◌, ◌≡◌, ◌∙◌, refl, ◌≢◌, ◌⊎◌, inl, inr, true, false, none, some,
  [], ◌∷◌, ◌++◌, arith, ◌==◌, ◌&&◌, if◌then◌else◌, Bool-cases, u64_mod, u32_mod, add64, sub64,
  mul64, ltb, leb,
}
use vibecoded_os.Mm.Pmm.{Pmm, alloc_pages, page_size, test}
use vibecoded_os.Mm.Pmm.Count.{IsValid, Counted}
use vibecoded_os.Mm.Pmm.Runs.{TookRun, NoRun, alloc_pages_lem}
use vibecoded_os.Mm.Heap.{Block, Heap, header_size, expand, pages_for, phys_offset, fresh_block}
use vibecoded_os.Mm.Heap.Chain.{
  IsBlock, AllBlocks, busy, bytes, cover, cover_one, AllBlocks-append, busy-append, bytes-append,
  cover-append,
}

-- The byte at `x` lies in a page that the page allocator has handed out.
abbrev pub Backed : Pmm → ℕ → Type 0
Backed p x =
    (phys_offset ≤ x) × (x < u64_mod) × (test p.bitmap ((x - phys_offset) / page_size) ≡ true)

-- The heap after VmmInit. The two counters are u64, so they are exact modulo 2^64.
pub record IsGood (h : Heap) : Type 0 where
  pub active : h.vmm_active ≡ true
  pub pmm_valid : IsValid h.pmm
  pub pmm_counted : Counted h.pmm
  pub blocks : AllBlocks h.chain
  pub apart : (x : ℕ) → cover x h.chain ≤ 1
  pub backed : (x : ℕ) → cover x h.chain ≢ 0 → Backed h.pmm x
  pub total : h.total ≡ bytes h.chain % u64_mod
  pub used : h.used ≡ busy h.chain % u64_mod

-- The block that HeapExpand makes of the pages from `s` on.
abbrev new_block : ℕ → ℕ → Block
new_block s pages =
    fresh_block (add64 (s * page_size) phys_offset) (sub64 (mul64 pages page_size) header_size)

module _ {h : Heap} (good : IsGood h) (pages s : ℕ) (one : 1 ≤ pages)
    (took : TookRun h.pmm pages s (alloc_pages pages h.pmm)) (kept : s ≢ 0) where
  p' : Pmm
  p' = (alloc_pages pages h.pmm).1

  new_IsBlock : IsBlock (new_block s pages)
  new_IsBlock =
      let v = good.pmm_valid in
      let b = took.below in record { magic = refl; low = omega arith; high = omega arith }

  new_cover :
      (x : ℕ)
      → cover_one x (new_block s pages) ≢ 0
      → (phys_offset ≤ x)
        × (s ≤ (x - phys_offset) / page_size)
        × ((x - phys_offset) / page_size < s + pages)
  new_cover x c = let v = good.pmm_valid in let b = took.below in ground arith

  page_bits :
      (q : ℕ)
      → q < 64 * u32_mod
      → test p'.bitmap q ≡ (if leb s q && ltb q (s + pages) then true else test h.pmm.bitmap q)
  unfolding p'
  page_bits = took.bits

  Backed-old : (x : ℕ) → Backed h.pmm x → Backed p' x
  Backed-old x (lo, hi, t) =
      (lo, hi, let e = page_bits ((x - phys_offset) / page_size) (omega arith) in ground arith)

  Backed-new : (x : ℕ) → cover_one x (new_block s pages) ≢ 0 → Backed p' x
  Backed-new x c =
      let n = new_cover x c in
      let v = good.pmm_valid in
      let b = took.below in
      let e = page_bits ((x - phys_offset) / page_size) (omega arith) in
      (n.0, omega arith, ground arith)

  -- The new pages were free, so no block of the chain holds a byte of them.
  new_apart : (x : ℕ) → cover_one x (new_block s pages) ≢ 0 → cover x h.chain ≡ 0
  new_apart x c = elim (Bool-cases (cover x h.chain == 0)) [
    | inl e ↦ ground arith
    | inr e ↦
        let n = new_cover x c in
        let t = good.backed x (ground arith) in
        let f = took.were_free ((x - phys_offset) / page_size) n.1 n.2 in
        absurd (let b : ⊥ = ground arith in b)
  ]

  grown : Heap
  grown = record h {
    pmm = p';
    chain = h.chain ++ (new_block s pages ∷ []);
    total = add64 h.total (mul64 pages page_size);
  }

  grown_cover :
      (x : ℕ)
      → cover x (h.chain ++ (new_block s pages ∷ []))
        ≡ cover x h.chain + cover_one x (new_block s pages)
  unfolding cover
  grown_cover x = cover-append x h.chain (new_block s pages ∷ []) ∙ omega arith

  grown-IsGood : IsGood grown
  unfolding grown p' bytes busy
  grown-IsGood = record {
    active = good.active;
    pmm_valid = took.valid;
    pmm_counted = took.counted;
    blocks = AllBlocks-append h.chain _ good.blocks (new_IsBlock, tt);
    apart = λ x. rw (grown_cover x) (one_holds x);
    backed = λ x c. holds x (rw (grown_cover x) at c);
    total =
        let v = good.pmm_valid in
        let b = took.below in
        let t = good.total in let e = bytes-append h.chain (new_block s pages ∷ []) in omega arith;
    used = let u = good.used in let e = busy-append h.chain (new_block s pages ∷ []) in omega arith;
  }
    where
      one_holds : (x : ℕ) → cover x h.chain + cover_one x (new_block s pages) ≤ 1
      one_holds x = elim (Bool-cases (cover_one x (new_block s pages) == 0)) [
        | inl e ↦ let a = good.apart x in ground arith
        | inr e ↦ let a = new_apart x (ground arith) in ground arith
      ]

      holds : (x : ℕ) → cover x h.chain + cover_one x (new_block s pages) ≢ 0 → Backed p' x
      holds x c = elim (Bool-cases (cover_one x (new_block s pages) == 0)) [
        | inl e ↦ Backed-old x (good.backed x λ z. c (ground arith))
        | inr e ↦ Backed-new x (ground arith)
      ]

-- What HeapExpand gives when the page allocator has a run: the heap stays good, only its end is new.
pub record Grown (min_size : ℕ) (h h' : Heap) : Type 0 where
  pub good : IsGood h'
  pub block : Block
  pub chain : h'.chain ≡ h.chain ++ (block ∷ [])
  pub fresh : (block.free ≡ true) × (min_size ≤ block.size)
  pub used : h'.used ≡ h.used

-- HeapExpand either finds no run of pages of the size it wants (or the run at address 0, which it
-- takes for a failure) and panics, or the heap grows by one free block at the end of its chain,
-- with room for the request, and stays good.
pub expand_lem :
    {h : Heap} (min_size : ℕ)
    → IsGood h
    → min_size + 8192 < u64_mod
    → ((h' : Heap) × (expand min_size h ≡ some h') × Grown min_size h h')
      ⊎ ((expand min_size h ≡ none)
          × (NoRun h.pmm (pages_for min_size) ⊎ ((alloc_pages (pages_for min_size) h.pmm).0 ≡ 0)))
unfolding expand grown p'
expand_lem {h} min_size good small =
    elim (alloc_pages_lem (pages_for min_size) (omega arith) good.pmm_valid good.pmm_counted) [
      | inl (s, t) ↦ elim (Bool-cases (s == 0)) [
        | inl z ↦
            let a = t.address in
            let e : (alloc_pages (pages_for min_size) h.pmm).0 ≡ 0 = ground arith in
            inr (rw e refl, inr e)
        | inr nz ↦ inl (
          grown good (pages_for min_size) s (omega arith) t (ground arith),
          result s t (ground arith),
          record {
            good = grown-IsGood good (pages_for min_size) s (omega arith) t (ground arith);
            block = new_block s (pages_for min_size);
            chain = refl;
            fresh = (refl, let v = good.pmm_valid in let b = t.below in omega arith);
            used = refl;
          },
        )
      ]
      | inr (none_free, e) ↦ inr (rw e refl, inl none_free)
    ]
  where
    result :
        (s : ℕ) (t : TookRun h.pmm (pages_for min_size) s (alloc_pages (pages_for min_size) h.pmm))
        (nz : s ≢ 0)
        → expand min_size h ≡ some (grown good (pages_for min_size) s (omega arith) t nz)
    result s t nz =
        rw (good.active, t.address, let ne : (s * page_size == 0) ≡ false = ground arith in ne) refl
