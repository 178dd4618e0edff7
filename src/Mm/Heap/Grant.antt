-- ===== src/Mm/Heap/Grant.antt =====
-- KmAlloc of Kernel/mm/heap.c as a whole.
use vibecoded_os.Prelude.{
  ℕ, ◌+◌, ◌*◌, ◌≤◌, ◌<◌, ◌≡◌, refl, ◌≢◌, ◌⊎◌, inl, inr, true, false, none, some, List, [], ◌∷◌,
  arith, ◌==◌, Bool-cases, u64_mod, add64, leb, max,
}
use vibecoded_os.Mm.Pmm.{alloc_pages, page_size}
use vibecoded_os.Mm.Pmm.Runs.{NoRun}
use vibecoded_os.Mm.Pmm.Count.{IsValid, Counted}
use vibecoded_os.Mm.Heap.{
  Block, Heap, header_size, Search, found, search, done, heap_init, alloc_loop, km_alloc, round_up,
  pages_for,
}
use vibecoded_os.Mm.Heap.Chain.{Has, busy, bytes, cover, cover_one, Has-IsBlock}
use vibecoded_os.Mm.Heap.Alloc.{Fits, Walked, hit, miss, search-Walked}
use vibecoded_os.Mm.Heap.Grow.{IsGood, expand_lem}

-- The blocks share no byte, headers included.
abbrev pub Disjoint : Block → Block → Type 0
Disjoint b c = (b.addr + header_size + b.size ≤ c.addr) ⊎ (c.addr + header_size + c.size ≤ b.addr)

pub Has-cover : (b : Block) (xs : List Block) (x : ℕ) → Has b xs → cover_one x b ≤ cover x xs
unfolding cover
Has-cover b [] x h = elim h [ ]
Has-cover b (y ∷ ys) x (inl e) = rw e (omega arith)
Has-cover b (y ∷ ys) x (inr h) = omega (arith, Has-cover b ys x h)

-- A free block and a busy one are two places of the chain.
two_cover :
    (b c : Block) (xs : List Block) (x : ℕ)
    → Has b xs
    → Has c xs
    → b.free ≡ true
    → c.free ≡ false
    → cover_one x b + cover_one x c ≤ cover x xs
unfolding cover
two_cover b c [] x h k fr nf = elim h [ ]
two_cover b c (y ∷ ys) x (inl e) (inl f) fr nf = absurd (let z : ⊥ = ground arith in z)
two_cover b c (y ∷ ys) x (inl e) (inr k) fr nf = rw e (omega (arith, Has-cover c ys x k))
two_cover b c (y ∷ ys) x (inr h) (inl f) fr nf = rw f (omega (arith, Has-cover b ys x h))
two_cover b c (y ∷ ys) x (inr h) (inr k) fr nf = omega (arith, two_cover b c ys x h k fr nf)

free_busy_Disjoint :
    (b c : Block) (xs : List Block)
    → ((x : ℕ) → cover x xs ≤ 1)
    → Has b xs
    → Has c xs
    → b.free ≡ true
    → c.free ≡ false
    → Disjoint b c
free_busy_Disjoint b c xs apart h k fr nf =
    let x = max b.addr c.addr in
    let two = two_cover b c xs x h k fr nf in
    let one = apart x in
    elim (Bool-cases (leb (b.addr + header_size + b.size) c.addr)) [
      | inl e ↦ inl (ground arith)
      | inr e ↦ elim (Bool-cases (leb (c.addr + header_size + c.size) b.addr)) [
        | inl f ↦ inr (ground arith)
        | inr f ↦ absurd (let z : ⊥ = ground arith in z)
      ]
    ]

-- The state after the walk has found a block.
abbrev serve : Heap → ℕ → List Block → Heap
serve h taken chain = record h { chain = chain; used = add64 h.used taken }

served :
    (size : ℕ)
    → size ≢ 0
    → (h : Heap) {ptr taken : ℕ} {new : List Block}
    → search (round_up size) h.chain ≡ found ptr taken new
    → alloc_loop 2 size h ≡ done ptr (serve h taken new)
unfolding alloc_loop
served size nz h e = let z : (size == 0) ≡ false = ground arith in rw (z, e) refl

-- What a successful KmAlloc promises: a busy block of at least `size` bytes behind `ptr`; whatever
-- was handed out before is still in the chain and shares no byte with it.
pub record Granted (size : ℕ) (h : Heap) (ptr : ℕ) (h' : Heap) : Type 0 where
  pub good : IsGood h'
  pub block : Block
  pub given : Has block h'.chain
  pub taken : block.free ≡ false
  pub pointer : ptr ≡ block.addr + header_size
  pub enough : size ≤ block.size
  pub others : (c : Block) → Has c h.chain → c.free ≡ false → Has c h'.chain × Disjoint block c

Fits-Granted :
    {size : ℕ} {h : Heap} {ptr taken : ℕ} {new : List Block}
    → IsGood h
    → Fits size h.chain ptr taken new
    → Granted size h ptr (serve h taken new)
Fits-Granted {h} {taken} good f =
    let same = f.same in
    record {
      good = record {
        active = good.active;
        pmm_valid = good.pmm_valid;
        pmm_counted = good.pmm_counted;
        blocks = f.good;
        apart = λ x. rw (same.covers x) (good.apart x);
        backed = λ x c. good.backed x (rw (same.covers x) at c);
        total = let t = good.total in let e = same.sum in omega arith;
        used = let u = good.used in let e = f.busier in omega arith;
      };
      block = record f.block { size = taken; free = false };
      given = f.given;
      taken = refl;
      pointer = f.pointer;
      enough = f.enough;
      others = λ c k nf. (
        f.others c k nf,
        narrower c (free_busy_Disjoint f.block c h.chain good.apart f.was_free.0 k f.was_free.1 nf),
      );
    }
  where
    narrower :
        (c : Block)
        → Disjoint f.block c
        → Disjoint (record f.block { size = taken; free = false }) c
    narrower c (inl e) = inl (let w = f.within in omega arith)
    narrower c (inr e) = inr e

-- KmAlloc ran out of pages: no free block is large enough, and the page allocator has no run.
pub record Exhausted (size : ℕ) (h : Heap) : Type 0 where
  pub none_fits : (b : Block) → Has b h.chain → b.free ≡ true → b.size < round_up size
  pub no_pages :
      NoRun h.pmm (pages_for (round_up size))
      ⊎ ((alloc_pages (pages_for (round_up size)) h.pmm).0 ≡ 0)

empty-IsGood :
    (h : Heap)
    → h.vmm_active ≡ true
    → IsValid h.pmm
    → Counted h.pmm
    → IsGood (record h { chain = []; total = 0; used = 0 })
unfolding cover bytes busy
empty-IsGood h active valid counted = record {
  active = active;
  pmm_valid = valid;
  pmm_counted = counted;
  blocks = tt;
  apart = λ x. omega arith;
  backed = λ x c. absurd (c refl);
  total = refl;
  used = refl;
}

-- HeapInit, on a page allocator that is valid and has an exact counter, leaves a good heap whose chain
-- is one free block of at least four pages. It panics only where the page allocator has no run of
-- free pages for these four and a header, or gives out the one at address 0.
pub heap_init-IsGood :
    (h : Heap)
    → h.vmm_active ≡ true
    → IsValid h.pmm
    → Counted h.pmm
    → ((h' : Heap) × (b : Block) × (heap_init h ≡ some h')
        × IsGood h'
        × (h'.chain ≡ b ∷ [])
        × (b.free ≡ true)
        × (4 * page_size ≤ b.size))
      ⊎ ((heap_init h ≡ none)
          × (NoRun h.pmm (pages_for (4 * page_size))
              ⊎ ((alloc_pages (pages_for (4 * page_size)) h.pmm).0 ≡ 0)))
unfolding heap_init
heap_init-IsGood h active valid counted = elim (expand_lem (4 * page_size) empty (omega arith)) [
  | inl (h', e, g) ↦ inl (h', g.block, e, g.good, g.chain, g.fresh.0, g.fresh.1)
  | inr (e, why) ↦ inr (e, why)
]
  where
    empty : IsGood (record h { chain = []; total = 0; used = 0 })
    empty = empty-IsGood h active valid counted

-- A request within 15 bytes of 2^64 is rounded up to 0: if the heap has a free block it is granted,
-- with a block smaller than the request.
pub km_alloc_wraps :
    {h : Heap} (size : ℕ) (b : Block)
    → IsGood h
    → Has b h.chain
    → b.free ≡ true
    → u64_mod ≤ size + 15
    → size < u64_mod
    → (ptr : ℕ) × (h' : Heap) × (c : Block) × (km_alloc size h ≡ done ptr h')
      × Has c h'.chain
      × (ptr ≡ c.addr + header_size)
      × (c.size < size)
unfolding km_alloc
km_alloc_wraps {h} size b good has fr low high =
    go _ refl (search-Walked (round_up size) h.chain good.blocks)
  where
    even : round_up size ≡ 0
    even = omega arith

    go :
        (s : Search)
        → search (round_up size) h.chain ≡ s
        → Walked (round_up size) h.chain s
        → (ptr : ℕ) × (h' : Heap) × (c : Block) × (alloc_loop 2 size h ≡ done ptr h')
          × Has c h'.chain
          × (ptr ≡ c.addr + header_size)
          × (c.size < size)
    go _ e (hit {ptr} {taken} {new} f) =
        let r = Fits-Granted good f in
        let k = Has-IsBlock (record f.block { size = taken; free = false }) new f.good f.given in
        let hi = k.high in
        let lo = k.low in
        (
          ptr,
          serve h taken new,
          record f.block { size = taken; free = false },
          served size (omega arith) h e,
          f.given,
          f.pointer,
          omega arith,
        )
    go _ e (miss none_fits) = absurd (let l = none_fits b has fr in omega arith)
