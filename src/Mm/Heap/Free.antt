-- ===== src/Mm/Heap/Free.antt =====
-- KmFree of Kernel/mm/heap.c: the walk to the block, and what freeing it does to the heap.
use vibecoded_os.Prelude.{
  ℕ, ◌+◌, ◌≤◌, ◌≡◌, refl, ◌≢◌, inl, inr, true, false, Option, none, some, List, [], ◌∷◌, arith,
  ◌==◌, Bool-cases, sub64, ap,
}
use vibecoded_os.Mm.Heap.{
  Block, Heap, block_magic, header_size, done, panic, km_free, release, Release, double_free,
  released, join_prev, push_prev, coalesce_next,
}
use vibecoded_os.Mm.Heap.Chain.{AllBlocks, Has, SameBytes, busy, cover, Has-IsBlock}
use vibecoded_os.Mm.Heap.Seams.{seams, HeadBusy, Front, join_prev-Front, seam-Front}
use vibecoded_os.Mm.Heap.Grow.{IsGood}
use vibecoded_os.Mm.Heap.Grant.{Has-cover}
use vibecoded_os.Mm.Heap.Coalesce.{
  Freed, with_prev, HeadFree, coalesce_next-Freed, coalesce_next-HeadFree, coalesce_prev-Freed,
  Freed-cons,
}

-- A walk that reaches the block: the chain from the block before it on.
record Reached (b : Block) (prev : Option Block) (bs : List Block) : Type 0 where
  rest : List Block
  outcome : release b.addr prev bs ≡ released b.size rest
  freed : Freed b.addr b.size (with_prev prev bs) rest
  front : Front prev rest

join_prev-Freed :
    {at size : ℕ} (prev : Option Block) (old new : List Block)
    → AllBlocks (with_prev prev [])
    → HeadFree new
    → HeadBusy old
    → Freed at size old new
    → Freed at size (with_prev prev old) (join_prev prev new)
join_prev-Freed none old new ok fr hb f = f
join_prev-Freed (some p) old new ok fr hb f = coalesce_prev-Freed p old new ok.0 fr hb f

push_prev-Reached :
    (b x : Block) (prev : Option Block) (bs : List Block)
    → AllBlocks (with_prev prev [])
    → (x.addr == b.addr) ≡ false
    → Reached b (some x) bs
    → Reached b prev (x ∷ bs)
unfolding release
push_prev-Reached b x none bs ok ne r = record {
  rest = r.rest;
  outcome = rw (ne, r.outcome) refl;
  freed = r.freed;
  front = tt;
}
push_prev-Reached b x (some p) bs ok ne r = record {
  rest = p ∷ r.rest;
  outcome = rw (ne, r.outcome) refl;
  freed = Freed-cons p (x ∷ bs) r.rest ok.0 (seam-Front p x bs r.rest r.front) r.freed;
  front = (refl, refl);
}

-- Two places of a chain whose blocks share no byte have different addresses.
addr_ne :
    (x b : Block) (bs : List Block)
    → ((y : ℕ) → cover y (x ∷ bs) ≤ 1)
    → Has b bs
    → (x.addr == b.addr) ≡ false
unfolding cover
addr_ne x b bs apart h = elim (Bool-cases (x.addr == b.addr)) [
  | inl e ↦
      let one = apart b.addr in
      let two = Has-cover b bs b.addr h in absurd (let z : ⊥ = ground arith in z)
  | inr e ↦ e
]

release-Reached :
    (b : Block) (prev : Option Block) (bs : List Block)
    → AllBlocks (with_prev prev [])
    → AllBlocks bs
    → ((x : ℕ) → cover x bs ≤ 1)
    → Has b bs
    → b.free ≡ false
    → Reached b prev bs
unfolding release cover
release-Reached b prev [] okp oks apart h nf = elim h [ ]
release-Reached b prev (x ∷ bs) okp oks apart (inl e) nf =
    let ok = oks.0 in
    let m : (x.magic == block_magic) ≡ true = (let m' = ok.magic in ground arith) in
    let a : (x.addr == b.addr) ≡ true = ground arith in
    let xf : x.free ≡ false = ground arith in
    let zn : b.size ≡ x.size = ap (λ (z : Block). z.size) e in
    let zr : b.addr ≡ x.addr = ap (λ (z : Block). z.addr) e in
    record {
      rest = join_prev prev (coalesce_next (record x { free = true }) bs);
      outcome = rw (a, m, xf, zn) refl;
      freed =
          rw (zn, zr)
            (join_prev-Freed prev (x ∷ bs) _ okp (coalesce_next-HeadFree x bs) xf
              (coalesce_next-Freed x bs ok oks.1 xf));
      front = join_prev-Front prev (coalesce_next (record x { free = true }) bs);
    }
release-Reached b prev (x ∷ bs) okp oks apart (inr h) nf =
    push_prev-Reached b x prev bs okp (addr_ne x b bs apart h)
      (release-Reached b (some x) bs (oks.0, tt) oks.1 (λ y. below y (apart y)) h nf)
  where
    below : (y : ℕ) → cover y (x ∷ bs) ≤ 1 → cover y bs ≤ 1
    below y c = omega arith

release-double_free :
    (b : Block) (prev : Option Block) (bs : List Block)
    → AllBlocks bs
    → ((x : ℕ) → cover x bs ≤ 1)
    → Has b bs
    → b.free ≡ true
    → release b.addr prev bs ≡ double_free
unfolding release cover
release-double_free b prev [] oks apart h fr = elim h [ ]
release-double_free b prev (x ∷ bs) oks apart (inl e) fr =
    let ok = oks.0 in
    let m : (x.magic == block_magic) ≡ true = (let m' = ok.magic in ground arith) in
    let a : (x.addr == b.addr) ≡ true = ground arith in
    let xf : x.free ≡ true = ground arith in rw (a, m, xf) refl
release-double_free b prev (x ∷ bs) oks apart (inr h) fr =
    rw (addr_ne x b bs apart h)
      (pushed prev (release-double_free b (some x) bs oks.1 (λ y. below y (apart y)) h fr))
  where
    below : (y : ℕ) → cover y (x ∷ bs) ≤ 1 → cover y bs ≤ 1
    below y c = omega arith

    pushed : (q : Option Block) {r : Release} → r ≡ double_free → push_prev q r ≡ double_free
    pushed none e = e
    pushed (some p) e = rw e refl

-- On a good heap, KmFree of the pointer of a busy block of the chain neither panics nor loses its
-- way: it gives the bytes of the block back, the heap stays good, the chain holds the same bytes,
-- and every other busy block stays in it. The block is joined with its free neighbours: as many
-- pairs of free blocks lie side by side in the chain as before.
pub km_free_lem :
    {h : Heap} (b : Block)
    → IsGood h
    → Has b h.chain
    → b.free ≡ false
    → (h' : Heap) × (km_free (b.addr + header_size) h ≡ done tt h')
      × IsGood h'
      × (busy h'.chain + b.size ≡ busy h.chain)
      × SameBytes h'.chain h.chain
      × (seams h'.chain ≡ seams h.chain)
      × ((c : Block) → Has c h.chain → c.free ≡ false → c.addr ≢ b.addr → Has c h'.chain)
unfolding km_free
km_free_lem {h} b good has nf =
    let r = release-Reached b none h.chain tt good.blocks good.apart has nf in
    let f = r.freed in
    let same = f.same in
    let nz : (b.addr + header_size == 0) ≡ false = ground arith in
    let at : sub64 (b.addr + header_size) header_size ≡ b.addr =
      (let k = Has-IsBlock b h.chain good.blocks has in let hi = k.high in omega arith) in
    (
      record h { chain = r.rest; used = sub64 h.used b.size },
      rw (nz, at, r.outcome) refl,
      record {
        active = good.active;
        pmm_valid = good.pmm_valid;
        pmm_counted = good.pmm_counted;
        blocks = f.good;
        apart = λ x. rw (same.covers x) (good.apart x);
        backed = λ x c. good.backed x (rw (same.covers x) at c);
        total = let t = good.total in let e = same.sum in omega arith;
        used =
            let u = good.used in
            let e = f.idle in
            let k = Has-IsBlock b h.chain good.blocks has in let hi = k.high in omega arith;
      },
      f.idle,
      same,
      f.joined,
      f.others,
    )

-- KmFree of a block of the chain that is free already is caught: the kernel panics.
pub km_free-double :
    {h : Heap} (b : Block)
    → IsGood h
    → Has b h.chain
    → b.free ≡ true
    → km_free (b.addr + header_size) h ≡ panic
unfolding km_free
km_free-double {h} b good has fr =
    let nz : (b.addr + header_size == 0) ≡ false = ground arith in
    let at : sub64 (b.addr + header_size) header_size ≡ b.addr =
      (let k = Has-IsBlock b h.chain good.blocks has in let hi = k.high in omega arith) in
    rw (nz, at, release-double_free b none h.chain good.blocks good.apart has fr) refl
