-- ===== src/Mm/Heap/Alloc.antt =====
-- KmAlloc of Kernel/mm/heap.c: what it returns, and that two rounds of its loop are enough.
use vibecoded_os.Prelude.{
  ℕ, ◌+◌, ◌≤◌, ◌<◌, ◌≡◌, refl, inl, inr, true, false, List, [], ◌∷◌, ◌++◌, arith, ◌==◌, ◌&&◌,
  Bool-cases, add64, leb,
}
use vibecoded_os.Mm.Heap.{
  Block, block_magic, header_size, split_block, occupy, head_size, Search, missing, found, keep,
  search,
}
use vibecoded_os.Mm.Heap.Chain.{
  IsBlock, AllBlocks, Has, SameBytes, SameBytes-cons, split_block-Carved, busy,
}

-- What a successful walk gives: a block of at least `size` bytes, free before, is handed out; the
-- chain holds the same bytes; what was handed out before is still in it.
pub record Fits (size : ℕ) (old : List Block) (ptr taken : ℕ) (new : List Block) : Type 0 where
  pub good : AllBlocks new
  pub same : SameBytes new old
  pub busier : busy new ≡ taken + busy old
  pub enough : size ≤ taken
  pub block : Block
  pub within : taken ≤ block.size
  pub was_free : Has block old × (block.free ≡ true)
  pub pointer : ptr ≡ block.addr + header_size
  pub given : Has (record block { size = taken; free = false }) new
  pub others : (c : Block) → Has c old → c.free ≡ false → Has c new

Fits-cons :
    {size ptr taken : ℕ} {old new : List Block} (b : Block)
    → IsBlock b
    → Fits size old ptr taken new
    → Fits size (b ∷ old) ptr taken (b ∷ new)
unfolding busy
Fits-cons {old} {new} b ok f = record {
  good = (ok, f.good);
  same = SameBytes-cons b new old f.same;
  busier = let e = f.busier in ground arith;
  enough = f.enough;
  block = f.block;
  within = f.within;
  was_free = (inr f.was_free.0, f.was_free.1);
  pointer = f.pointer;
  given = inr f.given;
  others = λ c h nf. elim h [ inl e ↦ inl e | inr h' ↦ inr (f.others c h' nf) ];
}

Fits-here :
    (b : Block) (size : ℕ) (bs : List Block)
    → IsBlock b
    → AllBlocks bs
    → b.free ≡ true
    → size ≤ b.size
    → Fits size
        (b ∷ bs)
        (add64 b.addr header_size)
        (head_size (split_block b size))
        (occupy (split_block b size) ++ bs)
unfolding busy
Fits-here b size bs ok oks fr le =
    let c = split_block-Carved b size bs ok oks le in
    record {
      good = c.good;
      same = c.same;
      busier = let e = c.busier in ground arith;
      enough = c.enough;
      block = b;
      within = c.within;
      was_free = (inl refl, fr);
      pointer = let h = ok.high in omega arith;
      given = c.head;
      others = λ d h nf. elim h [
        | inl e ↦ absurd (let x : ⊥ = ground arith in x)
        | inr h' ↦ c.tail d h'
      ];
    }

-- The outcome of the walk along a chain of good blocks.
pub data Walked (size : ℕ) (old : List Block) : Search → Type 0 where
  hit :
      {ptr taken : ℕ} {new : List Block}
      → Fits size old ptr taken new
      → Walked size old (found ptr taken new)
  miss : ((b : Block) → Has b old → b.free ≡ true → b.size < size) → Walked size old missing

Walked-cons :
    {size : ℕ} {old : List Block} {s : Search} (b : Block)
    → IsBlock b
    → (b.free ≡ true → b.size < size)
    → Walked size old s
    → Walked size (b ∷ old) (keep b s)
Walked-cons b ok small (hit f) = hit (Fits-cons b ok f)
Walked-cons b ok small (miss none_fits) = miss λ c h fr. elim h [
  | inl e ↦ let sm = small (ground arith) in ground arith
  | inr h' ↦ none_fits c h' fr
]

pub search-Walked :
    (size : ℕ) (chain : List Block) → AllBlocks chain → Walked size chain (search size chain)
unfolding search
search-Walked size [] a = miss λ b h. elim h [ ]
search-Walked size (b ∷ bs) (ok, oks) =
    rw (let e : (b.magic == block_magic) ≡ true = (let m = ok.magic in ground arith) in e)
      (elim (Bool-cases (b.free && leb size b.size)) [
        | inl fit ↦ rw fit (hit (Fits-here b size bs ok oks (ground arith) (ground arith)))
        | inr no_fit ↦ rw no_fit (Walked-cons b ok (λ fr. ground arith) (search-Walked size bs oks))
      ])
