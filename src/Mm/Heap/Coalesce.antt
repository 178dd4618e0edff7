-- ===== src/Mm/Heap/Coalesce.antt =====
-- HeapCoalesce of Kernel/mm/heap.c: what joining a freed block with its neighbours does to the chain.
use vibecoded_os.Prelude.{
  ℕ, ◌+◌, ◌≡◌, refl, ◌≢◌, inl, inr, true, false, Option, none, some, List, [], ◌∷◌, arith, ◌==◌,
  ◌&&◌, Bool-cases, add64, ap,
}
use vibecoded_os.Mm.Heap.{Block, block_magic, header_size, coalesce_next, coalesce_prev}
use vibecoded_os.Mm.Heap.Chain.{
  IsBlock, AllBlocks, Has, SameBytes, SameBytes-cons, busy, bytes, cover,
}
use vibecoded_os.Mm.Heap.Seams.{
  seam, seams, HeadBusy, seams-join_next, seams-apart_next, seam-busy, seams-join_prev,
  seams-apart_prev,
}

-- The chain `new` is the chain `old` with the `size` bytes of the busy block at `at` given back.
pub record Freed (at size : ℕ) (old new : List Block) : Type 0 where
  pub good : AllBlocks new
  pub same : SameBytes new old
  pub idle : busy new + size ≡ busy old
  pub joined : seams new ≡ seams old
  pub others : (c : Block) → Has c old → c.free ≡ false → c.addr ≢ at → Has c new

abbrev pub with_prev : Option Block → List Block → List Block
with_prev none bs = bs
with_prev (some p) bs = p ∷ bs

pub coalesce_next-Freed :
    (b : Block) (bs : List Block)
    → IsBlock b
    → AllBlocks bs
    → b.free ≡ false
    → Freed b.addr b.size (b ∷ bs) (coalesce_next (record b { free = true }) bs)
unfolding coalesce_next cover bytes busy seams
coalesce_next-Freed b [] ok oks nf = record {
  good = (record { magic = ok.magic; low = ok.low; high = ok.high }, tt);
  same = record { covers = λ x. refl; sum = refl };
  idle = ground arith;
  joined = ground arith;
  others =
      λ c h cf ne. elim h [ inl e ↦ absurd (ne (ap (λ (z : Block). z.addr) e)) | inr h' ↦ inr h' ];
}
coalesce_next-Freed b (n ∷ ns) ok oks nf =
    elim (Bool-cases
      ((n.magic == block_magic && n.free) && (add64 (add64 b.addr header_size) b.size == n.addr))) [
        | inl join ↦ rw join (
            let okn = oks.0 in
            let h1 = ok.high in
            let h2 = okn.high in
            record {
              good = (record { magic = ok.magic; low = ok.low; high = ground arith }, oks.1);
              same = record { covers = λ x. ground arith; sum = ground arith };
              idle = ground arith;
              joined = seams-join_next b n ns ok okn nf join;
              others = λ c h cf ne. elim h [
                | inl e ↦ absurd (ne (ap (λ (z : Block). z.addr) e))
                | inr (inl e) ↦ absurd (let z : ⊥ = ground arith in z)
                | inr (inr h') ↦ inr h'
              ];
            })
        | inr apart ↦
            let okn = oks.0 in
            rw apart (record {
              good = (record { magic = ok.magic; low = ok.low; high = ok.high }, oks);
              same = record { covers = λ x. refl; sum = refl };
              idle = ground arith;
              joined = seams-apart_next b n ns ok okn nf apart;
              others = λ c h cf ne. elim h [
                | inl e ↦ absurd (ne (ap (λ (z : Block). z.addr) e))
                | inr h' ↦ inr h'
              ];
            })
      ]

-- The block that is being freed stands first.
abbrev pub HeadFree : List Block → Type 0
HeadFree [] = Unit {0}
HeadFree (b ∷ bs) = b.free ≡ true

pub coalesce_next-HeadFree :
    (b : Block) (bs : List Block) → HeadFree (coalesce_next (record b { free = true }) bs)
unfolding coalesce_next
coalesce_next-HeadFree b [] = refl
coalesce_next-HeadFree b (n ∷ ns) =
    elim (Bool-cases
      ((n.magic == block_magic && n.free) && (add64 (add64 b.addr header_size) b.size == n.addr))) [
        | inl join ↦ rw join refl
        | inr apart ↦ rw apart refl
      ]

pub coalesce_prev-Freed :
    {at size : ℕ} (p : Block) (old new : List Block)
    → IsBlock p
    → HeadFree new
    → HeadBusy old
    → Freed at size old new
    → Freed at size (p ∷ old) (coalesce_prev p new)
unfolding coalesce_prev cover bytes busy seams
coalesce_prev-Freed p old [] ok fr hb f = record {
  good = (ok, tt);
  same = SameBytes-cons p [] old f.same;
  idle = let e = f.idle in omega arith;
  joined = let z = seam-busy p old hb in let e = f.joined in ground arith;
  others = λ c h cf ne. elim h [ inl e ↦ inl e | inr h' ↦ inr (f.others c h' cf ne) ];
}
coalesce_prev-Freed p old (b ∷ bs) ok fr hb f =
    elim (Bool-cases
      ((p.magic == block_magic && p.free) && (add64 (add64 p.addr header_size) p.size == b.addr))) [
        | inl join ↦ rw join (
            let okb = f.good.0 in
            let h1 = ok.high in
            let h2 = okb.high in
            record {
              good = (record { magic = ok.magic; low = ok.low; high = ground arith }, f.good.1);
              same = record {
                covers = λ x. let c = f.same.covers x in ground arith;
                sum = let c = f.same.sum in ground arith;
              };
              idle = let e = f.idle in ground arith;
              joined = seams-join_prev p b bs old ok okb fr hb f.joined join;
              others = λ c h cf ne. elim h [
                | inl e ↦ absurd (let z : ⊥ = ground arith in z)
                | inr h' ↦ elim (f.others c h' cf ne) [
                  | inl e ↦ absurd (let z : ⊥ = ground arith in z)
                  | inr h'' ↦ inr h''
                ]
              ];
            })
        | inr apart ↦ rw apart (record {
          good = (ok, f.good);
          same = SameBytes-cons p (b ∷ bs) old f.same;
          idle = let e = f.idle in ground arith;
          joined = seams-apart_prev p b bs old ok fr hb f.joined apart;
          others = λ c h cf ne. elim h [ inl e ↦ inl e | inr h' ↦ inr (f.others c h' cf ne) ];
        })
      ]

pub Freed-cons :
    {at size : ℕ} (p : Block) (old new : List Block)
    → IsBlock p
    → seam p old ≡ seam p new
    → Freed at size old new
    → Freed at size (p ∷ old) (p ∷ new)
unfolding busy seams
Freed-cons p old new ok z f = record {
  good = (ok, f.good);
  same = SameBytes-cons p new old f.same;
  idle = let e = f.idle in ground arith;
  joined = let e = f.joined in ground arith;
  others = λ c h cf ne. elim h [ inl e ↦ inl e | inr h' ↦ inr (f.others c h' cf ne) ];
}
