-- ===== src/Mm/Heap/Seams.antt =====
-- Free neighbours of the chain of Kernel/mm/heap.c, and what HeapCoalesce does to them.
use vibecoded_os.Prelude.{
  ℕ, ◌+◌, ◌≡◌, refl, true, false, Option, none, some, List, [], ◌∷◌, arith, ◌==◌, ◌&&◌, inl, inr,
  if◌then◌else◌, add64, Bool-cases,
}
use vibecoded_os.Mm.Heap.{Block, block_magic, header_size, coalesce_prev, join_prev}
use vibecoded_os.Mm.Heap.Chain.{IsBlock}

-- How many blocks of the chain are free and end where the next block, free too, begins.
abbrev pub seam : Block → List Block → ℕ
seam b [] = 0
seam b (n ∷ ns) = if (b.free && n.free) && (b.addr + header_size + b.size == n.addr) then 1 else 0

unfoldable pub seams : List Block → ℕ
seams [] = 0
seams (b ∷ bs) = seam b bs + seams bs

-- The block behind the joined ones meets what it met before.
pub seams-join_next :
    (b n : Block) (ns : List Block)
    → IsBlock b
    → IsBlock n
    → b.free ≡ false
    → ((n.magic == block_magic && n.free) && (add64 (add64 b.addr header_size) b.size == n.addr))
      ≡ true
    → seams (record b { free = true; size = add64 b.size (add64 header_size n.size) } ∷ ns)
      ≡ seams (b ∷ n ∷ ns)
unfolding seams
seams-join_next b n [] ok okn nf join = ground arith
seams-join_next b n (m ∷ ms) ok okn nf join = let h1 = ok.high in let h2 = okn.high in ground arith

pub seams-apart_next :
    (b n : Block) (ns : List Block)
    → IsBlock b
    → IsBlock n
    → b.free ≡ false
    → ((n.magic == block_magic && n.free) && (add64 (add64 b.addr header_size) b.size == n.addr))
      ≡ false
    → seams (record b { free = true } ∷ n ∷ ns) ≡ seams (b ∷ n ∷ ns)
unfolding seams
seams-apart_next b n ns ok okn nf apart = let h1 = ok.high in let m = okn.magic in ground arith

-- The chain does not begin with a free block.
abbrev pub HeadBusy : List Block → Type 0
HeadBusy [] = Unit {0}
HeadBusy (b ∷ bs) = b.free ≡ false

pub seam-busy : (p : Block) (bs : List Block) → HeadBusy bs → seam p bs ≡ 0
seam-busy p [] h = refl
seam-busy p (b ∷ bs) h = rw h (ground arith)

pub seams-join_prev :
    (p b : Block) (bs old : List Block)
    → IsBlock p
    → IsBlock b
    → b.free ≡ true
    → HeadBusy old
    → seams (b ∷ bs) ≡ seams old
    → ((p.magic == block_magic && p.free) && (add64 (add64 p.addr header_size) p.size == b.addr))
      ≡ true
    → seams (record p { size = add64 p.size (add64 header_size b.size) } ∷ bs) ≡ seams (p ∷ old)
unfolding seams
seams-join_prev p b [] old ok okb fr busy e join = let z = seam-busy p old busy in ground arith
seams-join_prev p b (m ∷ ms) old ok okb fr busy e join =
    let z = seam-busy p old busy in let h1 = ok.high in let h2 = okb.high in ground arith

pub seams-apart_prev :
    (p b : Block) (bs old : List Block)
    → IsBlock p
    → b.free ≡ true
    → HeadBusy old
    → seams (b ∷ bs) ≡ seams old
    → ((p.magic == block_magic && p.free) && (add64 (add64 p.addr header_size) p.size == b.addr))
      ≡ false
    → seams (p ∷ b ∷ bs) ≡ seams (p ∷ old)
unfolding seams
seams-apart_prev p b bs old ok fr busy e apart =
    let z = seam-busy p old busy in let h1 = ok.high in let m = ok.magic in ground arith

-- A chain that begins like one with the block in front
abbrev pub Front : Option Block → List Block → Type 0
Front none bs = Unit {0}
Front (some p) [] = ⊥
Front (some p) (c ∷ cs) = (c.addr ≡ p.addr) × (c.free ≡ p.free)

pub join_prev-Front : (prev : Option Block) (bs : List Block) → Front prev (join_prev prev bs)
unfolding coalesce_prev
join_prev-Front none bs = tt
join_prev-Front (some p) [] = (refl, refl)
join_prev-Front (some p) (b ∷ bs) =
    elim (Bool-cases
      ((p.magic == block_magic && p.free) && (add64 (add64 p.addr header_size) p.size == b.addr))) [
        | inl e ↦ rw e (refl, refl)
        | inr e ↦ rw e (refl, refl)
      ]

pub seam-Front :
    (p x : Block) (bs rest : List Block) → Front (some x) rest → seam p (x ∷ bs) ≡ seam p rest
seam-Front p x bs [] f = elim f [ ]
seam-Front p x bs (c ∷ cs) f = rw (f.0, f.1) refl
