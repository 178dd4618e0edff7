-- ===== src/Mm/Heap/Chain.antt =====
-- What a chain of heap blocks covers, and that splitting and coalescing cover the same bytes.
use vibecoded_os.Prelude.{
  ℕ, ◌+◌, ◌%◌, ◌≤◌, ◌<◌, ◌≡◌, refl, ◌⊎◌, inl, inr, true, false, List, [], ◌∷◌, ◌++◌, arith, ◌&&◌,
  if◌then◌else◌, Bool-cases, u64_mod, add64, sub64, ltb, leb,
}
use vibecoded_os.Mm.Heap.{
  Block, block_magic, header_size, split_block, occupy, head_size, fresh_block,
}

-- A header that the heap wrote, with its block inside the address space.
pub record IsBlock (b : Block) : Type 0 where
  pub magic : b.magic ≡ block_magic
  pub low : 16 ≤ b.addr
  pub high : b.addr + header_size + b.size < u64_mod

abbrev pub AllBlocks : List Block → Type 0
AllBlocks [] = Unit {0}
AllBlocks (b ∷ bs) = IsBlock b × AllBlocks bs

abbrev pub Has : Block → List Block → Type 0
Has b [] = ⊥
Has b (x ∷ xs) = (b ≡ x) ⊎ Has b xs

-- Whether the block, header included, holds the byte at `x`.
abbrev pub cover_one : ℕ → Block → ℕ
cover_one x b = if leb b.addr x && ltb x (b.addr + header_size + b.size) then 1 else 0

-- How many blocks of the chain hold the byte at `x`.
unfoldable pub cover : ℕ → List Block → ℕ
cover x [] = 0
cover x (b ∷ bs) = cover_one x b + cover x bs

-- All bytes of the chain, headers included.
unfoldable pub bytes : List Block → ℕ
bytes [] = 0
bytes (b ∷ bs) = header_size + b.size + bytes bs

-- The bytes handed out.
unfoldable pub busy : List Block → ℕ
busy [] = 0
busy (b ∷ bs) = (if b.free then 0 else b.size) + busy bs

-- The chains hold the same bytes, as often.
pub record SameBytes (xs ys : List Block) : Type 0 where
  pub covers : (x : ℕ) → cover x xs ≡ cover x ys
  pub sum : bytes xs ≡ bytes ys

pub SameBytes-cons :
    (b : Block) (xs ys : List Block) → SameBytes xs ys → SameBytes (b ∷ xs) (b ∷ ys)
unfolding cover bytes
SameBytes-cons b xs ys s = record {
  covers = λ x. ground (arith, s.covers x);
  sum = let e = s.sum in omega arith;
}

pub Has-IsBlock : (b : Block) (bs : List Block) → AllBlocks bs → Has b bs → IsBlock b
Has-IsBlock b [] oks h = elim h [ ]
Has-IsBlock b (x ∷ bs) oks (inl e) = rw e oks.0
Has-IsBlock b (x ∷ bs) oks (inr h) = Has-IsBlock b bs oks.1 h

pub cover-append : (x : ℕ) (xs ys : List Block) → cover x (xs ++ ys) ≡ cover x xs + cover x ys
unfolding cover
cover-append x [] ys = omega arith
cover-append x (b ∷ xs) ys = ground (arith, cover-append x xs ys)

pub bytes-append : (xs ys : List Block) → bytes (xs ++ ys) ≡ bytes xs + bytes ys
unfolding bytes
bytes-append [] ys = omega arith
bytes-append (b ∷ xs) ys = ground (arith, bytes-append xs ys)

pub busy-append : (xs ys : List Block) → busy (xs ++ ys) ≡ busy xs + busy ys
unfolding busy
busy-append [] ys = omega arith
busy-append (b ∷ xs) ys = ground (arith, busy-append xs ys)

pub AllBlocks-append : (xs ys : List Block) → AllBlocks xs → AllBlocks ys → AllBlocks (xs ++ ys)
AllBlocks-append [] ys p q = q
AllBlocks-append (b ∷ xs) ys p q = (p.0, AllBlocks-append xs ys p.1 q)

pub Has-append : (b : Block) (xs ys : List Block) → Has b xs → Has b (xs ++ ys)
Has-append b [] ys h = elim h [ ]
Has-append b (x ∷ xs) ys (inl e) = inl e
Has-append b (x ∷ xs) ys (inr h) = inr (Has-append b xs ys h)

-- What carving `size` bytes out of a free block gives, in front of the chain `bs`.
pub record Carved (b : Block) (size : ℕ) (bs rest : List Block) (taken : ℕ) : Type 0 where
  pub good : AllBlocks rest
  pub same : SameBytes rest (b ∷ bs)
  pub busier : busy rest ≡ taken + busy bs
  pub enough : size ≤ taken
  pub within : taken ≤ b.size
  pub head : Has (record b { size = taken; free = false }) rest
  pub tail : (c : Block) → Has c bs → Has c rest

abbrev rest_block : Block → ℕ → Block
rest_block b size =
    fresh_block (add64 (add64 b.addr header_size) size) (sub64 (sub64 b.size size) header_size)

module _ {b : Block} {size : ℕ} (ok : IsBlock b) (le : size ≤ b.size) where
  carve_front : IsBlock (record b { size = size; free = false })
  carve_front = let h = ok.high in record { magic = ok.magic; low = ok.low; high = omega arith }

  module _ (room : leb (size + 40 + 16) b.size ≡ true) where
    room_le : size + 40 + 16 ≤ b.size
    room_le = ground arith

    rest_addr : (rest_block b size).addr ≡ b.addr + 40 + size
    rest_addr = let h = ok.high in let r = room_le in omega arith

    rest_size : (rest_block b size).size + size + 40 ≡ b.size
    rest_size = let h = ok.high in let r = room_le in omega arith

    carve_back : IsBlock (rest_block b size)
    carve_back =
        let h = ok.high in
        let l = ok.low in
        let r = room_le in record { magic = refl; low = omega arith; high = omega arith }

    carve_same :
        {bs : List Block}
        → SameBytes (record b { size = size; free = false } ∷ rest_block b size ∷ bs) (b ∷ bs)
    unfolding cover bytes
    carve_same = record {
      covers = λ x. let a = rest_addr in let z = rest_size in ground arith;
      sum = let z = rest_size in omega arith;
    }

pub split_block-Carved :
    (b : Block) (size : ℕ) (bs : List Block)
    → IsBlock b
    → AllBlocks bs
    → size ≤ b.size
    → Carved b size bs (occupy (split_block b size) ++ bs) (head_size (split_block b size))
unfolding split_block cover bytes busy
split_block-Carved b size bs ok oks le = elim (Bool-cases (leb (size + 40 + 16) b.size)) [
  | inl room ↦
      let fit : leb ((((size + 40) % u64_mod) + 16) % u64_mod) b.size ≡ true =
        (let l = ok.low in let h = ok.high in ground arith) in
      rw fit (record {
        good = (carve_front ok le, (carve_back ok le room, oks));
        same = carve_same ok le room;
        busier = omega arith;
        enough = omega arith;
        within = le;
        head = inl refl;
        tail = λ c h. inr (inr h);
      })
  | inr tight ↦
      let fit : leb ((((size + 40) % u64_mod) + 16) % u64_mod) b.size ≡ false =
        (let l = ok.low in let h = ok.high in ground arith) in
      rw fit (record {
        good = (record { magic = ok.magic; low = ok.low; high = ok.high }, oks);
        same = record { covers = λ x. refl; sum = refl };
        busier = omega arith;
        enough = le;
        within = omega arith;
        head = inl refl;
        tail = λ c h. inr h;
      })
]
