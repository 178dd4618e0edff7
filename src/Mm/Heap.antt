-- ===== src/Mm/Heap.antt =====
-- Kernel/mm/heap.c: the kernel heap. The doubly linked list of `HeapBlock`s from `g_heap_head` is a
-- list of blocks in the order of `next`, so that `prev` is the block before. A header is found by
-- its address. KdPanic stops the machine.
pub mod Chain
pub mod Alloc
pub mod Grow
pub mod Grant
pub mod Seams
pub mod Coalesce
pub mod Free
use vibecoded_os.Prelude.{
  ℕ, zero, suc, ◌+◌, ◌-◌, ◌*◌, ◌/◌, ◌%◌, ◌^◌, Bool, true, false, Option, none, some, List, [], ◌∷◌,
  ◌++◌, ◌&&◌, ltb, leb, ◌==◌, if◌then◌else◌, add64, sub64, mul64,
}
use vibecoded_os.Mm.Pmm.{Pmm, alloc_pages, page_size}

abbrev pub block_magic : ℕ
block_magic = 0x48454150

-- `sizeof(HeapBlock)`: two u64, an i32, a u32 and two pointers
abbrev pub header_size : ℕ
header_size = 40

abbrev pub min_block : ℕ
min_block = 16

abbrev pub phys_offset : ℕ
phys_offset = 0xFFFF800000000000

pub record Block : Type 0 where
  pub addr : ℕ
  pub magic : ℕ
  pub size : ℕ
  pub free : Bool

-- The globals of the heap, and the page allocator below it.
pub record Heap : Type 0 where
  pub pmm : Pmm
  pub vmm_active : Bool
  pub chain : List Block
  pub total : ℕ
  pub used : ℕ

-- `PHYS_TO_VIRT`
abbrev pub phys_to_virt : Bool → ℕ → ℕ
phys_to_virt active p = if active then add64 p phys_offset else p

-- How a call ends. `wild` is a call of KmFree with a pointer that follows no header of the chain:
-- the code then reads whatever lies there. `out_of_fuel` is no behaviour of the code: no call ends so.
pub data Run (A : Type 0) : Type 0 where
  done : A → Heap → Run A
  panic : Run A
  wild : Run A
  out_of_fuel : Run A

abbrev pub fresh_block : ℕ → ℕ → Block
fresh_block at size = record { addr = at; magic = block_magic; size = size; free = true }

abbrev pub pages_for : ℕ → ℕ
pages_for min_size = sub64 (add64 (add64 min_size header_size) page_size) 1 / page_size

-- The new block goes to the end of the chain. The first result says whether there was memory.
unfoldable pub expand : ℕ → Heap → Option Heap
expand min_size h =
    let pages = pages_for min_size in
    let (phys, pmm') = alloc_pages pages h.pmm in
    let total_bytes = mul64 pages page_size in
    let block = fresh_block (phys_to_virt h.vmm_active phys) (sub64 total_bytes header_size) in
    if phys == 0
    then none
    else some (record h {
      pmm = pmm';
      chain = h.chain ++ (block ∷ []);
      total = add64 h.total total_bytes;
    })

unfoldable pub heap_init : Heap → Option Heap
heap_init h = expand (mul64 page_size 4) (record h { chain = []; total = 0; used = 0 })

-- `HeapSplitBlock`: the block, and the rest of it as a block of its own where there is room.
pub split_block : Block → ℕ → List Block
split_block b size =
    if leb (add64 (add64 size header_size) min_block) b.size
    then record b { size = size }
      ∷ fresh_block (add64 (add64 b.addr header_size) size) (sub64 (sub64 b.size size) header_size)
      ∷ []
    else b ∷ []

-- `block->free = 0`, for the first of what `split_block` gives
abbrev pub occupy : List Block → List Block
occupy [] = []
occupy (b ∷ bs) = record b { free = false } ∷ bs

abbrev pub head_size : List Block → ℕ
head_size [] = 0
head_size (b ∷ bs) = b.size

-- The walk of KmAlloc along the chain: the result pointer, the bytes taken and the new chain.
pub data Search : Type 0 where
  corrupted : Search
  missing : Search
  found : (ptr taken : ℕ) → List Block → Search

abbrev pub keep : Block → Search → Search
keep b corrupted = corrupted
keep b missing = missing
keep b (found ptr taken rest) = found ptr taken (b ∷ rest)

pub search : ℕ → List Block → Search
search size [] = missing
search size (b ∷ bs) =
    let parts = split_block b size in
    let rest = keep b (search size bs) in
    if b.magic == block_magic
    then (if b.free && leb size b.size
        then found (add64 b.addr header_size) (head_size parts) (occupy parts ++ bs)
        else rest)
    else corrupted

-- `(size + HEAP_ALIGN - 1) & ~(u64)(HEAP_ALIGN - 1)`
abbrev pub round_up : ℕ → ℕ
round_up size = sub64 (add64 size 16) 1 / 16 * 16

-- KmAlloc with its call of itself after HeapExpand, on fuel.
pub alloc_loop : ℕ → ℕ → Heap → Run ℕ
alloc_loop zero size h = out_of_fuel
alloc_loop (suc fuel) size h =
    let again : Run ℕ = elim (expand (round_up size) h) [
      | none ↦ panic
      | some h' ↦ alloc_loop fuel (round_up size) h'
    ] in
    if size == 0 then done 0 h else elim (search (round_up size) h.chain) [
      | corrupted ↦ panic
      | missing ↦ again
      | found ptr taken chain ↦ done ptr (record h { chain = chain; used = add64 h.used taken })
    ]

-- Two rounds: a block that HeapExpand has just made is large enough.
pub km_alloc : ℕ → Heap → Run ℕ
km_alloc size h = alloc_loop 2 size h

-- The first half of `HeapCoalesce`: `block` with the chain behind it.
pub coalesce_next : Block → List Block → List Block
coalesce_next b [] = b ∷ []
coalesce_next b (n ∷ ns) =
    if (n.magic == block_magic && n.free) && (add64 (add64 b.addr header_size) b.size == n.addr)
    then record b { size = add64 b.size (add64 header_size n.size) } ∷ ns
    else b ∷ n ∷ ns

-- The second half: `p` is `block->prev`.
pub coalesce_prev : Block → List Block → List Block
coalesce_prev p [] = p ∷ []
coalesce_prev p (b ∷ bs) =
    if (p.magic == block_magic && p.free) && (add64 (add64 p.addr header_size) p.size == b.addr)
    then record p { size = add64 p.size (add64 header_size b.size) } ∷ bs
    else p ∷ b ∷ bs

-- The walk to the header at `at`. `before` is the block before the list, if there is one. The
-- results are the outcome of the two checks and, where they pass, the size of the block and the
-- chain from `before` on after `block->free = 1` and `HeapCoalesce`.
pub data Release : Type 0 where
  not_found : Release
  bad_magic : Release
  double_free : Release
  released : ℕ → List Block → Release

abbrev pub behind : Block → Release → Release
behind p (released n rest) = released n (p ∷ rest)
behind p r = r

abbrev pub join_prev : Option Block → List Block → List Block
join_prev none rest = rest
join_prev (some p) rest = coalesce_prev p rest

abbrev pub push_prev : Option Block → Release → Release
push_prev none r = r
push_prev (some p) r = behind p r

pub release : ℕ → Option Block → List Block → Release
release at prev [] = not_found
release at prev (b ∷ bs) =
    let on = push_prev prev (release at (some b) bs) in
    if b.addr == at
    then (if b.magic == block_magic
        then (if b.free
            then double_free
            else released b.size (join_prev prev (coalesce_next (record b { free = true }) bs)))
        else bad_magic)
    else on

pub km_free : ℕ → Heap → Run (Unit {0})
km_free ptr h =
    if ptr == 0 then done tt h else elim (release (sub64 ptr header_size) none h.chain) [
      | not_found ↦ wild
      | bad_magic ↦ panic
      | double_free ↦ panic
      | released n chain ↦ done tt (record h { chain = chain; used = sub64 h.used n })
    ]
