-- ===== src/Mm/Tests.antt =====
-- Runs of Kernel/mm/pmm.c and Kernel/mm/heap.c on a machine of ten pages.
use vibecoded_os.Prelude.{
  ℕ, ◌+◌, ◌-◌, ◌*◌, ◌/◌, ◌^◌, ◌≤◌, ◌≡◌, refl, ◌≢◌, ◌⊎◌, inl, inr, true, false, some, none, List, [],
  ◌∷◌, arith,
}
use vibecoded_os.Prelude.Bits.{test_bit}
use vibecoded_os.Mm.Pmm.{
  find_run, survey, Pmm, Desc, Reserved, test, alloc_page, alloc_pages, init, page_size,
}
use vibecoded_os.Mm.Pmm.Count.{used_below, IsValid, Counted}
use vibecoded_os.Mm.Pmm.Alloc.{Allocated, AllUsed, alloc_page_lem}
use vibecoded_os.Mm.Pmm.Runs.{TookRun, NoRun, alloc_pages_lem}
use vibecoded_os.Mm.Pmm.Pins.{Call, alloc, alloc_n, free, free_n, pin, run, Held, run-Held}
use vibecoded_os.Mm.Pmm.Boot.{IsPlatform, IsSound, init-IsSound}
use vibecoded_os.Mm.Vmm.{Vmm, walk, absent, at_page, unmap_page, get_physical}
use vibecoded_os.Mm.Vmm.Levels.{unmap_page-absent}
use vibecoded_os.Prelude.{if◌then◌else◌, ◌&&◌, ◌==◌}
use vibecoded_os.Mm.Heap.{
  Block, Heap, block_magic, header_size, phys_offset, done, km_free, heap_init, expand, pages_for,
}
use vibecoded_os.Mm.Heap.Chain.{Has, SameBytes, busy, bytes, cover}
use vibecoded_os.Mm.Heap.Grow.{IsGood}
use vibecoded_os.Mm.Heap.Grant.{heap_init-IsGood}
use vibecoded_os.Mm.Heap.Seams.{seams}
use vibecoded_os.Mm.Heap.Free.{km_free_lem}

-- Ten pages, of which 4, 5 and 6 are free; page 0 is pinned.
abbrev small : Pmm
small = record {
  total_pages = 10;
  used_pages = 7;
  highest_page = 10;
  bitmap = (2 ^ 64 - 1 - 0x70) ∷ [];
  pinned = 1 ∷ [];
}

small-IsValid : IsValid small
small-IsValid = record { reach = omega arith; small = omega arith; pins = refl }

small-Counted : Counted small
unfolding used_below test test_bit
small-Counted = refl

alloc_two : (alloc_pages 2 small).0 ≡ 4 * page_size
unfolding alloc_pages find_run test test_bit
alloc_two = refl

alloc_page_lem_example :
    ((i : ℕ) × Allocated small i (alloc_page small))
    ⊎ (AllUsed small × (alloc_page small ≡ (0, small)))
alloc_page_lem_example = alloc_page_lem {p = small} small-IsValid small-Counted

alloc_pages_lem_example :
    ((s : ℕ) × TookRun small 2 s (alloc_pages 2 small))
    ⊎ (NoRun small 2 × (alloc_pages 2 small ≡ (0, small)))
alloc_pages_lem_example = alloc_pages_lem {p = small} 2 (omega arith) small-IsValid small-Counted

page_zero_pinned : test small.pinned 0 ≡ true
unfolding test test_bit
page_zero_pinned = refl

page_zero_used : test small.bitmap 0 ≡ true
unfolding test test_bit
page_zero_used = refl

past_end_free : test small.pinned small.highest_page ≡ false
unfolding test test_bit
past_end_free = refl

past_end_set : test small.bitmap small.highest_page ≡ true
unfolding test test_bit
past_end_set = refl

zero-Held : Held 0 small
zero-Held = record {
  valid = small-IsValid;
  pinned = page_zero_pinned;
  used = page_zero_used;
  below = omega arith;
}

abbrev calls : List Call
calls = alloc ∷ free_n 0 4 ∷ pin 0x4000 ∷ alloc_n 2 ∷ free 0 ∷ []

run-Held_example : Held 0 (run calls small)
run-Held_example = run-Held 0 calls small zero-Held

-- Sixteen usable pages from 0x4000 on, and one descriptor of reserved memory.
abbrev descs : List Desc
descs =
    record { kind = 7; phys_start = 0x4000; num_pages = 16 }
    ∷ record { kind = 0; phys_start = 0x100000; num_pages = 4 }
    ∷ []

abbrev reserved : Reserved
reserved = record {
  kernel_base = 0x6000;
  kernel_size = 0x2000;
  map_base = 0x9000;
  map_size = 64;
  fb_base = 0x80000000;
  fb_size = 0x1000;
}

platform : IsPlatform ((survey descs 0 0).0 / page_size) descs reserved (0 ∷ []) (0 ∷ [])
unfolding survey
platform = record {
  no_wrap = (λ _. omega arith, (λ u. absurd (let z : ⊥ = ground arith in z), tt));
  nonempty = omega arith;
  reach = omega arith;
  size = omega arith;
  pins = refl;
  kernel = record { no_wrap = omega arith; apart = inl (omega arith) };
  memory_map = record { no_wrap = omega arith; apart = inl (omega arith) };
  framebuffer = record { no_wrap = omega arith; apart = inr (omega arith) };
}

init-IsSound_example :
    (p : Pmm) × (init descs reserved (0 ∷ []) (0 ∷ []) ≡ some p)
    × IsSound ((survey descs 0 0).0 / page_size) p
    × (test p.bitmap 0 ≡ true)
init-IsSound_example = init-IsSound descs reserved (0 ∷ []) (0 ∷ []) platform

-- Page 7 is a heap of two blocks, the first handed out.
abbrev base : ℕ
base = 7 * page_size + phys_offset

abbrev given : Block
given = record { addr = base; magic = block_magic; size = 64; free = false }

abbrev spare : Block
spare = record { addr = base + 104; magic = block_magic; size = 3952; free = true }

abbrev heap : Heap
heap = record {
  pmm = small;
  vmm_active = true;
  chain = given ∷ spare ∷ [];
  total = 4096;
  used = 64;
}

page_seven : (n : ℕ) → n ≡ 7 → test small.bitmap n ≡ true
unfolding test test_bit
page_seven n e = rw e refl

heap-IsGood : IsGood heap
unfolding cover bytes busy
heap-IsGood = record {
  active = refl;
  pmm_valid = small-IsValid;
  pmm_counted = small-Counted;
  blocks = (
    record { magic = refl; low = omega arith; high = omega arith },
    (record { magic = refl; low = omega arith; high = omega arith }, tt),
  );
  apart = λ x. ground arith;
  backed = λ x c.
      (ground arith, ground arith, page_seven ((x - phys_offset) / page_size) (ground arith));
  total = refl;
  used = refl;
}

km_free_lem_example :
    (h' : Heap) × (km_free (base + header_size) heap ≡ done tt h')
    × IsGood h'
    × (busy h'.chain + 64 ≡ busy heap.chain)
    × SameBytes h'.chain heap.chain
    × (seams h'.chain ≡ seams heap.chain)
    × ((c : Block) → Has c heap.chain → c.free ≡ false → c.addr ≢ base → Has c h'.chain)
km_free_lem_example = km_free_lem {h = heap} given heap-IsGood (inl refl) refl

-- Ten pages, of which 4 to 8 are free.
abbrev roomy : Pmm
roomy = record small { used_pages = 5; bitmap = (2 ^ 64 - 1 - 0x1f0) ∷ [] }

roomy-IsValid : IsValid roomy
roomy-IsValid = record { reach = omega arith; small = omega arith; pins = refl }

roomy-Counted : Counted roomy
unfolding used_below test test_bit
roomy-Counted = refl

abbrev before_init : Heap
before_init = record { pmm = roomy; vmm_active = true; chain = []; total = 0; used = 0 }

heap_init-IsGood_example :
    ((h' : Heap) × (b : Block) × (heap_init before_init ≡ some h')
      × IsGood h'
      × (h'.chain ≡ b ∷ [])
      × (b.free ≡ true)
      × (4 * page_size ≤ b.size))
    ⊎ ((heap_init before_init ≡ none)
        × (NoRun roomy (pages_for (4 * page_size))
            ⊎ ((alloc_pages (pages_for (4 * page_size)) roomy).0 ≡ 0)))
heap_init-IsGood_example = heap_init-IsGood before_init refl roomy-IsValid roomy-Counted

heap_starts :
    heap_init before_init
    ≡ some (record {
      pmm = (alloc_pages 5 roomy).1;
      vmm_active = true;
      chain =
          record {
            addr = phys_offset + 4 * page_size;
            magic = block_magic;
            size = 5 * page_size - header_size;
            free = true;
          }
          ∷ [];
      total = 5 * page_size;
      used = 0;
    })
unfolding heap_init expand alloc_pages find_run test test_bit
heap_starts = refl

-- Four tables of one entry each, which map the page at 0x1000 to the frame 0x9000.
abbrev mapped : Vmm
mapped = record {
  pmm = small;
  entry = λ t i.
      if t == 0x2000 && i == 1
      then 0x9003
      else if i == 0
      then (if t == 0x5000
          then 0x4003
          else if t == 0x4000
          then 0x3003
          else if t == 0x3000
          then 0x2003
          else 0)
      else 0;
  kernel_pml4 = 0x5000;
}

mapped-walk : walk 0x5000 0x1000 mapped ≡ at_page 0x2000
unfolding walk test_bit
mapped-walk = refl

unmap_page-absent_example :
    (walk 0x5000 0x1000 (unmap_page 0x5000 0x1000 mapped).1 ≡ absent)
    × (get_physical 0x5000 0x1000 (unmap_page 0x5000 0x1000 mapped).1 ≡ 0)
unmap_page-absent_example =
    unmap_page-absent 0x5000 0x1000 mapped mapped-walk (omega arith) (omega arith) (omega arith)
