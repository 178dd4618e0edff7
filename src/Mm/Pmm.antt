-- ===== src/Mm/Pmm.antt =====
-- Kernel/mm/pmm.c: the physical page allocator. Its globals are the fields of `Pmm`; a page is a
-- bit of `g_pmm_bitmap`, an array of 64-bit words. A function that writes a global returns the new
-- state. The texts that KdPrintf logs are left out.
pub mod Bitmap
pub mod Count
pub mod Alloc
pub mod Free
pub mod Runs
pub mod Pins
pub mod Fill
pub mod Survey
pub mod Boot
use vibecoded_os.Prelude.{
  ℕ, zero, suc, ◌+◌, ◌-◌, ◌*◌, ◌/◌, ◌%◌, ◌^◌, min, Bool, true, false, Option, none, some, List, [],
  ◌∷◌, ◌||◌, ltb, leb, ◌==◌, if◌then◌else◌, length, get_or, set, replicate, add64, sub64, mul64,
  u32_mod,
}
use vibecoded_os.Prelude.Bits.{test_bit, set_bit, clear_bit}

abbrev pub page_size : ℕ
page_size = 4096

-- `PMM_BITMAP_SIZE_MAX`, in words
abbrev pub bitmap_size_max : ℕ
bitmap_size_max = 131072

pub record Pmm : Type 0 where
  pub total_pages : ℕ
  pub used_pages : ℕ
  pub highest_page : ℕ
  pub bitmap : List ℕ
  pub pinned : List ℕ

-- `BITMAP_INDEX`, with its cast to `u32`
abbrev pub index : ℕ → ℕ
index page = page / 64 % u32_mod

-- `BITMAP_TEST` and `PINNED_TEST`
unfoldable pub test : List ℕ → ℕ → Bool
test words page = test_bit (get_or words (index page) 0) (page % 64)

-- `BITMAP_SET` and `PINNED_SET`
unfoldable pub mark : List ℕ → ℕ → List ℕ
mark words page = set words (index page) (set_bit (get_or words (index page) 0) (page % 64))

-- `BITMAP_CLEAR`
unfoldable pub clear : List ℕ → ℕ → List ℕ
clear words page = set words (index page) (clear_bit (get_or words (index page) 0) (page % 64))

-- `if (!BITMAP_TEST(i)) { BITMAP_SET(i); g_pmm_used_pages++; }`
pub mark_page : ℕ → Pmm → Pmm
mark_page i p =
    if test p.bitmap i
    then p
    else record p { bitmap = mark p.bitmap i; used_pages = add64 p.used_pages 1 }

-- `if (BITMAP_TEST(j)) { BITMAP_CLEAR(j); g_pmm_used_pages--; }`
pub release_page : ℕ → Pmm → Pmm
release_page j p =
    if test p.bitmap j
    then record p { bitmap = clear p.bitmap j; used_pages = sub64 p.used_pages 1 }
    else p

-- The body of a loop at `n` pages in turn, from page `i` on.
pub each_page : (ℕ → Pmm → Pmm) → ℕ → ℕ → Pmm → Pmm
each_page body zero i p = p
each_page body (suc n) i p = each_page body n (i + 1) (body i p)

-- The rounds of `for (i = start; i < end && i <= g_pmm_highest_page; i++)`.
abbrev pub rounds : ℕ → ℕ → Pmm → ℕ
rounds start end p = min end (p.highest_page + 1) - start

pub mark_region_used : ℕ → ℕ → Pmm → Pmm
unfolding each_page
mark_region_used base len p =
    let start = base / page_size in
    let end = sub64 (add64 (add64 base len) page_size) 1 / page_size in
    each_page mark_page (rounds start end p) start p

-- One descriptor of the UEFI memory map: the fields at its offsets 0, 8 and 24.
pub record Desc : Type 0 where
  pub kind : ℕ
  pub phys_start : ℕ
  pub num_pages : ℕ

-- `type == 7 || type == 4 || type == 3`
abbrev pub usable : Desc → Bool
usable d = d.kind == 7 || (d.kind == 4 || d.kind == 3)

-- The first pass of `PmmInit`: the highest end of a usable region, and the usable pages.
unfoldable pub survey : List Desc → ℕ → ℕ → ℕ × ℕ
survey [] max_addr total = (max_addr, total)
survey (d ∷ ds) max_addr total =
    let end = add64 d.phys_start (mul64 d.num_pages page_size) in
    survey ds (if usable d then (if ltb max_addr end then end else max_addr) else max_addr)
      (if usable d then add64 total d.num_pages else total)

-- The second pass: the pages of the usable regions are cleared.
pub release_usable : List Desc → Pmm → Pmm
release_usable [] p = p
release_usable (d ∷ ds) p =
    let start = d.phys_start / page_size in
    release_usable ds (
      if usable d
      then each_page release_page (rounds start (add64 start d.num_pages) p) start p
      else p)

-- What `PmmInit` is told: the regions that it must keep, each a base and a length.
pub record Reserved : Type 0 where
  pub kernel_base : ℕ
  pub kernel_size : ℕ
  pub map_base : ℕ
  pub map_size : ℕ
  pub fb_base : ℕ
  pub fb_size : ℕ

-- The words of the bitmap after `RtMemSet(g_pmm_bitmap, 0xFF, size * 8)`: those below `size` are
-- all ones, the others stay as they were.
pub fill : ℕ → List ℕ → List ℕ
fill zero ws = ws
fill (suc n) [] = []
fill (suc n) (w ∷ ws) = (2 ^ 64 - 1) ∷ fill n ws

-- `PmmInit` on the arrays that it finds; `none` is the panic "Bitmap too large". The first page is
-- reserved last, since its address is the failure value of the allocators.
pub init : List Desc → Reserved → (bitmap pinned : List ℕ) → Option Pmm
unfolding survey release_usable fill
init ds r bitmap pinned =
    let (max_addr, total) = survey ds 0 0 in
    let highest = max_addr / page_size in
    let size = (highest + 63) / 64 % u32_mod in
    let start : Pmm = record {
      total_pages = total;
      used_pages = highest;
      highest_page = highest;
      bitmap = fill size bitmap;
      pinned = pinned;
    } in
    if ltb bitmap_size_max size
    then none
    else some (
        mark_page 0 (
          mark_region_used r.fb_base r.fb_size (
            mark_region_used r.map_base r.map_size
              (mark_region_used r.kernel_base r.kernel_size (release_usable ds start)))))

-- The search of `PmmAllocPage`: the first clear bit among `n` pages from `i` on.
pub find_free : List ℕ → ℕ → ℕ → Option ℕ
find_free ws zero i = none
find_free ws (suc n) i = let rest = find_free ws n (i + 1) in if test ws i then rest else some i

abbrev pub take_page : Pmm → Option ℕ → ℕ × Pmm
take_page p none = (0, p)
take_page p (some i) =
    (mul64 i page_size, record p { bitmap = mark p.bitmap i; used_pages = add64 p.used_pages 1 })

-- `PmmAllocPage`, and `PmmAllocPageDebug`, which differs by a log line. Address 0 is the failure.
unfoldable pub alloc_page : Pmm → ℕ × Pmm
alloc_page p = take_page p (find_free p.bitmap p.highest_page 0)

-- The search of `PmmAllocPages`: `found` clear pages in a row end before `i`, the first is `start`.
unfoldable pub find_run : List ℕ → (count n i found start : ℕ) → Option ℕ
find_run ws count zero i found start = none
find_run ws count (suc n) i found start = elim (test ws i) [
  | true ↦ find_run ws count n (i + 1) 0 start
  | false ↦
      let start' = if found == 0 then i else start in
      let rest = find_run ws count n (i + 1) (found + 1) start' in
      if found + 1 == count then some start' else rest
]

-- `for (j = start; j < start + count; j++) BITMAP_SET(j);`
unfoldable pub mark_run : ℕ → ℕ → List ℕ → List ℕ
mark_run zero j ws = ws
mark_run (suc n) j ws = mark_run n (j + 1) (mark ws j)

abbrev pub take_run : ℕ → Pmm → Option ℕ → ℕ × Pmm
take_run count p none = (0, p)
take_run count p (some start) = (
  mul64 start page_size,
  record p { bitmap = mark_run count start p.bitmap; used_pages = add64 p.used_pages count },
)

unfoldable pub alloc_pages : ℕ → Pmm → ℕ × Pmm
alloc_pages count p =
    if count == 0
    then (0, p)
    else if count == 1
    then alloc_page p
    else take_run count p (find_run p.bitmap count p.highest_page 0 0 0)

unfoldable pub free_page : ℕ → Pmm → Pmm
free_page phys p =
    let page = phys / page_size in
    if phys == 0
    then p
    else if ltb p.highest_page page
    then p
    else if test p.pinned page
    then p
    else if test p.bitmap page
    then record p { bitmap = clear p.bitmap page; used_pages = sub64 p.used_pages 1 }
    else p

unfoldable pub pin_page : ℕ → Pmm → Pmm
pin_page phys p =
    let page = phys / page_size in
    if phys == 0
    then p
    else if leb p.highest_page page
    then p
    else record p { pinned = mark p.pinned page }

-- `PmmFreePages` from round `i` on, with `n` rounds left.
free_loop : ℕ → ℕ → ℕ → Pmm → Pmm
free_loop phys zero i p = p
free_loop phys (suc n) i p = free_loop phys n (i + 1) (free_page (add64 phys (mul64 i page_size)) p)

pub free_pages : ℕ → ℕ → Pmm → Pmm
unfolding free_loop
free_pages phys count p = free_loop phys count 0 p

pub get_free_pages : Pmm → ℕ
get_free_pages p = sub64 p.total_pages p.used_pages

unfoldable pub is_page_tracked : ℕ → Pmm → Bool
is_page_tracked phys p = ltb (phys / page_size) p.highest_page
