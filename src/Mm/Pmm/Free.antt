-- ===== src/Mm/Pmm/Free.antt =====
-- `PmmFreePage` and `PmmPinPage` of Kernel/mm/pmm.c.
use vibecoded_os.Prelude.{ℕ, ◌*◌, ◌/◌, ◌<◌, ◌≡◌, ◌≢◌, true, false, arith, u32_mod}
use vibecoded_os.Mm.Pmm.{Pmm, test, free_page, pin_page, page_size}
use vibecoded_os.Mm.Pmm.Bitmap.{InRange, test-clear, length-mark, length-clear}
use vibecoded_os.Mm.Pmm.Count.{used_below, used_below-clear, used_below-le, IsValid, Counted}

-- PmmFreePage never releases a pinned page: it leaves the whole state as it was.
pub free_page_pinned :
    {p : Pmm} (phys : ℕ) → test p.pinned (phys / page_size) ≡ true → free_page phys p ≡ p
unfolding free_page
free_page_pinned phys h = ground arith

-- A page that is free already is not freed again.
pub free_page_twice :
    {p : Pmm} (phys : ℕ) → test p.bitmap (phys / page_size) ≡ false → free_page phys p ≡ p
unfolding free_page
free_page_twice phys h = ground arith

pub free_page-IsValid : {p : Pmm} (phys : ℕ) → IsValid p → IsValid (free_page phys p)
unfolding free_page
free_page-IsValid {p} phys v = ground (arith, length-clear p.bitmap (phys / page_size))

pub pin_page-IsValid : {p : Pmm} (phys : ℕ) → IsValid p → IsValid (pin_page phys p)
unfolding pin_page
pin_page-IsValid {p} phys v = ground (arith, length-mark p.pinned (phys / page_size))

-- The one page that PmmFreePage may clear is the page of its argument: every other bit stays.
pub free_page_others :
    {p : Pmm} (phys q : ℕ)
    → IsValid p
    → q < 64 * u32_mod
    → q ≢ phys / page_size
    → test (free_page phys p).bitmap q ≡ test p.bitmap q
unfolding free_page
free_page_others {p} phys q v h ne = ground (
  arith,
  λ (r : InRange p.bitmap (phys / page_size)). test-clear p.bitmap (phys / page_size) q r h,
)

-- PmmFreePage of an address below the last page keeps the counter exact.
pub free_page-Counted :
    {p : Pmm} (phys : ℕ)
    → IsValid p
    → phys / page_size < p.highest_page
    → Counted p
    → Counted (free_page phys p)
unfolding free_page
free_page-Counted {p} phys v h c = ground (
  arith,
  λ (t : test p.bitmap (phys / page_size) ≡ true).
      used_below-clear p.highest_page p.bitmap (phys / page_size) (omega arith) t (omega arith),
  used_below-le p.highest_page p.bitmap,
)

pub free_page_pins : (p : Pmm) (phys : ℕ) → (free_page phys p).pinned ≡ p.pinned
unfolding free_page
free_page_pins p phys = ground arith

-- The state after `PmmFreePage` of the page just past the last one: `page > g_pmm_highest_page` lets
-- it through, though no allocation ever looks at that page. If its bit is set, as `PmmInit` leaves
-- it unless the number of pages is a multiple of 64, the counter of used pages falls by one while
-- every page that can be allocated keeps its bit: an exact counter is exact no longer.
pub free_page_past_end :
    {p : Pmm} (phys : ℕ)
    → IsValid p
    → phys / page_size ≡ p.highest_page
    → phys ≢ 0
    → test p.pinned p.highest_page ≡ false
    → test p.bitmap p.highest_page ≡ true
    → Counted p
    → 0 < p.used_pages
    → (used_below p.highest_page (free_page phys p).bitmap ≡ p.used_pages)
      × (¬ Counted (free_page phys p))
unfolding free_page
free_page_past_end {p} phys v e nz pin used c pos =
    let u =
      used_below-clear p.highest_page p.bitmap p.highest_page (omega arith) used (omega arith) in
    let le = used_below-le p.highest_page p.bitmap in rw e (ground arith, λ bad. ground arith)
