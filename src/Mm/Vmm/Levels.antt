-- ===== src/Mm/Vmm/Levels.antt =====
-- The steps of Kernel/mm/vmm.c from one level of page tables to the next.
use vibecoded_os.Prelude.{ℕ, ◌+◌, ◌%◌, ◌≡◌, ◌≢◌, refl, true, false, arith, ◌==◌}
use vibecoded_os.Prelude.Bits.{test_bit}
use vibecoded_os.Mm.Vmm.{
  Vmm, absent, at_page, walk, get_physical, unmap_page, write_entry, present, huge, frame,
  pml4e_index, pdpte_index, pde_index, pte_index,
}

-- VmmUnmapPage of a page that VmmGetPhysical translates through a page table returns the frame that
-- the translation names, without the offset in the page.
pub unmap_page-get_physical :
    (pml4 virt : ℕ) (s : Vmm) {pt : ℕ}
    → walk pml4 virt s ≡ at_page pt
    → get_physical pml4 virt s ≡ (unmap_page pml4 virt s).0 + virt % 4096
unfolding get_physical unmap_page
unmap_page-get_physical pml4 virt s h = rw (h, get_physical, unmap_page) refl

walk-at_page :
    (pml4 virt : ℕ) (s : Vmm) {pt : ℕ}
    → walk pml4 virt s ≡ at_page pt
    → let e4 = s.entry pml4 (pml4e_index virt) in
      let e3 = s.entry (frame e4) (pdpte_index virt) in
      let e2 = s.entry (frame e3) (pde_index virt) in
      (pt ≡ frame e2)
      × (present e4 ≡ true)
      × (present e3 ≡ true)
      × (present e2 ≡ true)
      × (huge e2 ≡ false)
unfolding walk
walk-at_page pml4 virt s h = ground arith

walk_cleared :
    (pml4 virt : ℕ) (s : Vmm) {pt : ℕ}
    → walk pml4 virt s ≡ at_page pt
    → pml4 ≢ pt
    → frame (s.entry pml4 (pml4e_index virt)) ≢ pt
    → frame (s.entry (frame (s.entry pml4 (pml4e_index virt))) (pdpte_index virt)) ≢ pt
    → walk pml4 virt (write_entry pt (pte_index virt) 0 s) ≡ absent
unfolding walk test_bit
walk_cleared pml4 virt s {pt} h a b c =
    let k = walk-at_page pml4 virt s h in
    let e4 = s.entry pml4 (pml4e_index virt) in
    let e3 = s.entry (frame e4) (pdpte_index virt) in
    let e2 = s.entry (frame e3) (pde_index virt) in
    let n4 : (pml4 == pt) ≡ false = ground arith in
    let n3 : (frame e4 == pt) ≡ false = ground arith in
    let n2 : (frame e3 == pt) ≡ false = ground arith in
    let n1 : (frame e2 == pt) ≡ true = ground arith in
    let i : (pte_index virt == pte_index virt) ≡ true = ground arith in
    rw (n4, n3, n2, k.1, k.2, k.3, k.4, n1, i) refl

-- After VmmUnmapPage of a page that was mapped through a page table, the page is not mapped any more,
-- if that table is none of the three tables above it.
pub unmap_page-absent :
    (pml4 virt : ℕ) (s : Vmm) {pt : ℕ}
    → walk pml4 virt s ≡ at_page pt
    → pml4 ≢ pt
    → frame (s.entry pml4 (pml4e_index virt)) ≢ pt
    → frame (s.entry (frame (s.entry pml4 (pml4e_index virt))) (pdpte_index virt)) ≢ pt
    → (walk pml4 virt (unmap_page pml4 virt s).1 ≡ absent)
      × (get_physical pml4 virt (unmap_page pml4 virt s).1 ≡ 0)
unfolding unmap_page get_physical
unmap_page-absent pml4 virt s {pt} h a b c =
    let w : walk pml4 virt (write_entry pt (pte_index virt) 0 s) ≡ absent =
      walk_cleared pml4 virt s h a b c in
    rw (h, unmap_page) (w, rw (w, get_physical) refl)
