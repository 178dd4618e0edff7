-- ===== src/Mm/Vmm.antt =====
-- Kernel/mm/vmm.c: the four levels of page tables. A table is named by its physical address, since
-- PHYS_TO_VIRT and back cancel out; its 512 entries are a function of the index. `|` of a masked
-- address and flags is a sum, since no flag lies in PAGE_MASK; __invlpg is left out.
pub mod Levels
use vibecoded_os.Prelude.{
  ℕ, zero, suc, ◌+◌, ◌-◌, ◌*◌, ◌/◌, ◌%◌, ◌^◌, Bool, true, false, not, Option, none, some, ◌&&◌,
  ◌==◌, if◌then◌else◌, add64, mul64,
}
use vibecoded_os.Prelude.Bits.{test_bit, set_bit}
use vibecoded_os.Mm.Pmm.{Pmm, alloc_page, pin_page, page_size}

-- The page tables in memory, the allocator and `g_kernel_pml4`.
pub record Vmm : Type 0 where
  pub pmm : Pmm
  pub entry : (table index : ℕ) → ℕ
  pub kernel_pml4 : ℕ

abbrev pub write_entry : (table index value : ℕ) → Vmm → Vmm
write_entry t i v s = record s { entry = λ q j. if q == t && j == i then v else s.entry q j }

-- `RtMemSet(virt, 0, PAGE_SIZE)` of a table
abbrev pub zero_table : ℕ → Vmm → Vmm
zero_table t s = record s { entry = λ q j. if q == t then 0 else s.entry q j }

-- `entry & VMM_PRESENT`, `entry & VMM_HUGE` and `flags & VMM_USER`
abbrev pub present : ℕ → Bool
present e = test_bit e 0

abbrev pub huge : ℕ → Bool
huge e = test_bit e 7

abbrev pub user : ℕ → Bool
user flags = test_bit flags 2

-- `entry & PAGE_MASK`
abbrev pub frame : ℕ → ℕ
frame e = e / 4096 % 2 ^ 40 * 4096

-- `PML4E_INDEX`, `PDPTE_INDEX`, `PDE_INDEX` and `PTE_INDEX`
abbrev pub pml4e_index : ℕ → ℕ
pml4e_index virt = virt / 2 ^ 39 % 512

abbrev pub pdpte_index : ℕ → ℕ
pdpte_index virt = virt / 2 ^ 30 % 512

abbrev pub pde_index : ℕ → ℕ
pde_index virt = virt / 2 ^ 21 % 512

abbrev pub pte_index : ℕ → ℕ
pte_index virt = virt / 2 ^ 12 % 512

-- `GetNextLevel`: the table below; NULL is `none`.
unfoldable pub get_next_level : (table index flags : ℕ) (pin : Bool) → Vmm → Option ℕ × Vmm
get_next_level t i flags pin s =
    let e = s.entry t i in
    let marked = if user flags then write_entry t i (set_bit e 2) s else s in
    let (phys, pmm) = alloc_page s.pmm in
    let fresh =
      write_entry t i (phys + (if user flags then 7 else 3))
        (zero_table phys (record s { pmm = pmm })) in
    if present e
    then (some (frame (marked.entry t i)), marked)
    else if phys == 0
    then (none, record s { pmm = pmm })
    else (some phys, if pin then record fresh { pmm = pin_page phys pmm } else fresh)

-- The entry that `VmmMapPage` writes.
abbrev pub leaf : (phys flags : ℕ) → ℕ
leaf phys flags = frame phys + flags

-- `VmmMapPage`
unfoldable pub map_page : (pml4 virt phys flags : ℕ) → Vmm → Vmm
map_page pml4 virt phys flags s =
    let pin = pml4 == s.kernel_pml4 in
    let (pdpt, s1) = get_next_level pml4 (pml4e_index virt) flags pin s in
    elim pdpt [
      | none ↦ s1
      | some pdpt ↦
          let (pd, s2) = get_next_level pdpt (pdpte_index virt) flags pin s1 in
          elim pd [
            | none ↦ s2
            | some pd ↦
                let (pt, s3) = get_next_level pd (pde_index virt) flags pin s2 in
                elim pt [
                  | none ↦ s3
                  | some pt ↦ write_entry pt (pte_index virt) (leaf phys flags) s3
                ]
          ]
    ]

-- `VmmMapPages`, from round `i` on, with `n` rounds left
unfoldable pub map_pages : (pml4 virt phys flags n i : ℕ) → Vmm → Vmm
map_pages pml4 virt phys flags zero i s = s
map_pages pml4 virt phys flags (suc n) i s =
    map_pages pml4 virt phys flags n (i + 1)
      (map_page pml4 (add64 virt (mul64 i page_size)) (add64 phys (mul64 i page_size)) flags s)

-- Where the walk of `VmmGetPhysical` and `VmmUnmapPage` ends: nowhere, at an entry of a page
-- directory for a huge page, or at an entry of a page table.
pub data Walk : Type 0 where
  absent : Walk
  at_huge : (pd : ℕ) → Walk
  at_page : (pt : ℕ) → Walk

unfoldable pub walk : (pml4 virt : ℕ) → Vmm → Walk
walk pml4 virt s =
    let e4 = s.entry pml4 (pml4e_index virt) in
    let e3 = s.entry (frame e4) (pdpte_index virt) in
    let e2 = s.entry (frame e3) (pde_index virt) in
    let e1 = s.entry (frame e2) (pte_index virt) in
    if not (present e4)
    then absent
    else if not (present e3)
    then absent
    else if not (present e2)
    then absent
    else if huge e2
    then at_huge (frame e3)
    else if not (present e1)
    then absent
    else at_page (frame e2)

-- `VmmGetPhysical`
unfoldable pub get_physical : (pml4 virt : ℕ) → Vmm → ℕ
get_physical pml4 virt s = elim (walk pml4 virt s) [
  | absent ↦ 0
  | at_huge pd ↦ frame (s.entry pd (pde_index virt)) + virt % 2 ^ 21
  | at_page pt ↦ frame (s.entry pt (pte_index virt)) + virt % 2 ^ 12
]

-- `VmmUnmapPage`
unfoldable pub unmap_page : (pml4 virt : ℕ) → Vmm → ℕ × Vmm
unmap_page pml4 virt s = elim (walk pml4 virt s) [
  | absent ↦ (0, s)
  | at_huge pd ↦ (frame (s.entry pd (pde_index virt)), write_entry pd (pde_index virt) 0 s)
  | at_page pt ↦ (frame (s.entry pt (pte_index virt)), write_entry pt (pte_index virt) 0 s)
]

-- `VmmUnmapPages`, likewise
unfoldable pub unmap_pages : (pml4 virt n i : ℕ) → Vmm → Vmm
unmap_pages pml4 virt zero i s = s
unmap_pages pml4 virt (suc n) i s =
    unmap_pages pml4 virt n (i + 1) (unmap_page pml4 (add64 virt (mul64 i page_size)) s).1
