-- ===== src/Mm/Pmm/Boot.antt =====
-- `PmmInit` of Kernel/mm/pmm.c: what the allocator starts from.
use vibecoded_os.Prelude.{
  sym, ℕ, zero, suc, ◌+◌, ◌*◌, ◌/◌, ◌%◌, ◌≤◌, ◌<◌, ◌≡◌, refl, ◌⊎◌, inl, inr, true, false, some,
  List, [], ◌∷◌, arith, length, Bool-cases, u32_mod, u64_mod, ltb, add64, sub64,
}
use vibecoded_os.Mm.Pmm.{
  Pmm, Desc, Reserved, test, mark_page, release_page, each_page, rounds, mark_region_used, usable,
  survey, release_usable, fill, init, page_size, bitmap_size_max,
}
use vibecoded_os.Mm.Pmm.Fill.{test-fill, length-fill}
use vibecoded_os.Mm.Pmm.Survey.{AllBelow, NoWrap, survey-AllBelow}
use vibecoded_os.Mm.Pmm.Bitmap.{test-mark, length-clear, length-mark}
use vibecoded_os.Mm.Pmm.Count.{
  IsValid, Counted, used_below-mark, used_below-clear, used_below-le, used_below-full,
}

-- A valid state with an exact counter and a given last page.
pub record IsSound (h : ℕ) (p : Pmm) : Type 0 where
  pub valid : IsValid p
  pub counted : Counted p
  pub last : p.highest_page ≡ h

mark_page-IsSound : (h i : ℕ) (p : Pmm) → i < h → IsSound h p → IsSound h (mark_page i p)
unfolding mark_page
mark_page-IsSound h i p lt s =
    let v = s.valid in
    let c = s.counted in
    ground (
      arith,
      length-mark p.bitmap i,
      used_below-le p.highest_page p.bitmap,
      λ (f : test p.bitmap i ≡ false).
          used_below-mark p.highest_page p.bitmap i (omega arith) f (omega arith),
    )

release_page-IsSound : (h i : ℕ) (p : Pmm) → i < h → IsSound h p → IsSound h (release_page i p)
unfolding release_page
release_page-IsSound h i p lt s =
    let v = s.valid in
    let c = s.counted in
    let l = s.last in
    ground (
      arith,
      length-clear p.bitmap i,
      used_below-le p.highest_page p.bitmap,
      λ (f : test p.bitmap i ≡ true).
          used_below-clear p.highest_page p.bitmap i (omega arith) f (omega arith),
    )

each_page_keeps :
    (P : Pmm → Type 0) (body : ℕ → Pmm → Pmm) (h : ℕ)
    → ((j : ℕ) (p : Pmm) → j < h → P p → P (body j p))
    → (n i : ℕ) (p : Pmm) → (0 < n → i + n ≤ h)
    → P p
    → P (each_page body n i p)
unfolding each_page
each_page_keeps P body h keep zero i p b x = x
each_page_keeps P body h keep (suc n) i p b x =
    each_page_keeps P body h keep n (i + 1) (body i p) (omega arith) (keep i p (omega arith) x)

-- A region that the kernel keeps lies below the last page, or wholly past it.
pub record Fits (h base len : ℕ) : Type 0 where
  pub no_wrap : base + len + page_size < u64_mod
  pub apart : ((base + len + 4095) / page_size ≤ h) ⊎ (h < base / page_size)

mark_region_used-IsSound :
    (h base len : ℕ) (p : Pmm)
    → Fits h base len
    → IsSound h p
    → IsSound h (mark_region_used base len p)
unfolding mark_region_used
mark_region_used-IsSound h base len p f s =
    let l = s.last in
    let ap = f.apart in
    let nw = f.no_wrap in
    each_page_keeps (IsSound h) mark_page h (mark_page-IsSound h)
      (rounds (base / page_size) (sub64 (add64 (add64 base len) page_size) 1 / page_size) p)
      (base / page_size) p (omega arith) s

release_usable-IsSound :
    (h : ℕ) (ds : List Desc) (p : Pmm)
    → h < 64 * u32_mod
    → AllBelow h ds
    → IsSound h p
    → IsSound h (release_usable ds p)
unfolding release_usable
release_usable-IsSound h [] p b a s = s
release_usable-IsSound h (d ∷ ds) p b a s =
    release_usable-IsSound h ds _ b a.1 (elim (Bool-cases (usable d)) [
      | inl e ↦
          let le = a.0 e in
          let l = s.last in
          rw e (
            each_page_keeps (IsSound h) release_page h (release_page-IsSound h) _ _ p (omega arith)
              s)
      | inr e ↦ rw e s
    ])

-- What `PmmInit` takes for granted of the machine: `highest` is the last page of the usable memory.
pub record IsPlatform (highest : ℕ) (ds : List Desc) (r : Reserved) (bitmap pinned : List ℕ)
    : Type 0 where
  pub no_wrap : NoWrap ds
  pub nonempty : 0 < highest
  pub reach : highest < 64 * length bitmap
  pub size : length bitmap ≤ bitmap_size_max
  pub pins : length pinned ≡ length bitmap
  pub kernel : Fits highest r.kernel_base r.kernel_size
  pub memory_map : Fits highest r.map_base r.map_size
  pub framebuffer : Fits highest r.fb_base r.fb_size

start_state : (h total : ℕ) (bitmap pinned : List ℕ) → Pmm
start_state h total bitmap pinned = record {
  total_pages = total;
  used_pages = h;
  highest_page = h;
  bitmap = fill ((h + 63) / 64 % u32_mod) bitmap;
  pinned = pinned;
}

start_state-IsSound :
    (h total : ℕ) (bitmap pinned : List ℕ)
    → h < 64 * length bitmap
    → length bitmap ≤ bitmap_size_max
    → length pinned ≡ length bitmap
    → IsSound h (start_state h total bitmap pinned)
unfolding start_state
start_state-IsSound h total bitmap pinned a b c = record {
  valid = omega (arith, length-fill ((h + 63) / 64 % u32_mod) bitmap);
  counted = sym (
      used_below-full h _
        λ k lt. test-fill ((h + 63) / 64 % u32_mod) k bitmap (omega arith) (omega arith) b);
  last = refl;
}

mark_page-first : (h : ℕ) (p : Pmm) → 0 < h → IsSound h p → test (mark_page 0 p).bitmap 0 ≡ true
unfolding mark_page
mark_page-first h p pos s =
    let v = s.valid in
    let l = s.last in ground (arith, test-mark p.bitmap 0 0 (omega arith) (omega arith))

-- On a machine whose usable regions do not wrap, whose bitmap reaches past the last usable page and
-- whose reserved regions end at or below that page or start past it, PmmInit does not panic; it
-- leaves a valid state whose counter of used pages is exact, and page 0 is used, so that 0 is never
-- the address of an allocated page.
pub init-IsSound :
    (ds : List Desc) (r : Reserved) (bitmap pinned : List ℕ)
    → IsPlatform ((survey ds 0 0).0 / page_size) ds r bitmap pinned
    → (p : Pmm) × (init ds r bitmap pinned ≡ some p)
      × IsSound ((survey ds 0 0).0 / page_size) p
      × (test p.bitmap 0 ≡ true)
unfolding init start_state
init-IsSound ds r bitmap pinned f =
    let h = (survey ds 0 0).0 / page_size in
    let s0 = start_state-IsSound h (survey ds 0 0).1 bitmap pinned f.reach f.size f.pins in
    let s1 =
      release_usable-IsSound h ds _ (let a = f.reach in let b = f.size in omega arith)
        (survey-AllBelow ds 0 0 f.no_wrap) s0 in
    let s2 = mark_region_used-IsSound h r.kernel_base r.kernel_size _ f.kernel s1 in
    let s3 = mark_region_used-IsSound h r.map_base r.map_size _ f.memory_map s2 in
    let s4 = mark_region_used-IsSound h r.fb_base r.fb_size _ f.framebuffer s3 in
    let fits : ltb bitmap_size_max ((h + 63) / 64 % u32_mod) ≡ false =
      (let a = f.reach in let b = f.size in ground arith) in
    (_, rw fits refl, mark_page-IsSound h 0 _ f.nonempty s4, mark_page-first h _ f.nonempty s4)
