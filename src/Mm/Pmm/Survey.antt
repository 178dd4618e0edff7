-- ===== src/Mm/Pmm/Survey.antt =====
-- The first pass of PmmInit over the memory map finds a page past every usable region.
use vibecoded_os.Prelude.{
  ℕ, ◌+◌, ◌*◌, ◌/◌, ◌≤◌, ◌<◌, ◌≡◌, true, List, [], ◌∷◌, arith, if◌then◌else◌, u64_mod, ltb, add64,
  mul64,
}
use vibecoded_os.Mm.Pmm.{Desc, usable, survey, page_size}

-- The usable regions end at or below the last page, and their ends do not wrap.
abbrev pub AllBelow : ℕ → List Desc → Type 0
AllBelow h [] = Unit {0}
AllBelow h (d ∷ ds) = (usable d ≡ true → d.phys_start / page_size + d.num_pages ≤ h) × AllBelow h ds

-- The end of a usable region, where it does not wrap, is at most the first result of the survey.
survey-le : (ds : List Desc) (m t : ℕ) → m ≤ (survey ds m t).0
unfolding survey
survey-le [] m t = omega arith
survey-le (d ∷ ds) m t =
    let end = add64 d.phys_start (mul64 d.num_pages page_size) in
    let m' = if usable d then (if ltb m end then end else m) else m in
    let t' = if usable d then add64 t d.num_pages else t in
    let h : m ≤ m' = ground arith in omega (arith, survey-le ds m' t')

-- No usable region wraps round the address space.
abbrev pub NoWrap : List Desc → Type 0
NoWrap [] = Unit {0}
NoWrap (d ∷ ds) = (usable d ≡ true → d.phys_start + d.num_pages * page_size < u64_mod) × NoWrap ds

pub survey-AllBelow :
    (ds : List Desc) (m t : ℕ) → NoWrap ds → AllBelow ((survey ds m t).0 / page_size) ds
unfolding survey
survey-AllBelow [] m t w = tt
survey-AllBelow (d ∷ ds) m t w =
    let end = add64 d.phys_start (mul64 d.num_pages page_size) in
    let m' = if usable d then (if ltb m end then end else m) else m in
    let t' = if usable d then add64 t d.num_pages else t in
    (
      λ u.
          let le : end ≤ m' = ground arith in
          let le' = survey-le ds m' t' in let nw = w.0 u in omega arith,
      survey-AllBelow ds m' t' w.1,
    )
