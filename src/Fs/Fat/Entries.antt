-- ===== src/Fs/Fat/Entries.antt =====
-- FatGetFatEntry and FatSetFatEntry of fat32.c together: the FAT as a map from clusters to entries.
use vibecoded_os.Prelude.{
  ℕ, zero, suc, ◌+◌, ◌-◌, ◌≢◌, ◌*◌, ◌/◌, ◌%◌, ◌≤◌, ◌<◌, ◌≡◌, refl, sym, ◌∙◌, Bool, true, false, ltb,
  ◌==◌, if◌then◌else◌, u32_mod, arith,
}
use vibecoded_os.Fs.Fat.{
  FatType, fat12, fat16, fat32, FatInfo, Disk, entry_at, get_fat_entry, set_copy, set_copies,
  set_fat_entry,
}
use vibecoded_os.Fs.Fat.Table.{
  IsVolume, IsHealthy, InFat, bytes_from, table_entry, table_set, entry_sector, entry_offset,
  read_sector-healthy, get_fat_entry_table,
}
use vibecoded_os.Fs.Fat.Packing.{entry_value, table_entry-table_set}
use vibecoded_os.Fs.Fat.Update.{IsEdited, edit_copy-IsEdited}

-- The entry of the cluster lies in one sector of the FAT.
abbrev pub IsWhole : FatInfo → ℕ → Type 0
IsWhole g c = g.type ≡ fat12 → entry_at fat12 c % g.bytes_per_sector ≢ g.bytes_per_sector - 1

-- What the loop over the `n` copies of the FAT from the first sector `lo` on delivers.
pub record IsSpread (g : FatInfo) (lo hi : ℕ) (d : Disk) (r : Disk × Bool) : Type 0 where
  pub done : r.1 ≡ true
  pub healthy : IsHealthy r.0
  pub below : (n i : ℕ) → n < g.partition_start_lba + lo → r.0.sector n i ≡ d.sector n i
  pub above : (n i : ℕ) → g.partition_start_lba + hi ≤ n → r.0.sector n i ≡ d.sector n i

module _ (g : FatInfo) (vol : IsVolume g) (c v : ℕ) (fits : InFat g c) where
  set_copy-IsEdited :
      (d : Disk)
      → IsHealthy d
      → (base : ℕ) → base + entry_at g.type c / 512 + 1 < u32_mod
      → IsEdited g g.type c v base d
          (set_copy g c v (base + entry_at g.type c / 512) (entry_at g.type c % 512) d)
  unfolding set_copy
  set_copy-IsEdited d ok base h =
      rw (set_copy, read_sector-healthy g vol d ok (base + entry_at g.type c / 512) (omega arith))
        (edit_copy-IsEdited g vol d ok c v base g.type h)

  set_copies-IsSpread :
      (n k : ℕ) (d : Disk)
      → IsHealthy d
      → g.fat_start_sector + (k + n) * g.sectors_per_fat < u32_mod
      → IsSpread g
          (g.fat_start_sector + k * g.sectors_per_fat)
          (g.fat_start_sector + (k + n) * g.sectors_per_fat)
          d
          (set_copies n g c v k d)
  unfolding set_copies
  set_copies-IsSpread zero k d ok h = record {
    done = refl;
    healthy = ok;
    below = λ n i h. refl;
    above = λ n i h. refl;
  }
  set_copies-IsSpread (suc n) k d ok h =
      let at = entry_at g.type c in
      let base = g.fat_start_sector + k * g.sectors_per_fat in
      let m : (k + suc n) * g.sectors_per_fat
          ≡ k * g.sectors_per_fat + g.sectors_per_fat + n * g.sectors_per_fat =
        omega arith in
      let room : base + at / 512 + 1 < u32_mod = omega (arith, fits.1) in
      let one = set_copy-IsEdited d ok base room in
      let d' = (set_copy g c v (base + at / 512) (at % 512) d).0 in
      let e : k + 1 + n ≡ k + suc n = omega arith in
      let h' : g.fat_start_sector + (k + 1 + n) * g.sectors_per_fat < u32_mod = rw e h in
      let rest : IsSpread g (g.fat_start_sector + (k + 1) * g.sectors_per_fat)
          (g.fat_start_sector + (k + suc n) * g.sectors_per_fat) d'
          (set_copies n g c v (k + 1) d') =
        rw (sym e) (set_copies-IsSpread n (k + 1) d' one.healthy h') in
      rw (entry_sector g vol base at room, entry_offset g vol at, one.done)
        (record {
          done = rest.done;
          healthy = rest.healthy;
          below = λ n i h.
              rest.below n i (omega (arith, h))
              ∙ one.others n i (λ e. omega (arith, e, h)) (λ e. omega (arith, e, h));
          above = λ n' i h.
              rest.above n' i h
              ∙ one.others n' i (λ e. omega (arith, e, h, m, fits.1))
                  (λ e. omega (arith, e, h, m, fits.1));
        })

  -- The first copy has the new entry.
  set_copies_first :
      (n : ℕ) (d : Disk)
      → IsHealthy d
      → 1 ≤ n
      → g.fat_start_sector + n * g.sectors_per_fat < u32_mod
      → (off : ℕ) → off < g.sectors_per_fat * 512
      → bytes_from g (set_copies n g c v 0 d).0 g.fat_start_sector off
        ≡ table_set g.type c v (bytes_from g d g.fat_start_sector) off
  unfolding set_copies
  set_copies_first zero d ok h h' off b = absurd (omega (arith, h))
  set_copies_first (suc n) d ok h h' off b =
      let at = entry_at g.type c in
      let z : g.fat_start_sector + 0 * g.sectors_per_fat ≡ g.fat_start_sector = omega arith in
      let o : 0 + 1 ≡ 1 = refl in
      let m : suc n * g.sectors_per_fat ≡ n * g.sectors_per_fat + g.sectors_per_fat = omega arith in
      let room : g.fat_start_sector + at / 512 + 1 < u32_mod = omega (arith, fits.1) in
      let one = set_copy-IsEdited d ok g.fat_start_sector room in
      let d' = (set_copy g c v (g.fat_start_sector + at / 512) (at % 512) d).0 in
      let e : 1 + n ≡ suc n = omega arith in
      let rest = set_copies-IsSpread n 1 d' one.healthy (rw e h') in
      rw (z, entry_sector g vol g.fat_start_sector at room, entry_offset g vol at, one.done)
        (rest.below (g.partition_start_lba + (g.fat_start_sector + off / 512)) (off % 512)
            (omega (arith, b))
          ∙ one.table off)

  -- All sectors outside the FAT are as before.
  pub set_fat_entry-IsSpread :
      (d : Disk)
      → IsHealthy d
      → 2 ≤ c
      → IsSpread g g.fat_start_sector
          (g.fat_start_sector + g.num_fats * g.sectors_per_fat)
          d
          (set_fat_entry g c v d)
  unfolding set_fat_entry
  set_fat_entry-IsSpread d ok h =
      let e : ltb c 2 ≡ false = ground arith in
      let o : 0 + g.num_fats ≡ g.num_fats = omega arith in
      let h' : g.fat_start_sector + (0 + g.num_fats) * g.sectors_per_fat < u32_mod =
        rw o vol.fats_fit in
      let r = set_copies-IsSpread g.num_fats 0 d ok h' in
      rw e (record {
        done = r.done;
        healthy = r.healthy;
        below = λ n i h. r.below n i (omega (arith, h));
        above = λ n i h. r.above n i (omega (arith, h));
      })

  pub set_fat_entry_table :
      (d : Disk)
      → IsHealthy d
      → 2 ≤ c
      → (off : ℕ) → off < g.sectors_per_fat * 512
      → bytes_from g (set_fat_entry g c v d).0 g.fat_start_sector off
        ≡ table_set g.type c v (bytes_from g d g.fat_start_sector) off
  unfolding set_fat_entry
  set_fat_entry_table d ok h off b =
      let e : ltb c 2 ≡ false = ground arith in
      rw e (set_copies_first g.num_fats d ok vol.copies vol.fats_fit off b)

le-product : (n s : ℕ) → 1 ≤ n → s ≤ n * s
le-product zero s h = absurd (omega (arith, h))
le-product (suc n) s h = omega arith

module _ (g : FatInfo) (vol : IsVolume g) (d : Disk) (ok : IsHealthy d) where
  entry_room : (c : ℕ) → InFat g c → g.fat_start_sector + entry_at g.type c / 512 + 1 < u32_mod
  entry_room c f =
      let p = le-product g.num_fats g.sectors_per_fat vol.copies in
      let r = vol.fats_fit in omega (arith, f.1, p, r)

  -- The entry of a cluster depends only on the bytes of the FAT.
  table_entry_ap :
      (t : FatType) (c : ℕ) (a b : ℕ → ℕ)
      → ((i : ℕ) → i < entry_at t c + 4 → a i ≡ b i)
      → table_entry t c a ≡ table_entry t c b
  unfolding table_entry
  table_entry_ap fat12 c a b e =
      rw (e (entry_at fat12 c) (omega arith), e (entry_at fat12 c + 1) (omega arith)) refl
  table_entry_ap fat16 c a b e =
      rw (e (entry_at fat16 c) (omega arith), e (entry_at fat16 c + 1) (omega arith)) refl
  table_entry_ap fat32 c a b e =
      let at = entry_at fat32 c in
      rw
        (
          e at (omega arith),
          e (at + 1) (omega arith),
          e (at + 2) (omega arith),
          e (at + 3) (omega arith),
        )
        refl

  -- The entries of the model after FatSetFatEntry, those at the end of a sector included.
  pub entry_after_set :
      (c c' v : ℕ)
      → 2 ≤ c
      → InFat g c
      → InFat g c'
      → ((set_fat_entry g c v d).1 ≡ true)
        × (get_fat_entry g (set_fat_entry g c v d).0 c'
            ≡ (if c' == c then entry_value g.type v else get_fat_entry g d c'))
  entry_after_set c c' v h f f' =
      let s = set_fat_entry-IsSpread g vol c v f d ok h in
      let d' = (set_fat_entry g c v d).0 in
      let new = get_fat_entry_table g vol d' s.healthy c' (entry_room c' f') in
      let old = get_fat_entry_table g vol d ok c' (entry_room c' f') in
      let same =
        table_entry_ap g.type c' (bytes_from g d' g.fat_start_sector)
          (table_set g.type c v (bytes_from g d g.fat_start_sector))
          (λ i b. set_fat_entry_table g vol c v f d ok h i (omega (arith, f'.1, b))) in
      let put =
        table_entry-table_set g.type (bytes_from g d g.fat_start_sector) c c' v (λ i. ok.bytes _ _)
          f.0 f'.0 in
      (s.done, rw (new, same, old) put)

  -- On a drive without errors FatSetFatEntry succeeds for a cluster of the volume; FatGetFatEntry
  -- then reads the stored value, cut to the width of the FAT's type, from that cluster, and from
  -- every other cluster what it read before. The entry that is read is no FAT12 entry across the end
  -- of a sector, on which FatGetFatEntry overruns an array; the one that is set may be such.
  pub get_fat_entry-set_fat_entry :
      (c c' v : ℕ)
      → 2 ≤ c
      → InFat g c
      → InFat g c'
      → IsWhole g c'
      → ((set_fat_entry g c v d).1 ≡ true)
        × (get_fat_entry g (set_fat_entry g c v d).0 c'
            ≡ (if c' == c then entry_value g.type v else get_fat_entry g d c'))
  get_fat_entry-set_fat_entry c c' v h f f' whole = entry_after_set c c' v h f f'

-- The entries depend only on the sectors of the first FAT.
pub get_fat_entry_ap :
    (g : FatInfo)
    → IsVolume g
    → (d d' : Disk) → IsHealthy d
    → IsHealthy d'
    → ((m i : ℕ)
        → m < g.partition_start_lba + (g.fat_start_sector + g.sectors_per_fat)
        → d'.sector m i ≡ d.sector m i)
    → (c : ℕ) → InFat g c
    → get_fat_entry g d' c ≡ get_fat_entry g d c
get_fat_entry_ap g vol d d' ok ok' same c f =
    let new = get_fat_entry_table g vol d' ok' c (entry_room g vol d ok c f) in
    let old = get_fat_entry_table g vol d ok c (entry_room g vol d ok c f) in
    new
    ∙ table_entry_ap g vol d ok g.type c (bytes_from g d' g.fat_start_sector)
        (bytes_from g d g.fat_start_sector) (λ i b. same _ _ (omega (arith, f.1, b)))
    ∙ sym old
