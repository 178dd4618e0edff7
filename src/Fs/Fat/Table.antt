-- ===== src/Fs/Fat/Table.antt =====
-- The FAT as one table of bytes, which the sectors of fat32.c hold in pieces of 512, and the entries
-- of FatGetFatEntry and FatSetFatEntry in that table.
use vibecoded_os.Prelude.{
  ℕ, ◌+◌, ◌-◌, ◌*◌, ◌/◌, ◌%◌, ◌^◌, ◌≤◌, ◌<◌, ◌≡◌, refl, sym, ap, ◌∙◌, Bool, true, false, some, ◌==◌,
  if◌then◌else◌, u32_mod, u64_mod, arith, Bool-cases, inl, inr,
}
use vibecoded_os.Fs.Fat.{
  FatType, fat12, fat16, fat32, FatInfo, Sector, Disk, read16, read32, write8, write16, write32,
  lba_of, read_sector, write_sector, entry_at, unpack12, decode_entry, get_fat_entry, low12, high12,
}

-- A volume as Fat32Init leaves it: sectors of 512 bytes, at least one FAT, and sector numbers that
-- do not wrap around.
pub record IsVolume (g : FatInfo) : Type 0 where
  pub sector_size : g.bytes_per_sector ≡ 512
  pub copies : 1 ≤ g.num_fats
  pub fats_fit : g.fat_start_sector + g.num_fats * g.sectors_per_fat < u32_mod
  pub lba_fits : g.partition_start_lba + u32_mod ≤ u64_mod

-- A drive that answers every request, with bytes.
pub record IsHealthy (d : Disk) : Type 0 where
  pub answers : (n : ℕ) → d.bad n ≡ false
  pub bytes : (n i : ℕ) → d.sector n i < 256

-- The entry of the cluster lies in the FAT.
abbrev pub InFat : FatInfo → ℕ → Type 0
InFat g c = (c * 4 < u32_mod) × (entry_at g.type c + 4 ≤ g.sectors_per_fat * 512)

-- The bytes of the volume from the sector `base` on.
abbrev pub bytes_from : FatInfo → Disk → (base : ℕ) → ℕ → ℕ
bytes_from g d base off = d.sector (g.partition_start_lba + (base + off / 512)) (off % 512)

-- The entry of a cluster in a table of bytes.
unfoldable pub table_entry : FatType → (cluster : ℕ) → (ℕ → ℕ) → ℕ
table_entry fat12 c t = unpack12 c (read16 t (entry_at fat12 c))
table_entry fat16 c t = read16 t (entry_at fat16 c)
table_entry fat32 c t = read32 t (entry_at fat32 c) % 2 ^ 28

-- The table with the entry of a cluster replaced.
unfoldable pub table_set : FatType → (cluster value : ℕ) → (ℕ → ℕ) → ℕ → ℕ
table_set fat12 c v t =
    let at = entry_at fat12 c in
    write8 (write8 t at (low12 c v (t at))) (at + 1) (high12 c v (t (at + 1)))
table_set fat16 c v t = write16 t (entry_at fat16 c) v
table_set fat32 c v t =
    let at = entry_at fat32 c in write32 t at (read32 t at / 2 ^ 28 * 2 ^ 28 + v % 2 ^ 28)

module _ (g : FatInfo) (vol : IsVolume g) where
  pub lba_plain : (s : ℕ) → s < u32_mod → lba_of g s ≡ g.partition_start_lba + s
  lba_plain s h = omega (arith, vol.lba_fits)

  pub read_sector-healthy :
      (d : Disk)
      → IsHealthy d
      → (s : ℕ) → s < u32_mod
      → read_sector g s d ≡ some (d.sector (g.partition_start_lba + s))
  unfolding read_sector
  read_sector-healthy d ok s h = rw (lba_plain s h, ok.answers (g.partition_start_lba + s)) refl

  pub write_sector-healthy :
      (d : Disk)
      → IsHealthy d
      → (s : ℕ) → s < u32_mod
      → (buf : Sector)
      → write_sector g s buf d ≡ (
        record d { sector = λ n. if n == g.partition_start_lba + s then buf else d.sector n },
        true,
      )
  unfolding write_sector
  write_sector-healthy d ok s h buf =
      rw (lba_plain s h, ok.answers (g.partition_start_lba + s)) refl

  -- Within a sector, the bytes of the table are the bytes of the sector.
  pub bytes_near :
      (d : Disk) (base at k : ℕ)
      → at % 512 + k < 512
      → d.sector (g.partition_start_lba + (base + at / 512)) (at % 512 + k)
        ≡ bytes_from g d base (at + k)
  bytes_near d base at k h =
      let q : (at + k) / 512 ≡ at / 512 = omega arith in
      let r : (at + k) % 512 ≡ at % 512 + k = omega arith in rw (q, r, bytes_from) refl

  -- The first byte of the next sector.
  pub bytes_next :
      (d : Disk) (base at : ℕ)
      → at % 512 ≡ 511
      → d.sector (g.partition_start_lba + (base + at / 512 + 1)) 0 ≡ bytes_from g d base (at + 1)
  bytes_next d base at h =
      let q : (at + 1) / 512 ≡ at / 512 + 1 = omega arith in
      let r : (at + 1) % 512 ≡ 0 = omega arith in
      let e : base + (at / 512 + 1) ≡ base + at / 512 + 1 = omega arith in
      rw (q, r, e, bytes_from) refl

  -- Whether the entry is at the end of the sector.
  pub at_end :
      (at : ℕ) (b : Bool) → (at % 512 == 511) ≡ b → (at % 512 == g.bytes_per_sector - 1) ≡ b
  at_end at b e = ap (λ k. at % 512 == k - 1) vol.sector_size ∙ e

  decode12_lem :
      (d : Disk)
      → IsHealthy d
      → (c base at : ℕ) → base + at / 512 + 1 < u32_mod
      → decode_entry g fat12 c
          (base + at / 512)
          (at % 512)
          (d.sector (g.partition_start_lba + (base + at / 512)))
          d
        ≡ unpack12 c (read16 (bytes_from g d base) at)
  unfolding decode_entry
  decode12_lem d ok c base at h =
      let n : (base + at / 512 + 1) % u32_mod ≡ base + at / 512 + 1 = omega arith in
      let s = read_sector-healthy d ok (base + at / 512 + 1) h in
      elim (Bool-cases (at % 512 == 511)) [
        | inl e ↦ rw (at_end at true e, n, s, sym (bytes_next d base at (ground (arith, e)))) refl
        | inr e ↦ rw (at_end at false e, sym (bytes_near d base at 1 (ground (arith, e)))) refl
      ]

  -- The entry in the sector that holds it, and the entry in the table.
  decode_entry_lem :
      (d : Disk)
      → IsHealthy d
      → (t : FatType) (c base : ℕ) → base + entry_at t c / 512 + 1 < u32_mod
      → decode_entry g t c
          (base + entry_at t c / 512)
          (entry_at t c % 512)
          (d.sector (g.partition_start_lba + (base + entry_at t c / 512)))
          d
        ≡ table_entry t c (bytes_from g d base)
  unfolding decode_entry table_entry
  decode_entry_lem d ok fat12 c base h = decode12_lem d ok c base (entry_at fat12 c) h
  decode_entry_lem d ok fat16 c base h =
      rw (sym (bytes_near d base (entry_at fat16 c) 1 (omega arith))) refl
  decode_entry_lem d ok fat32 c base h =
      let at = entry_at fat32 c in
      let e1 = bytes_near d base at 1 (omega arith) in
      let e2 = bytes_near d base at 2 (omega arith) in
      let e3 = bytes_near d base at 3 (omega arith) in rw (sym e1, sym e2, sym e3) refl

  -- The sector of an entry in the copy of the FAT that starts at `base`.
  pub entry_sector :
      (base at : ℕ)
      → base + at / 512 + 1 < u32_mod
      → (base + at / g.bytes_per_sector) % u32_mod ≡ base + at / 512
  entry_sector base at h =
      let n : (base + at / 512) % u32_mod ≡ base + at / 512 = omega arith in
      ap (λ b. (base + at / b) % u32_mod) vol.sector_size ∙ n

  pub entry_offset : (at : ℕ) → at % g.bytes_per_sector ≡ at % 512
  entry_offset at = ap (λ b. at % b) vol.sector_size

  pub get_fat_entry_table :
      (d : Disk)
      → IsHealthy d
      → (c : ℕ) → g.fat_start_sector + entry_at g.type c / 512 + 1 < u32_mod
      → get_fat_entry g d c ≡ table_entry g.type c (bytes_from g d g.fat_start_sector)
  unfolding get_fat_entry
  get_fat_entry_table d ok c hs =
      let at = entry_at g.type c in
      let sec = g.fat_start_sector + at / 512 in
      let e = entry_sector g.fat_start_sector at hs in
      let s = read_sector-healthy d ok sec (omega arith) in
      rw (get_fat_entry, e, s, e, entry_offset at)
        (decode_entry_lem d ok g.type c g.fat_start_sector hs)
