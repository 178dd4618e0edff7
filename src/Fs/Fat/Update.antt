-- ===== src/Fs/Fat/Update.antt =====
-- What FatSetFatEntry of fat32.c leaves in the table of one copy of the FAT.
use vibecoded_os.Prelude.{
  ℕ, ◌+◌, ◌*◌, ◌/◌, ◌%◌, ◌^◌, ◌<◌, ◌≡◌, ◌≢◌, refl, sym, ap, ◌∙◌, Bool, true, false, ◌==◌,
  if◌then◌else◌, u32_mod, arith, Bool-cases, inl, inr,
}
use vibecoded_os.Fs.Fat.{
  FatType, fat12, fat16, fat32, FatInfo, Sector, Disk, read16, write8, write16, write32,
  write_sector, entry_at, low12, high12, pack12, set_split, edit_copy,
}
use vibecoded_os.Fs.Fat.Table.{
  IsVolume, IsHealthy, bytes_from, table_set, bytes_near, bytes_next, at_end, write_sector-healthy,
  read_sector-healthy,
}

-- What an edit of the entry of cluster `c` in the copy at `base` delivers.
pub record IsEdited (g : FatInfo) (t : FatType) (c v base : ℕ) (d : Disk) (r : Disk × Bool)
    : Type 0 where
  pub done : r.1 ≡ true
  pub healthy : IsHealthy r.0
  pub table : (off : ℕ) → bytes_from g r.0 base off ≡ table_set t c v (bytes_from g d base) off
  pub others :
      (n i : ℕ)
      → n ≢ g.partition_start_lba + (base + entry_at t c / 512)
      → n ≢ g.partition_start_lba + (base + (entry_at t c + 3) / 512)
      → r.0.sector n i ≡ d.sector n i

-- The drive after a write of the sector `s`.
abbrev replaced : Disk → (s : ℕ) → Sector → Disk
replaced d s buf = record d { sector = λ n. if n == s then buf else d.sector n }

abbrev sector_of : FatInfo → (base at : ℕ) → ℕ
sector_of g base at = g.partition_start_lba + (base + at / 512)

-- The two writes of an entry that lies in two sectors.
abbrev split_drive : FatInfo → Disk → (base at b0 b1 : ℕ) → Disk
split_drive g d base at b0 b1 =
    let s = sector_of g base at in
    let first = replaced d s (write8 (d.sector s) (at % 512) b0) in
    replaced first (g.partition_start_lba + (base + at / 512 + 1))
      (write8 (d.sector (g.partition_start_lba + (base + at / 512 + 1))) 0 b1)

module _ (g : FatInfo) (d : Disk) (base at : ℕ) where
  replaced_table :
      (buf : Sector) (off : ℕ)
      → bytes_from g (replaced d (sector_of g base at) buf) base off
        ≡ (if off / 512 == at / 512 then buf (off % 512) else bytes_from g d base off)
  replaced_table buf off = ground arith

  write32_table :
      (v off : ℕ)
      → at % 512 + 3 < 512
      → bytes_from g
          (replaced d (sector_of g base at) (write32 (d.sector (sector_of g base at)) (at % 512) v))
          base
          off
        ≡ write32 (bytes_from g d base) at v off
  write32_table v off h = elim (Bool-cases (off / 512 == at / 512)) [
    | inl e ↦
        let q : off / 512 ≡ at / 512 = ground (arith, e) in
        rw
          (
            replaced_table (write32 (d.sector (sector_of g base at)) (at % 512) v) off,
            bytes_from,
            q,
          )
          (ground (arith, q))
    | inr e ↦
        rw (replaced_table (write32 (d.sector (sector_of g base at)) (at % 512) v) off, e)
          (ground (arith, e))
  ]

  write16_table :
      (v off : ℕ)
      → at % 512 + 1 < 512
      → bytes_from g
          (replaced d (sector_of g base at) (write16 (d.sector (sector_of g base at)) (at % 512) v))
          base
          off
        ≡ write16 (bytes_from g d base) at v off
  write16_table v off h = elim (Bool-cases (off / 512 == at / 512)) [
    | inl e ↦
        let q : off / 512 ≡ at / 512 = ground (arith, e) in
        rw
          (
            replaced_table (write16 (d.sector (sector_of g base at)) (at % 512) v) off,
            bytes_from,
            q,
          )
          (ground (arith, q))
    | inr e ↦
        rw (replaced_table (write16 (d.sector (sector_of g base at)) (at % 512) v) off, e)
          (ground (arith, e))
  ]

  split_table :
      (b0 b1 off : ℕ)
      → at % 512 ≡ 511
      → bytes_from g (split_drive g d base at b0 b1) base off
        ≡ write8 (write8 (bytes_from g d base) at b0) (at + 1) b1 off
  split_table b0 b1 off h = elim (Bool-cases (off / 512 == at / 512)) [
    | inl e ↦
        let q : off / 512 ≡ at / 512 = ground (arith, e) in
        rw (bytes_from, q) (ground (arith, q, h))
    | inr e ↦ elim (Bool-cases (off / 512 == at / 512 + 1)) [
      | inl f ↦
          let q : off / 512 ≡ at / 512 + 1 = ground (arith, f) in
          let z : base + (at / 512 + 1) ≡ base + at / 512 + 1 = omega arith in
          rw (bytes_from, q, z) (ground (arith, q, h))
      | inr f ↦ ground (arith, e, f, h)
    ]
  ]

module _ (d : Disk) (ok : IsHealthy d) where
  replaced-IsHealthy :
      (s : ℕ) (buf : Sector) → ((i : ℕ) → buf i < 256) → IsHealthy (replaced d s buf)
  replaced-IsHealthy s buf h = record {
    answers = ok.answers;
    bytes = λ n i. ground (arith, h i, ok.bytes n i);
  }

  write8-byte : (s at v i : ℕ) → v < 256 → write8 (d.sector s) at v i < 256
  write8-byte s at v i h = ground (arith, ok.bytes s i)

  write16-byte : (s at v i : ℕ) → write16 (d.sector s) at v i < 256
  write16-byte s at v i = ground (arith, ok.bytes s i)

  write32-byte : (s at v i : ℕ) → write32 (d.sector s) at v i < 256
  write32-byte s at v i = ground (arith, ok.bytes s i)

pack12_low : (c v b0 b1 : ℕ) → b0 < 256 → pack12 c v (b0 + b1 * 2 ^ 8) % 2 ^ 8 ≡ low12 c v b0
pack12_low c v b0 b1 h = ground arith

pack12_high :
    (c v b0 b1 : ℕ)
    → b0 < 256
    → b1 < 256
    → pack12 c v (b0 + b1 * 2 ^ 8) / 2 ^ 8 % 2 ^ 8 ≡ high12 c v b1
pack12_high c v b0 b1 h0 h1 = ground arith

write16_pair :
    (t : Sector) (at val : ℕ) {lo hi : ℕ}
    → val % 2 ^ 8 ≡ lo
    → val / 2 ^ 8 % 2 ^ 8 ≡ hi
    → (off : ℕ) → write16 t at val off ≡ write8 (write8 t at lo) (at + 1) hi off
write16_pair t at val e f off = ground (arith, e, f)

low12_byte : (c v b0 : ℕ) → low12 c v b0 < 256
low12_byte c v b0 = ground arith

high12_byte : (c v b1 : ℕ) → b1 < 256 → high12 c v b1 < 256
high12_byte c v b1 h = ground arith

module _ (g : FatInfo) (vol : IsVolume g) (d : Disk) (ok : IsHealthy d) (c v base : ℕ) where
  -- An edit of one sector.
  one_sector :
      (t : FatType) (buf : Sector)
      → ((i : ℕ) → buf i < 256)
      → (let s = base + entry_at t c / 512 in
          let s' = g.partition_start_lba + s in
          s + 1 < u32_mod
          → ((off : ℕ)
              → bytes_from g (replaced d s' buf) base off
                ≡ table_set t c v (bytes_from g d base) off)
          → IsEdited g t c v base d (write_sector g s buf d))
  one_sector t buf hb hs table =
      let s = base + entry_at t c / 512 in
      rw (write_sector-healthy g vol d ok s (omega arith) buf) (record {
        done = refl;
        healthy = replaced-IsHealthy d ok (g.partition_start_lba + s) buf hb;
        table = table;
        others = λ n i h h'. ground (arith, h);
      })

  set_split_lem :
      (let at = entry_at fat12 c in
        let s = base + at / 512 in
        s + 1 < u32_mod
        → at % 512 ≡ 511
        → IsEdited g fat12 c v base d
            (set_split g c v s (at % 512) (d.sector (g.partition_start_lba + s)) d))
  unfolding set_split table_set
  set_split_lem h e =
      let at = entry_at fat12 c in
      let s = base + at / 512 in
      let n : (s + 1) % u32_mod ≡ s + 1 = omega arith in
      let buf = d.sector (g.partition_start_lba + s) in
      let next = d.sector (g.partition_start_lba + (s + 1)) in
      let b0 = low12 c v (buf (at % 512)) in
      let b1 = high12 c v (next 0) in
      let buf0 = write8 buf (at % 512) b0 in
      let s1 = g.partition_start_lba + (s + 1) in
      let d1 = replaced d (g.partition_start_lba + s) buf0 in
      let ok1 : IsHealthy d1 =
        replaced-IsHealthy d ok (g.partition_start_lba + s) buf0
          (λ i. write8-byte d ok _ (at % 512) b0 i (low12_byte c v (buf (at % 512)))) in
      let ok2 : IsHealthy (split_drive g d base at b0 b1) =
        replaced-IsHealthy d1 ok1 s1 (write8 next 0 b1)
          (λ i. write8-byte d ok s1 0 b1 i (high12_byte c v (next 0) (ok.bytes s1 0))) in
      let q = bytes_next g vol d base at e in
      rw (set_split, n, read_sector-healthy g vol d ok (s + 1) h)
        (rw (write_sector-healthy g vol d ok s (omega arith) buf0) (
          rw (n, write_sector-healthy g vol d1 ok1 (s + 1) h (write8 next 0 b1))
            (record {
              done = refl;
              healthy = ok2;
              table = λ off. rw (sym q) (split_table g d base at b0 b1 off e);
              others = λ k i h h'. ground (arith, h, h', e);
            })))

  set_joint_lem :
      (let at = entry_at fat12 c in
        let s = base + at / 512 in
        let buf = d.sector (g.partition_start_lba + s) in
        s + 1 < u32_mod
        → at % 512 + 1 < 512
        → IsEdited g fat12 c v base d
            (write_sector g s (write16 buf (at % 512) (pack12 c v (read16 buf (at % 512)))) d))
  unfolding table_set
  set_joint_lem h e =
      let at = entry_at fat12 c in
      let s = g.partition_start_lba + (base + at / 512) in
      let b0 = d.sector s (at % 512) in
      let b1 = d.sector s (at % 512 + 1) in
      let val = pack12 c v (b0 + b1 * 2 ^ 8) in
      let lo = pack12_low c v b0 b1 (ok.bytes s _) in
      let hi = pack12_high c v b0 b1 (ok.bytes s _) (ok.bytes s _) in
      let near = bytes_near g vol d base at 1 e in
      one_sector fat12 _ (λ i. write16-byte d ok s (at % 512) val i) h
        (λ off.
          write16_table g d base at val off e
          ∙ write16_pair (bytes_from g d base) at val lo (hi ∙ ap (high12 c v) near) off)

  pub edit_copy-IsEdited :
      (t : FatType)
      → base + entry_at t c / 512 + 1 < u32_mod
      → IsEdited g t c v base d (
          edit_copy g t c v
            (base + entry_at t c / 512)
            (entry_at t c % 512)
            (d.sector (g.partition_start_lba + (base + entry_at t c / 512)))
            d)
  unfolding edit_copy table_set
  edit_copy-IsEdited fat12 h =
      let at = entry_at fat12 c in
      elim (Bool-cases (at % 512 == 511)) [
        | inl e ↦ rw (at_end g vol at true e) (set_split_lem h (ground (arith, e)))
        | inr e ↦ rw (at_end g vol at false e) (set_joint_lem h (ground (arith, e)))
      ]
  edit_copy-IsEdited fat16 h =
      one_sector fat16 _ (λ i. write16-byte d ok _ _ v i) h
        (λ off. write16_table g d base (entry_at fat16 c) v off (omega arith))
  edit_copy-IsEdited fat32 h =
      let at = entry_at fat32 c in
      let e1 = bytes_near g vol d base at 1 (omega arith) in
      let e2 = bytes_near g vol d base at 2 (omega arith) in
      let e3 = bytes_near g vol d base at 3 (omega arith) in
      rw (e1, e2, e3)
        (one_sector fat32 _ (λ i. write32-byte d ok _ _ _ i) h
          (λ off. write32_table g d base at _ off (omega arith)))
