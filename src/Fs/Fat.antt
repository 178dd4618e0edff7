-- ===== src/Fs/Fat.antt =====
-- Kernel/fs/fat32.c: the volume, its sectors and the entries of its FAT. A sector is a function from
-- offsets to bytes. The drive behind AtaReadSectors and AtaWriteSectors is its contents and the
-- sectors it answers with an error. FAT12, FAT16 and FAT32 are all modelled.
pub mod Table
pub mod Update
pub mod Packing
pub mod Entries
pub mod Clusters
pub mod Names
pub mod Records
pub mod Files
pub mod Volume
pub mod Writing
pub mod Directory
pub mod Search
use vibecoded_os.Prelude.{
  ℕ, zero, suc, ◌+◌, ◌-◌, ◌*◌, ◌/◌, ◌%◌, ◌^◌, Bool, true, false, not, Option, none, some, ◌&&◌,
  ◌||◌, ltb, leb, ◌==◌, if◌then◌else◌, u8_mod, u16_mod, u32_mod, u64_mod,
}

-- `FatType`
pub data FatType : Type 0 where
  fat12 : FatType
  fat16 : FatType
  fat32 : FatType

-- `FatInfo`
pub record FatInfo : Type 0 where
  pub type : FatType
  pub bytes_per_sector : ℕ
  pub sectors_per_cluster : ℕ
  pub reserved_sectors : ℕ
  pub num_fats : ℕ
  pub root_entry_count : ℕ
  pub root_cluster : ℕ
  pub sectors_per_fat : ℕ
  pub total_sectors : ℕ
  pub data_start_sector : ℕ
  pub fat_start_sector : ℕ
  pub root_dir_sectors : ℕ
  pub root_dir_start_sector : ℕ
  pub partition_start_lba : ℕ

-- The bytes of a sector, by their offset: `g_sector_buf`.
abbrev pub Sector : Type 0
Sector = ℕ → ℕ

-- The drive: the bytes of each sector, and the sectors that it fails on.
pub record Disk : Type 0 where
  pub sector : ℕ → Sector
  pub bad : ℕ → Bool

-- `*(u16*)(buf + at)` and `*(u32*)(buf + at)`
abbrev pub read16 : Sector → ℕ → ℕ
read16 buf at = buf at + buf (at + 1) * 2 ^ 8

abbrev pub read32 : Sector → ℕ → ℕ
read32 buf at = buf at + buf (at + 1) * 2 ^ 8 + buf (at + 2) * 2 ^ 16 + buf (at + 3) * 2 ^ 24

-- `buf[at] = v`, and the stores of a u16 and of a u32
abbrev pub write8 : Sector → (at v : ℕ) → Sector
write8 buf at v = λ i. if i == at then v else buf i

abbrev pub write16 : Sector → (at v : ℕ) → Sector
write16 buf at v =
    λ i. if i == at then v % 2 ^ 8 else if i == at + 1 then v / 2 ^ 8 % 2 ^ 8 else buf i

abbrev pub write32 : Sector → (at v : ℕ) → Sector
write32 buf at v = λ i.
    if i == at
    then v % 2 ^ 8
    else if i == at + 1
    then v / 2 ^ 8 % 2 ^ 8
    else if i == at + 2
    then v / 2 ^ 16 % 2 ^ 8
    else if i == at + 3
    then v / 2 ^ 24 % 2 ^ 8
    else buf i

-- `u64 lba = g_fat.partition_start_lba + sector;`
abbrev pub lba_of : FatInfo → ℕ → ℕ
lba_of g sec = (g.partition_start_lba + sec) % u64_mod

-- `FatReadSector`: `none` is an error of the drive.
unfoldable pub read_sector : FatInfo → ℕ → Disk → Option Sector
read_sector g sec d = if d.bad (lba_of g sec) then none else some (d.sector (lba_of g sec))

-- `FatWriteSector`: the drive after it, and whether it succeeded.
unfoldable pub write_sector : FatInfo → ℕ → Sector → Disk → Disk × Bool
write_sector g sec buf d =
    if d.bad (lba_of g sec)
    then (d, false)
    else (record d { sector = λ n. if n == lba_of g sec then buf else d.sector n }, true)

-- The byte offset of an entry in the FAT: `cluster * 4`, `cluster * 2` and `cluster * 3 / 2`.
abbrev pub entry_at : FatType → ℕ → ℕ
entry_at fat12 c = c * 3 % u32_mod / 2
entry_at fat16 c = c * 2 % u32_mod
entry_at fat32 c = c * 4 % u32_mod

-- `0xFFFFFFFF`, the answer of `FatGetFatEntry` on an error of the drive
abbrev pub no_entry : ℕ
no_entry = 0xffffffff

-- `cluster & 1` chooses the half of the three bytes that two entries share.
abbrev pub unpack12 : (cluster val : ℕ) → ℕ
unpack12 c val = if c % 2 == 1 then val / 2 ^ 4 else val % 2 ^ 12

-- The end of `FatGetFatEntry` for each type, on the sector `buf` of the entry. A FAT12 entry at the
-- end of the sector has its second byte in the next one. There the code reads the 512 bytes of the next
-- sector into `b1_buf`, which has two: the model has the value that is computed from the first of them,
-- and not what the other 510 do to the stack.
unfoldable pub decode_entry : FatInfo → FatType → (cluster sec at : ℕ) → Sector → Disk → ℕ
decode_entry g fat12 c sec at buf d =
    if at == g.bytes_per_sector - 1
    then elim (read_sector g ((sec + 1) % u32_mod) d) [
      | none ↦ no_entry
      | some next ↦ unpack12 c (buf at + next 0 * 2 ^ 8)
    ]
    else unpack12 c (read16 buf at)
decode_entry g fat16 c sec at buf d = read16 buf at
decode_entry g fat32 c sec at buf d = read32 buf at % 2 ^ 28

-- `FatGetFatEntry`
unfoldable pub get_fat_entry : FatInfo → Disk → ℕ → ℕ
get_fat_entry g d c =
    let at = entry_at g.type c in
    let sec = (g.fat_start_sector + at / g.bytes_per_sector) % u32_mod in
    elim (read_sector g sec d) [
      | none ↦ no_entry
      | some buf ↦ decode_entry g g.type c sec (at % g.bytes_per_sector) buf d
    ]

-- `FatEofMarker`; `FatNextCluster` compares with the same numbers.
unfoldable pub eof_marker : FatInfo → ℕ
eof_marker g = elim g.type [ fat12 ↦ 0xff8 | fat16 ↦ 0xfff8 | fat32 ↦ 0xffffff8 ]

-- `FatNextCluster`: 0 is the end of the chain.
unfoldable pub next_cluster : FatInfo → Disk → ℕ → ℕ
next_cluster g d c = let next = get_fat_entry g d c in if leb (eof_marker g) next then 0 else next

-- `FatClusterToSector`
unfoldable pub cluster_to_sector : FatInfo → ℕ → ℕ
cluster_to_sector g c =
    (g.data_start_sector + (c + u32_mod - 2) % u32_mod * g.sectors_per_cluster) % u32_mod

-- The new low and high byte of a FAT12 entry, `b0` and `b1`; the code has the same on a u16.
abbrev pub low12 : (cluster value b0 : ℕ) → ℕ
low12 c v b0 = if c % 2 == 1 then b0 % 2 ^ 4 + v % 2 ^ 4 * 2 ^ 4 else v % 2 ^ 8

abbrev pub high12 : (cluster value b1 : ℕ) → ℕ
high12 c v b1 = if c % 2 == 1 then v / 2 ^ 4 % 2 ^ 8 else b1 / 2 ^ 4 * 2 ^ 4 + v / 2 ^ 8 % 2 ^ 4

-- The u16 with a FAT12 entry in it: `(val & 0x000F) | (value << 4)` and
-- `(val & 0xF000) | (value & 0x0FFF)`.
abbrev pub pack12 : (cluster value val : ℕ) → ℕ
pack12 c v val =
    if c % 2 == 1 then val % 2 ^ 4 + v * 2 ^ 4 % 2 ^ 16 else val / 2 ^ 12 * 2 ^ 12 + v % 2 ^ 12

-- The FAT12 entry at the end of a sector: two sectors are written, the second in `next_buf`.
unfoldable pub set_split : FatInfo → (cluster value sec at : ℕ) → Sector → Disk → Disk × Bool
set_split g c v sec at buf d = elim (read_sector g ((sec + 1) % u32_mod) d) [
  | none ↦ (d, false)
  | some next ↦
      let first = write_sector g sec (write8 buf at (low12 c v (buf at))) d in
      if first.1
      then write_sector g ((sec + 1) % u32_mod) (write8 next 0 (high12 c v (next 0))) first.0
      else first
]

-- The edit of the sector `buf` of the entry, for each type.
unfoldable pub edit_copy :
    FatInfo → FatType → (cluster value sec at : ℕ) → Sector → Disk → Disk × Bool
edit_copy g fat12 c v sec at buf d =
    if at == g.bytes_per_sector - 1
    then set_split g c v sec at buf d
    else write_sector g sec (write16 buf at (pack12 c v (read16 buf at))) d
edit_copy g fat16 c v sec at buf d = write_sector g sec (write16 buf at v) d
edit_copy g fat32 c v sec at buf d =
    write_sector g sec (write32 buf at (read32 buf at / 2 ^ 28 * 2 ^ 28 + v % 2 ^ 28)) d

-- One round of the loops of `FatSetFatEntry`: the entry in the copy whose sector is `sec`.
unfoldable pub set_copy : FatInfo → (cluster value sec at : ℕ) → Disk → Disk × Bool
set_copy g c v sec at d = elim (read_sector g sec d) [
  | none ↦ (d, false)
  | some buf ↦ edit_copy g g.type c v sec at buf d
]

-- `for (fat_num = 0; fat_num < g_fat.num_fats; fat_num++)`, with `n` copies left
unfoldable pub set_copies : (n : ℕ) → FatInfo → (cluster value fat_num : ℕ) → Disk → Disk × Bool
set_copies zero g c v k d = (d, true)
set_copies (suc n) g c v k d =
    let at = entry_at g.type c in
    let sec = (g.fat_start_sector + k * g.sectors_per_fat + at / g.bytes_per_sector) % u32_mod in
    let (d', ok) = set_copy g c v sec (at % g.bytes_per_sector) d in
    let rest = set_copies n g c v (k + 1) d' in if ok then rest else (d', false)

-- `FatSetFatEntry` of an initialized volume: the drive after it, and whether it succeeded.
unfoldable pub set_fat_entry : FatInfo → (cluster value : ℕ) → Disk → Disk × Bool
set_fat_entry g c v d = if ltb c 2 then (d, false) else set_copies g.num_fats g c v 0 d
