-- ===== src/Fs/Fat/Volume.antt =====
-- Kernel/fs/fat32.c: how Fat32Init finds the partition, behind an MBR or a GPT, and what it reads from
-- its boot sector. The output of KdPrintf is left out, and KmAlloc of the buffers succeeds.
pub mod Geometry
use vibecoded_os.Prelude.{
  ℕ, zero, suc, ◌+◌, ◌-◌, ◌*◌, ◌/◌, ◌%◌, ◌^◌, Bool, true, false, not, Option, none, some, List, [],
  ◌∷◌, ◌&&◌, ◌||◌, ltb, leb, ◌==◌, if◌then◌else◌, u32_mod, u64_mod,
}
use vibecoded_os.Fs.Fat.{
  FatType, fat12, fat16, fat32, FatInfo, Sector, Disk, read16, read32, get_fat_entry,
}
use vibecoded_os.Fs.Fat.Clusters.{first_allocation, max_cluster}

-- `AtaReadSectors(lba, 1, buf)`
abbrev pub ata_read : Disk → ℕ → Option Sector
ata_read d lba = if d.bad lba then none else some (d.sector lba)

abbrev pub read64 : Sector → ℕ → ℕ
read64 buf at = read32 buf at + read32 buf (at + 4) * 2 ^ 32

-- `sector[510] == 0x55 && sector[511] == 0xAA`
abbrev pub has_signature : Sector → Bool
has_signature buf = buf 510 == 0x55 && buf 511 == 0xaa

-- `FatIsMbr`, with `n` entries left from the offset `at` on
unfoldable pub is_mbr_loop : (n at : ℕ) → Sector → Bool
is_mbr_loop zero at sector = false
is_mbr_loop (suc n) at sector =
    let rest = is_mbr_loop n (at + 16) sector in
    if (sector at == 0 || sector at == 0x80) && not (sector (at + 4) == 0) then true else rest

unfoldable pub is_mbr : Sector → Bool
is_mbr sector = is_mbr_loop 4 0x1be sector

-- Where the partition is: at a sector, or in a GPT.
pub data Place : Type 0 where
  at_lba : ℕ → Place
  in_gpt : Place

-- The loop of `Fat32Init` over the partition table of an MBR; `start` is the value so far.
unfoldable pub scan_mbr : (n at start : ℕ) → Sector → Place
scan_mbr zero at start buf = at_lba start
scan_mbr (suc n) at start buf =
    let type = buf (at + 4) in
    let lba = read32 buf (at + 8) in
    let rest = scan_mbr n (at + 16) start buf in
    if type == 0xee then in_gpt else if not (type == 0) && not (lba == 0) then at_lba lba else rest

-- `basic_data_guid`
abbrev pub basic_data_guid : List ℕ
basic_data_guid =
    0xa2 ∷ 0xa0 ∷ 0xd0 ∷ 0xeb ∷ 0xe5 ∷ 0xb9 ∷ 0x33 ∷ 0x44 ∷ 0x87 ∷ 0xc0 ∷ 0x68 ∷ 0xb6 ∷ 0xb7 ∷ 0x26
    ∷ 0x99 ∷ 0xc7 ∷ []

-- The loop that compares the GUID of an entry
unfoldable pub matches : (guid : List ℕ) (at : ℕ) → Sector → Bool
matches [] at buf = true
matches (b ∷ bs) at buf = let rest = matches bs (at + 1) buf in if buf at == b then rest else false

-- `check_spf`, and `sectors_per_fat` of `Fat32Init`
abbrev pub fat_sectors : Sector → ℕ
fat_sectors buf = if read16 buf 22 == 0 then read32 buf 36 else read16 buf 22

-- The test of the boot sector of a candidate
unfoldable pub looks_like_fat : Sector → Bool
looks_like_fat buf =
    read16 buf 510 == 0xaa55
    && ltb 0 (buf 16)
    && ltb 0 (fat_sectors buf)
    && (read16 buf 11 == 512 || read16 buf 11 == 2048 || read16 buf 11 == 4096)

-- The body of the loop for an entry at `at` of `buf`: the partition, where it is one of FAT.
unfoldable pub gpt_candidate : (at : ℕ) → Sector → Disk → Option ℕ
gpt_candidate at buf d =
    let lba = read64 buf (at + 32) in
    if matches basic_data_guid at buf && not (lba == 0)
    then elim (ata_read d lba) [
      | none ↦ none
      | some vbr ↦ if looks_like_fat vbr then some lba else none
    ]
    else none

-- `for (e = 0; e < num_entries; e++)` with `n` entries left, `per` of them in a sector; `buf` is
-- `entry_buf`.
unfoldable pub scan_gpt : (n e per size entry_lba : ℕ) → Sector → Disk → Option ℕ
scan_gpt zero e per size lba buf d = none
scan_gpt (suc n) e per size lba buf d =
    let fresh = if e % per == 0 then ata_read d ((lba + e / per) % u64_mod) else some buf in
    elim fresh [
      | none ↦ none
      | some buf' ↦
          let rest = scan_gpt n (e + 1) per size lba buf' d in
          elim (gpt_candidate (e % per * size) buf' d) [ some found ↦ some found | none ↦ rest ]
    ]

-- The part of `Fat32Init` on a GPT; `uninit` is `entry_buf` before its first read.
unfoldable pub find_gpt : (uninit : Sector) → Disk → Option ℕ
find_gpt uninit d = elim (ata_read d 1) [
  | none ↦ none
  | some header ↦
      let size = read32 header 84 in
      if read64 header 0 == 0x5452415020494645
      then scan_gpt (read32 header 80) 0 (512 / size) size (read64 header 72) uninit d
      else none
]

-- The first sector of the partition, from the boot sector of the drive.
unfoldable pub find_partition : (uninit : Sector) (start : ℕ) → Disk → Option ℕ
find_partition uninit start d = elim (ata_read d 0) [
  | none ↦ none
  | some buf ↦
      if has_signature buf
      then (if is_mbr buf
          then elim (scan_mbr 4 0x1be start buf) [
            | at_lba lba ↦ some lba
            | in_gpt ↦ find_gpt uninit d
          ]
          else some start)
      else none
]

-- `sectors_per_cluster == 0 || (sectors_per_cluster & (sectors_per_cluster - 1)) != 0` is false:
-- the powers of two that a byte holds.
abbrev pub is_power : ℕ → Bool
is_power n = n == 1 || n == 2 || n == 4 || n == 8 || n == 16 || n == 32 || n == 64 || n == 128

-- `type` of a volume with that many clusters
abbrev pub type_of : (total_clusters : ℕ) → FatType
type_of n = if ltb n 4085 then fat12 else if ltb n 65525 then fat16 else fat32

abbrev pub is_fat32 : FatType → Bool
is_fat32 fat12 = false
is_fat32 fat16 = false
is_fat32 fat32 = true

-- The sizes in a boot sector: `total_sectors`, `root_dir_sectors`, `data_start`, `total_clusters`.
abbrev pub total_of : Sector → ℕ
total_of vbr = if read16 vbr 19 == 0 then read32 vbr 32 else read16 vbr 19

abbrev pub root_sectors : Sector → ℕ
root_sectors vbr = (read16 vbr 17 * 32 + (read16 vbr 11 - 1)) / read16 vbr 11

abbrev pub root_start : Sector → ℕ
root_start vbr = (read16 vbr 14 + vbr 16 * fat_sectors vbr) % u32_mod

abbrev pub data_start : Sector → ℕ
data_start vbr = (root_start vbr + root_sectors vbr) % u32_mod

abbrev pub total_clusters : Sector → ℕ
total_clusters vbr = (total_of vbr + u32_mod - data_start vbr) % u32_mod / vbr 13

-- `g_fat` from the boot sector of the partition
unfoldable pub info_of : (lba : ℕ) → Sector → FatInfo
info_of lba vbr =
    let type = type_of (total_clusters vbr) in
    record {
      type = type;
      bytes_per_sector = read16 vbr 11;
      sectors_per_cluster = vbr 13;
      reserved_sectors = read16 vbr 14;
      num_fats = vbr 16;
      root_entry_count = read16 vbr 17;
      root_cluster = if is_fat32 type then read32 vbr 44 else 0;
      sectors_per_fat = fat_sectors vbr;
      total_sectors = total_of vbr;
      data_start_sector = if is_fat32 type then root_start vbr else data_start vbr;
      fat_start_sector = read16 vbr 14;
      root_dir_sectors = root_sectors vbr;
      root_dir_start_sector = root_start vbr;
      partition_start_lba = lba;
    }

-- The checks of the boot sector of the partition; the second result is `total_clusters`.
unfoldable pub read_volume : (lba : ℕ) → Disk → Option (FatInfo × ℕ)
read_volume lba d = elim (ata_read d (lba % u64_mod)) [
  | none ↦ none
  | some vbr ↦
      if has_signature vbr && read16 vbr 11 == 512 && is_power (vbr 13)
      then some (info_of lba vbr, total_clusters vbr)
      else none
]

-- `Fat32Init`: the volume and `g_last_allocated_cluster`; `none` leaves it uninitialized.
unfoldable pub init : (uninit : Sector) (start : ℕ) → Disk → Option (FatInfo × ℕ)
init uninit start d = elim (find_partition uninit start d) [
  | none ↦ none
  | some lba ↦ elim (read_volume lba d) [
    | none ↦ none
    | some (g, total) ↦ some (g, first_allocation g total d)
  ]
]
