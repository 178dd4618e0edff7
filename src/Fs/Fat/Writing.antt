-- ===== src/Fs/Fat/Writing.antt =====
-- Kernel/fs/fat32.c: how Fat32WriteFile reserves the clusters of a file and writes its data, and how
-- directory entries are written and marked as free. The data is the list of its bytes.
pub mod Data
pub mod Chain
pub mod RoundTrip
pub mod Reserve
pub mod NewFile
use vibecoded_os.Prelude.{
  ℕ, zero, suc, ◌+◌, ◌-◌, ◌*◌, ◌/◌, ◌%◌, Bool, true, false, not, Option, none, some, List, [], ◌∷◌,
  ◌++◌, ◌&&◌, ◌||◌, ltb, leb, ◌==◌, if◌then◌else◌, get_or, min, length, take, drop, u32_mod,
}
use vibecoded_os.Fs.Fat.{
  FatInfo, Sector, Disk, read_sector, write_sector, write8, get_fat_entry, set_fat_entry,
  next_cluster, cluster_to_sector, eof_marker,
}
use vibecoded_os.Fs.Fat.Clusters.{Allocation, allocate_cluster, free_cluster_chain}
use vibecoded_os.Fs.Fat.Names.{lfn_entries}
use vibecoded_os.Fs.Fat.Records.{short_entry}

-- The state of the loop that reserves clusters: `first_cluster`, `prev_cluster`, and whether
-- `FatAllocateCluster` has failed.
pub record Reserved : Type 0 where
  pub first : ℕ
  pub prev : ℕ
  pub last : ℕ
  pub disk : Disk
  pub full : Bool

-- One round of it
unfoldable pub reserve_step : FatInfo → Reserved → Reserved
reserve_step g r =
    let a = allocate_cluster g r.last r.disk in
    if a.cluster == 0
    then record r { last = a.last; disk = a.disk; full = true }
    else if r.prev == 0
    then record { first = a.cluster; prev = a.cluster; last = a.last; disk = a.disk; full = false }
    else record {
      first = r.first;
      prev = a.cluster;
      last = a.last;
      disk = (set_fat_entry g r.prev a.cluster a.disk).0;
      full = false;
    }

-- `for (i = 0; i < clusters_needed; i++)` with `n` rounds left
unfoldable pub reserve_loop : (n : ℕ) → FatInfo → Reserved → Reserved
reserve_loop zero g r = r
reserve_loop (suc n) g r =
    let r' = reserve_step g r in let rest = reserve_loop n g r' in if r'.full then r' else rest

-- `clusters_needed`
abbrev pub clusters_needed : FatInfo → (size : ℕ) → ℕ
clusters_needed g size =
    let bytes = g.sectors_per_cluster * g.bytes_per_sector % u32_mod in
    (size + bytes + u32_mod - 1) % u32_mod / bytes

-- The sector with the first bytes of `src` and zeros behind them.
unfoldable pub padded : (src : List ℕ) → Sector
padded src = λ i. get_or src i 0

-- What the loop over the sectors of a cluster leaves: the drive, the data still to write, and
-- whether it succeeded.
pub record Written : Type 0 where
  pub disk : Disk
  pub left : List ℕ
  pub ok : Bool

-- The loop of `Fat32WriteFile` over the sectors of a cluster, `n` left from `sec` on
unfoldable pub write_cluster : (n : ℕ) → FatInfo → (sec : ℕ) → (src : List ℕ) → Disk → Written
write_cluster zero g sec src d = record { disk = d; left = src; ok = true }
write_cluster (suc n) g sec src d =
    let to_write = min (length src) g.bytes_per_sector in
    let (d', ok) = write_sector g sec (padded (take to_write src)) d in
    let rest = write_cluster n g ((sec + 1) % u32_mod) (drop to_write src) d' in
    if length src == 0
    then record { disk = d; left = src; ok = true }
    else if ok
    then rest
    else record { disk = d'; left = src; ok = false }

-- The loop over the clusters; `none` is no behaviour of the code. A failure of the drive ends it; the
-- caller then frees the chain.
unfoldable pub write_chain :
    (fuel : ℕ) → FatInfo → (cluster : ℕ) → (src : List ℕ) → Disk → Option Written
write_chain zero g c src d = none
write_chain (suc fuel) g c src d =
    let w = write_cluster g.sectors_per_cluster g (cluster_to_sector g c) src d in
    let rest = write_chain fuel g (next_cluster g w.disk c) w.left w.disk in
    if leb 2 c && ltb c (eof_marker g) && not (length src == 0)
    then (if w.ok then rest else some w)
    else some (record { disk = d; left = src; ok = true })

-- The data of a file on the drive, from its first cluster on, or why it is not; `out_of_fuel` is no
-- behaviour of the code.
pub data DataWritten : Type 0 where
  written : (first last : ℕ) → Disk → DataWritten
  disk_full : Option Disk → DataWritten
  drive_error : Option Disk → DataWritten
  out_of_fuel : DataWritten

-- The loops of `Fat32WriteFile` behind the reservation `r`; `fuel` bounds the rounds of each.
unfoldable pub write_reserved : (fuel : ℕ) → FatInfo → Reserved → (src : List ℕ) → DataWritten
write_reserved fuel g r src =
    if r.full
    then disk_full (if r.first == 0 then some r.disk else free_cluster_chain fuel g r.first r.disk)
    else elim (write_chain fuel g r.first src r.disk) [
      | none ↦ out_of_fuel
      | some w ↦
          if w.ok
          then written r.first r.last w.disk
          else drive_error (free_cluster_chain fuel g r.first w.disk)
    ]

-- `Fat32WriteFile`, its third step: the clusters for the data, and the data in them.
unfoldable pub write_data : (fuel : ℕ) → FatInfo → (last : ℕ) → (src : List ℕ) → Disk → DataWritten
write_data fuel g last src d =
    if length src == 0
    then written 0 last d
    else write_reserved fuel g
        (reserve_loop (clusters_needed g (length src)) g
          (record { first = 0; prev = 0; last = last; disk = d; full = false }))
        src

-- `RtMemCopy(g_sector_buf + cur_offset, entry_buf, 32)`
abbrev pub put_entry : (at : ℕ) → (entry : Sector) → Sector → Sector
put_entry at entry buf = λ i. if leb at i && ltb i (at + 32) then entry (i - at) else buf i

-- The loop of `FatWriteDirectoryEntries` over the entries: the drive, and whether it succeeded.
unfoldable pub write_entries :
    List Sector → FatInfo → (cur_sector cur_offset : ℕ) → Disk → Disk × Bool
write_entries [] g sec at d = (d, true)
write_entries (e ∷ es) g sec at d = elim (read_sector g sec d) [
  | none ↦ (d, false)
  | some buf ↦
      let (d', ok) = write_sector g sec (put_entry at e buf) d in
      let same = write_entries es g sec (at + 32) d' in
      let next = write_entries es g ((sec + 1) % u32_mod) 0 d' in
      if ok then (if leb g.bytes_per_sector (at + 32) then next else same) else (d', false)
]

-- The entries of `FatWriteDirectoryEntries`: those of the long name where there are any, then the
-- short one.
unfoldable pub new_entries :
    FatInfo
    → (long : Option (List ℕ)) → (checksum : ℕ) → (short : Sector) → (attr first_cluster size : ℕ)
    → List Sector
new_entries g none sum short attr c size = short_entry g.type short attr c size ∷ []
new_entries g (some name) sum short attr c size =
    lfn_entries name sum ++ (short_entry g.type short attr c size ∷ [])

-- `g_sector_buf[offset] = 0xE5` on the sector in the drive, as `Fat32DeleteFile` does it
unfoldable pub mark_free : FatInfo → (sec at : ℕ) → Disk → Disk × Bool
mark_free g sec at d = elim (read_sector g sec d) [
  | none ↦ (d, false)
  | some buf ↦ write_sector g sec (write8 buf at 0xe5) d
]

-- The loop of `Fat32DeleteFile` from the first entry of the long name to the short entry; `none` is
-- no behaviour of the code.
unfoldable pub mark_free_loop :
    (fuel : ℕ)
    → FatInfo
    → (cur_sec cur_off entry_sector entry_offset : ℕ) → Disk
    → Option (Disk × Bool)
mark_free_loop zero g sec at esec eat d = none
mark_free_loop (suc fuel) g sec at esec eat d =
    let (d', ok) = mark_free g sec at d in
    let same = mark_free_loop fuel g sec (at + 32) esec eat d' in
    let next = mark_free_loop fuel g ((sec + 1) % u32_mod) 0 esec eat d' in
    if ok && not (sec == esec && at == eat)
    then (if leb g.bytes_per_sector (at + 32) then next else same)
    else some (d', ok)
