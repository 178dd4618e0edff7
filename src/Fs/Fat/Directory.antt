-- ===== src/Fs/Fat/Directory.antt =====
-- Kernel/fs/fat32.c: free entries of a directory, a further cluster for a full one, and the entry of a
-- new file, the fourth step of Fat32WriteFile.
pub mod Groups
pub mod Sectors
pub mod FreeSlots
use vibecoded_os.Prelude.{
  ℕ, zero, suc, ◌+◌, ◌-◌, ◌*◌, ◌/◌, ◌%◌, ◌^◌, Bool, true, false, not, Option, none, some, List, [],
  ◌∷◌, ◌++◌, ◌&&◌, ◌||◌, ltb, leb, ◌==◌, if◌then◌else◌, length, u32_mod,
}
use vibecoded_os.Fs.Fat.{
  FatType, fat12, fat16, fat32, FatInfo, Sector, Disk, read_sector, write_sector, eof_marker,
  next_cluster, cluster_to_sector, set_fat_entry,
}
use vibecoded_os.Fs.Fat.Clusters.{Allocation, allocate_cluster, free_cluster_chain}
use vibecoded_os.Fs.Fat.Names.{split_last_dot, generate_short_name, compute_checksum}
use vibecoded_os.Fs.Fat.Writing.{write_entries, new_entries}

-- Whether a character of the list is between `low` and `high`
unfoldable pub has_between : (low high : ℕ) → List ℕ → Bool
has_between low high [] = false
has_between low high (c ∷ cs) = (leb low c && leb c high) || has_between low high cs

-- `c == ' ' || c == '+' || c == ',' || c == ';' || c == '=' || c == '[' || c == ']'`
unfoldable pub has_special : List ℕ → Bool
has_special [] = false
has_special (c ∷ cs) =
    c == b' '
    || c == b'+'
    || c == b','
    || c == b';'
    || c == b'='
    || c == b'['
    || c == b']'
    || has_special cs

-- `RtStrCompare(name, ".") == 0 || RtStrCompare(name, "..") == 0`
abbrev pub is_dot_name : List ℕ → Bool
is_dot_name [] = false
is_dot_name (a ∷ []) = a == b'.'
is_dot_name (a ∷ b ∷ []) = a == b'.' && b == b'.'
is_dot_name (a ∷ b ∷ c ∷ cs) = false

-- The two tests on dots: `if (dot) return 1`, and the lengths of the two parts.
abbrev pub needs_parts : List ℕ → Bool
needs_parts name = elim (split_last_dot name) [
  | none ↦ ltb 8 (length name)
  | some (base, ext) ↦ has_between b'.' b'.' base || ltb 8 (length base) || ltb 3 (length ext)
]

-- `FatNeedLfn`
unfoldable pub need_lfn : List ℕ → Bool
need_lfn name =
    not (is_dot_name name)
    && (ltb 12 (length name) || has_between b'a' b'z' name || needs_parts name || has_special name)

-- `g_fat.type != FAT_TYPE_32 && dir_cluster == 0`: the directory is the root outside the clusters.
abbrev pub is_fixed_root : FatType → (dir_cluster : ℕ) → Bool
is_fixed_root fat12 c = c == 0
is_fixed_root fat16 c = c == 0
is_fixed_root fat32 c = false

-- `cluster >= 2 && cluster < FatEofMarker()`
abbrev pub in_chain : FatInfo → ℕ → Bool
in_chain g c = leb 2 c && ltb c (eof_marker g)

-- `run_start_sector`, `run_start_offset` and `run_length`
pub record Run : Type 0 where
  pub sector : ℕ
  pub offset : ℕ
  pub length : ℕ

abbrev pub no_run : Run
no_run = record { sector = 0; offset = 0; length = 0 }

-- What an entry, a sector or a group of sectors means for the search: the slots are found, the group
-- ends here, the search goes on, or a sector cannot be read.
pub data Slots : Type 0 where
  slots_at : (sector offset : ℕ) → Slots
  group_done : Slots
  going : Run → Slots
  unreadable : Slots

-- The run with its start, if the entry at `at` of the sector `sec` is its first.
abbrev pub started : (sec at : ℕ) → Run → Run
started sec at r = if r.length == 0 then record { sector = sec; offset = at; length = 0 } else r

-- `slots_remaining_in_group`, with `n` sectors of the group left
abbrev pub slots_remaining : FatInfo → (n at : ℕ) → ℕ
slots_remaining g n at = (n * g.bytes_per_sector % u32_mod + u32_mod - at) % u32_mod / 32

-- The body of the loop of `FatFindFreeSlots` for the entry at `at` of the sector `sec`
unfoldable pub slot_step : FatInfo → (needed n sec at first_byte : ℕ) → Run → Slots
slot_step g needed n sec at first r =
    let s = started sec at r in
    if first == 0
    then (if leb needed (slots_remaining g n at) then slots_at s.sector s.offset else group_done)
    else if first == 0xe5
    then (if s.length + 1 == needed
        then slots_at s.sector s.offset
        else going (record s { length = s.length + 1 }))
    else going (record r { length = 0 })

-- The search goes on with the run where nothing has ended it.
unfoldable pub go_on : Slots → (Run → Slots) → Slots
go_on (slots_at s o) f = slots_at s o
go_on group_done f = group_done
go_on (going r) f = f r
go_on unreadable f = unreadable

-- `for (d = at; d < bytes_per_sector; d += 32)`, `k` rounds
unfoldable pub slot_loop : (k : ℕ) → FatInfo → (needed n sec at : ℕ) → Sector → Run → Slots
slot_loop zero g needed n sec at buf r = going r
slot_loop (suc k) g needed n sec at buf r =
    go_on (slot_step g needed n sec at (buf at) r)
      (λ r'. slot_loop k g needed n sec (at + 32) buf r')

-- The loop over the sector that has been read, or `return status`
unfoldable pub read_slots : FatInfo → (needed n sec : ℕ) → Option Sector → Run → Slots
read_slots g needed n sec none r = unreadable
read_slots g needed n sec (some buf) r =
    slot_loop ((g.bytes_per_sector + 31) / 32) g needed n sec 0 buf r

-- The loop over the sectors of a group, `n` left from `sec` on
unfoldable pub group_loop : (n : ℕ) → FatInfo → (needed sec : ℕ) → Run → Disk → Slots
group_loop zero g needed sec r d = group_done
group_loop (suc n) g needed sec r d =
    go_on (read_slots g needed (suc n) sec (read_sector g sec d) r)
      (λ r'. group_loop n g needed ((sec + 1) % u32_mod) r' d)

-- The answer of a group, or what the `rest` of the groups answers.
unfoldable pub next_group : Slots → (rest : Option Slots) → Option Slots
next_group (slots_at s o) rest = some (slots_at s o)
next_group group_done rest = rest
next_group (going r) rest = rest
next_group unreadable rest = some unreadable

-- The loop over the clusters of a directory; `none` is no behaviour of the code.
unfoldable pub slots_chain : (fuel : ℕ) → FatInfo → (needed cluster : ℕ) → Disk → Option Slots
slots_chain zero g needed c d = none
slots_chain (suc fuel) g needed c d =
    let rest = slots_chain fuel g needed (next_cluster g d c) d in
    if in_chain g c
    then next_group (group_loop g.sectors_per_cluster g needed (cluster_to_sector g c) no_run d)
        rest
    else some group_done

-- `FatFindFreeSlots`: `group_done` is `STATUS_NOT_FOUND`.
unfoldable pub find_free_slots :
    (fuel : ℕ) → FatInfo → (dir_cluster needed : ℕ) → Disk → Option Slots
find_free_slots fuel g dir needed d =
    if is_fixed_root g.type dir
    then some (group_loop g.root_dir_sectors g needed g.root_dir_start_sector no_run d)
    else slots_chain fuel g needed dir d

-- The loop of `FatExpandDirectory` to the last cluster of the directory
unfoldable pub last_cluster : (fuel : ℕ) → FatInfo → (last : ℕ) → Disk → Option ℕ
last_cluster zero g c d = none
last_cluster (suc fuel) g c d =
    let next = next_cluster g d c in
    let rest = last_cluster fuel g next d in
    if in_chain g c && in_chain g next then rest else some c

-- The loop that clears the new cluster; what `FatWriteSector` returns is not looked at.
unfoldable pub clear_sectors : (n : ℕ) → FatInfo → (sec : ℕ) → Disk → Disk
clear_sectors zero g sec d = d
clear_sectors (suc n) g sec d =
    clear_sectors n g ((sec + 1) % u32_mod) (write_sector g sec (λ i. 0) d).0

-- `FatExpandDirectory` behind its first loop; `last` is `g_last_allocated_cluster`, the cluster of the
-- result is 0 for `STATUS_DISK_FULL`.
unfoldable pub append_cluster : FatInfo → (tail last : ℕ) → Disk → Allocation
append_cluster g tail last d =
    let a = allocate_cluster g last d in
    let linked = if in_chain g tail then (set_fat_entry g tail a.cluster a.disk).0 else a.disk in
    if a.cluster == 0 then a else record a {
      disk = clear_sectors g.sectors_per_cluster g (cluster_to_sector g a.cluster) linked;
    }

-- `FatExpandDirectory`
unfoldable pub expand_directory :
    (fuel : ℕ) → FatInfo → (dir_cluster last : ℕ) → Disk → Option Allocation
expand_directory fuel g dir last d =
    if is_fixed_root g.type dir
    then some (record { cluster = 0; last = last; disk = d })
    else elim (last_cluster fuel g dir d) [
      | none ↦ none
      | some tail ↦ some (append_cluster g tail last d)
    ]

-- Whether the entry of a new file has been written, with `g_last_allocated_cluster` and the drive
pub record EntryWritten : Type 0 where
  pub ok : Bool
  pub last : ℕ
  pub disk : Disk

-- `if (first_cluster) FatFreeClusterChain(first_cluster); return status;`
unfoldable pub give_back : (fuel : ℕ) → FatInfo → (first last : ℕ) → Disk → Option EntryWritten
give_back fuel g first last d = elim (free_cluster_chain fuel g first d) [
  | none ↦ none
  | some d' ↦ some (record { ok = false; last = last; disk = d' })
]

-- `FatWriteDirectoryEntries` for a file named `name` with `FAT_ATTR_ARCHIVE`, and the return
unfoldable pub put_new_entry :
    (fuel : ℕ) → FatInfo → (name : List ℕ) (first size last sec at : ℕ) → Disk → Option EntryWritten
put_new_entry fuel g name first size last sec at d =
    let short = generate_short_name name in
    let long : Option (List ℕ) = if need_lfn name then some name else none in
    let w =
      write_entries (new_entries g long (compute_checksum short) short 0x20 first size) g sec at
        d in
    if w.1
    then some (record { ok = true; last = last; disk = w.0 })
    else give_back fuel g first last w.0

-- The entry in a new cluster of the directory, if it got one.
unfoldable pub put_in_cluster :
    (fuel : ℕ) → FatInfo → (name : List ℕ) (first size : ℕ) → Allocation → Option EntryWritten
put_in_cluster fuel g name first size a =
    if a.cluster == 0
    then give_back fuel g first a.last a.disk
    else put_new_entry fuel g name first size a.last (cluster_to_sector g a.cluster) 0 a.disk

-- `slots_needed`
unfoldable pub slots_needed : (name : List ℕ) → ℕ
slots_needed name = if need_lfn name then (length name + 12) / 13 + 1 else 1

-- `Fat32WriteFile`, its fourth step for a file that was not found; `none` is no behaviour of the code.
unfoldable pub write_new_entry :
    (fuel : ℕ)
    → FatInfo
    → (dir_cluster : ℕ) (name : List ℕ) (first size last : ℕ) → Disk
    → Option EntryWritten
write_new_entry fuel g dir name first size last d =
    elim (find_free_slots fuel g dir (slots_needed name) d) [
      | none ↦ none
      | some (slots_at s o) ↦ put_new_entry fuel g name first size last s o d
      | some group_done ↦ elim (expand_directory fuel g dir last d) [
        | none ↦ none
        | some a ↦ put_in_cluster fuel g name first size a
      ]
      | some (going r) ↦ none
      | some unreadable ↦ give_back fuel g first last d
    ]
