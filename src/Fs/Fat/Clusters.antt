-- ===== src/Fs/Fat/Clusters.antt =====
-- Kernel/fs/fat32.c: the clusters of a volume, their allocation and the chains they form.
pub mod Allocate
pub mod Free
use vibecoded_os.Prelude.{
  ℕ, zero, suc, ◌+◌, ◌-◌, ◌*◌, ◌/◌, ◌%◌, Bool, true, false, not, Option, none, some, List, [], ◌∷◌,
  ◌&&◌, ◌||◌, ltb, leb, ◌==◌, if◌then◌else◌, u32_mod, u64_mod,
}
use vibecoded_os.Fs.Fat.{FatInfo, Disk, get_fat_entry, set_fat_entry, eof_marker}

-- What `FatAllocateCluster` returns, with `g_last_allocated_cluster` and the drive after it. The
-- cluster 0 is a failure.
pub record Allocation : Type 0 where
  pub cluster : ℕ
  pub last : ℕ
  pub disk : Disk

-- `max_cluster`: the clusters of the volume are those from 2 to `max_cluster - 1`.
unfoldable pub max_cluster : FatInfo → ℕ
max_cluster g =
    ((g.total_sectors + u32_mod - g.data_start_sector) % u32_mod / g.sectors_per_cluster + 2)
    % u32_mod

-- The body of the loops for a cluster whose entry is 0.
unfoldable pub take_cluster : FatInfo → (c last : ℕ) → Disk → Allocation
take_cluster g c last d =
    let (d', ok) = set_fat_entry g c (eof_marker g) d in
    if ok
    then record { cluster = c; last = c + 1; disk = d' }
    else record { cluster = 0; last = last; disk = d' }

-- `for (c = start; c < start + n; c++)`: `none` where the loop ends with no return.
unfoldable pub scan_free : (n : ℕ) → FatInfo → (c last : ℕ) → Disk → Option Allocation
scan_free zero g c last d = none
scan_free (suc n) g c last d =
    let rest = scan_free n g (c + 1) last d in
    if get_fat_entry g d c == 0 then some (take_cluster g c last d) else rest

-- `start`, from `last`, which is `g_last_allocated_cluster`
unfoldable pub start_cluster : FatInfo → (last : ℕ) → ℕ
start_cluster g last = if ltb last 2 || leb (max_cluster g) last then 2 else last

-- The two loops of `FatAllocateCluster`
unfoldable pub allocate_from : FatInfo → (start last : ℕ) → Disk → Allocation
allocate_from g start last d = elim (scan_free (max_cluster g - start) g start last d) [
  | some a ↦ a
  | none ↦ elim (scan_free (start - 2) g 2 last d) [
    | some a ↦ a
    | none ↦ record { cluster = 0; last = last; disk = d }
  ]
]

-- `FatAllocateCluster`
unfoldable pub allocate_cluster : FatInfo → (last : ℕ) → Disk → Allocation
allocate_cluster g last d = allocate_from g (start_cluster g last) last d

-- The loop of `FatFreeClusterChain`; `none` is no behaviour of the code.
unfoldable pub free_loop : (fuel : ℕ) → FatInfo → (cluster : ℕ) → Disk → Option Disk
free_loop zero g c d = none
free_loop (suc fuel) g c d =
    let next = get_fat_entry g d c in
    let d' = (set_fat_entry g c 0 d).0 in
    let rest = free_loop fuel g next d' in
    if leb 2 c && ltb c (eof_marker g)
    then (if ltb next 2 || leb (eof_marker g) next then some d' else rest)
    else some d

-- `FatFreeClusterChain`
unfoldable pub free_cluster_chain : (fuel : ℕ) → FatInfo → (cluster : ℕ) → Disk → Option Disk
free_cluster_chain fuel g c d = if ltb c 2 then some d else free_loop fuel g c d

-- The loop of `Fat32Init` that finds where allocation starts: the highest cluster below `c + n` whose
-- entry links to another cluster, from above.
unfoldable pub scan_used : (n : ℕ) → FatInfo → Disk → ℕ
scan_used zero g d = 2
scan_used (suc n) g d =
    let val = get_fat_entry g d (n + 2) in
    let rest = scan_used n g d in if not (val == 0) && ltb val (eof_marker g) then n + 2 else rest

-- `g_last_allocated_cluster` after `Fat32Init`, which has counted `total` clusters
unfoldable pub first_allocation : FatInfo → (total : ℕ) → Disk → ℕ
first_allocation g total d = scan_used ((total + 2) % u32_mod - 2) g d + 1

-- The loop of `Fat32GetFreeSize` with `n` clusters left from `c` on
unfoldable pub count_free : (n : ℕ) → FatInfo → (c : ℕ) → Disk → ℕ
count_free zero g c d = 0
count_free (suc n) g c d =
    let rest = count_free n g (c + 1) d in if get_fat_entry g d c == 0 then suc rest else rest

-- `Fat32GetFreeSize`
unfoldable pub get_free_size : FatInfo → Disk → ℕ
get_free_size g d =
    count_free (max_cluster g - 2) g 2 d
    * g.sectors_per_cluster
    % u64_mod
    * g.bytes_per_sector
    % u64_mod

-- `Fat32GetVolumeSize`
unfoldable pub get_volume_size : FatInfo → ℕ
get_volume_size g = g.total_sectors * g.bytes_per_sector % u64_mod
