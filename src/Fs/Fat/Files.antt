-- ===== src/Fs/Fat/Files.antt =====
-- Kernel/fs/fat32.c: reading a file along its chain of clusters, whole or from an offset on. The
-- destination buffer is the list of the bytes copied to it.
pub mod Contents
pub mod Whole
pub mod Chains
pub mod Part
use vibecoded_os.Prelude.{
  ℕ, zero, suc, ◌+◌, ◌-◌, ◌*◌, ◌/◌, ◌%◌, ◌^◌, Bool, true, false, not, Option, none, some, List, [],
  ◌∷◌, ◌++◌, ◌&&◌, ◌||◌, ltb, leb, ◌==◌, if◌then◌else◌, min, length, u32_mod, add32, sub32,
}
use vibecoded_os.Fs.Fat.{FatInfo, Sector, Disk, read_sector, next_cluster, cluster_to_sector}

-- What a loop has copied, and what is left to copy; `ok` is false after an error of the drive.
pub record Chunk : Type 0 where
  pub ok : Bool
  pub bytes : List ℕ
  pub remaining : ℕ

-- `RtMemCopy(dst, buf + at, n)`
unfoldable pub copied : (n at : ℕ) → Sector → List ℕ
copied zero at buf = []
copied (suc n) at buf = buf at ∷ copied n (at + 1) buf

abbrev pub prepend : List ℕ → Chunk → Chunk
prepend bytes c = record c { bytes = bytes ++ c.bytes }

-- The loop of `Fat32ReadFile` over the sectors of a cluster, `n` left from `sec` on
unfoldable pub read_cluster : (n : ℕ) → FatInfo → (sec remaining : ℕ) → Disk → Chunk
read_cluster zero g sec remaining d = record { ok = true; bytes = []; remaining = remaining }
read_cluster (suc n) g sec remaining d =
    let to_copy = min remaining g.bytes_per_sector in
    let rest = read_cluster n g ((sec + 1) % u32_mod) (remaining - to_copy) d in
    if remaining == 0
    then record { ok = true; bytes = []; remaining = 0 }
    else elim (read_sector g sec d) [
      | none ↦ record { ok = false; bytes = []; remaining = remaining }
      | some buf ↦ prepend (copied to_copy 0 buf) rest
    ]

-- `cluster && cluster < 0x0FFFFFF8`
abbrev pub is_data : ℕ → Bool
is_data c = not (c == 0) && ltb c 0xffffff8

-- After a cluster: what the next rounds copy follows, unless the drive failed.
unfoldable pub and_more : Chunk → Option Chunk → Option Chunk
and_more chunk rest =
    if chunk.ok
    then elim rest [ none ↦ none | some more ↦ some (prepend chunk.bytes more) ]
    else some chunk

-- The loop of `Fat32ReadFile` over the clusters; `none` is no behaviour of the code.
unfoldable pub read_chain : (fuel : ℕ) → FatInfo → (cluster remaining : ℕ) → Disk → Option Chunk
read_chain zero g c remaining d = none
read_chain (suc fuel) g c remaining d =
    let chunk = read_cluster g.sectors_per_cluster g (cluster_to_sector g c) remaining d in
    let rest = read_chain fuel g (next_cluster g d c) chunk.remaining d in
    if is_data c && not (remaining == 0)
    then and_more chunk rest
    else some (record { ok = true; bytes = []; remaining = remaining })

-- `Fat32ReadFile` of the open file, with its first cluster and its size
unfoldable pub read_file : (fuel : ℕ) → FatInfo → (cluster size : ℕ) → Disk → Option Chunk
read_file fuel g c size d = read_chain fuel g c size d

-- The first loop of `Fat32ReadFileAt`, over the clusters that end at `offset` or before: the cluster
-- and its position in the file.
unfoldable pub skip_clusters :
    (fuel : ℕ) → FatInfo → (pos offset cluster : ℕ) → Disk → Option (ℕ × ℕ)
skip_clusters zero g pos offset c d = none
skip_clusters (suc fuel) g pos offset c d =
    let size = g.sectors_per_cluster * g.bytes_per_sector % u32_mod in
    let rest = skip_clusters fuel g (add32 pos size) offset (next_cluster g d c) d in
    if is_data c && leb (add32 pos size) offset then rest else some (pos, c)

-- The loop of `Fat32ReadFileAt` over the sectors of a cluster, with `skip` bytes to leave out; the
-- second result is what is left of `skip`.
unfoldable pub read_cluster_at : (n : ℕ) → FatInfo → (sec skip remaining : ℕ) → Disk → Chunk × ℕ
read_cluster_at zero g sec skip remaining d =
    (record { ok = true; bytes = []; remaining = remaining }, skip)
read_cluster_at (suc n) g sec skip remaining d =
    let bps = g.bytes_per_sector in
    let to_copy = min remaining (bps - skip) in
    let skipped = read_cluster_at n g ((sec + 1) % u32_mod) (skip - bps) remaining d in
    let rest = read_cluster_at n g ((sec + 1) % u32_mod) 0 (remaining - to_copy) d in
    if remaining == 0
    then (record { ok = true; bytes = []; remaining = 0 }, skip)
    else elim (read_sector g sec d) [
      | none ↦ (record { ok = false; bytes = []; remaining = remaining }, skip)
      | some buf ↦
          if leb bps skip then skipped else (prepend (copied to_copy skip buf) rest.0, rest.1)
    ]

-- The last loop of `Fat32ReadFileAt`
unfoldable pub read_chain_at :
    (fuel : ℕ) → FatInfo → (cluster skip remaining : ℕ) → Disk → Option Chunk
read_chain_at zero g c skip remaining d = none
read_chain_at (suc fuel) g c skip remaining d =
    let (chunk, skip') =
      read_cluster_at g.sectors_per_cluster g (cluster_to_sector g c) skip remaining d in
    let rest = read_chain_at fuel g (next_cluster g d c) skip' chunk.remaining d in
    if is_data c && not (remaining == 0)
    then and_more chunk rest
    else some (record { ok = true; bytes = []; remaining = remaining })

-- The result of `Fat32ReadFileAt` for an open file; `out_of_fuel` is no behaviour of the code.
pub data ReadAt : Type 0 where
  end_of_file : ReadAt
  read : Chunk → ReadAt
  out_of_fuel : ReadAt

-- `if (offset + to_read > file_size) to_read = file_size - offset;`
abbrev pub clip_count : (file_size offset count : ℕ) → ℕ
clip_count size offset count = if ltb size (add32 offset count) then size - offset else count

-- `Fat32ReadFileAt` behind `Fat32OpenPath`
unfoldable pub read_file_at : (fuel : ℕ) → FatInfo → (cluster size offset count : ℕ) → Disk → ReadAt
read_file_at fuel g c size offset count d =
    if leb size offset then end_of_file else elim (skip_clusters fuel g 0 offset c d) [
      | none ↦ out_of_fuel
      | some (pos, c') ↦
          if is_data c'
          then elim (read_chain_at fuel g c' (offset - pos) (clip_count size offset count) d) [
            | none ↦ out_of_fuel
            | some chunk ↦ read chunk
          ]
          else end_of_file
    ]
