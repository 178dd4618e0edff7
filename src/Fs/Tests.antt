-- ===== src/Fs/Tests.antt =====
-- The theorems about Kernel/fs applied at small volumes, and runs of the code on them.
use vibecoded_os.Prelude.{
  ℕ, zero, suc, ◌-◌, ◌%◌, ◌<◌, ◌≡◌, ◌≤◌, ◌⊎◌, refl, Bool, true, false, some, List, [], ◌∷◌, ◌&&◌,
  ◌||◌, ltb, leb, ◌==◌, if◌then◌else◌, min, get_or, length, take, drop, arith, inr,
}
use vibecoded_os.Prelude.Bits.{test_bit}
use vibecoded_os.Fs.Fat.{
  FatType, fat12, fat16, fat32, FatInfo, Disk, Sector, get_fat_entry, set_fat_entry, eof_marker,
  cluster_to_sector, decode_entry, read_sector, write_sector, set_copies, set_copy, edit_copy,
}
use vibecoded_os.Fs.Fat.Table.{IsVolume, IsHealthy, InFat}
use vibecoded_os.Fs.Fat.Packing.{entry_value}
use vibecoded_os.Fs.Fat.Entries.{get_fat_entry-set_fat_entry}
use vibecoded_os.Fs.Fat.Clusters.{
  max_cluster, allocate_cluster, free_cluster_chain, allocate_from, start_cluster, scan_free,
  take_cluster,
}
use vibecoded_os.Fs.Fat.Clusters.Allocate.{IsCovered, IsFull, IsTaken, allocate_cluster_lem}
use vibecoded_os.Fs.Fat.Clusters.Free.{
  IsChain, ends, link, AllInFat, none_left, one_more, IsFreed, free_cluster_chain_lem,
}
use vibecoded_os.Fs.Fat.Names.{split_last_dot, lfn_entries, collect_lfn}
use vibecoded_os.Fs.Fat.Names.Long.{IsName, collect_lfn-lfn_entries}
use vibecoded_os.Fs.Fat.Records.{entry, parse_dir_entry, short_entry, display_name, name_part}
use vibecoded_os.Fs.Fat.Records.RoundTrip.{parse_dir_entry-short_entry}
use vibecoded_os.Fs.Fat.Files.{read, read_file, read_file_at, read_chain, read_chain_at}
use vibecoded_os.Fs.Fat.Files.Contents.{chain_bytes}
use vibecoded_os.Fs.Fat.Files.Chains as Chains
use vibecoded_os.Fs.Fat.Files.Whole.{read_chain_at-read_chain}
use vibecoded_os.Fs.Fat.Files.Part.{read_file_at_lem}
use vibecoded_os.Fs.Fat.Clusters.{first_allocation, scan_used}
use vibecoded_os.Fs.Fat.Volume.{
  init, find_partition, is_mbr, is_mbr_loop, read_volume, info_of, is_power,
}
use vibecoded_os.Fs.Fat.Volume.Geometry.{init_lem}
use vibecoded_os.Fs.Fat.Writing.{
  Written, write_chain, write_data, reserve_loop, reserve_step, clusters_needed,
}
use vibecoded_os.Fs.Fat.Writing.Chain.{InArea, AllInArea, no_cluster, one_cluster}
use vibecoded_os.Fs.Fat.Writing.Reserve.{Outcome, reserve_loop-first}
use vibecoded_os.Fs.Fat.Directory.{
  slots_at, find_free_slots, need_lfn, slots_needed, has_between, has_special, slots_chain,
  next_group, group_loop, go_on, read_slots, slot_loop, slot_step,
}
use vibecoded_os.Runtime.{to_lower}
use vibecoded_os.Fs.Fat.Search.{
  find_entry, find_chain, find_further, sector_loop, look_in, entry_loop, search_on, look_at,
  match_entry, name_match, same_name, string_at, found, no_such_file,
}
use vibecoded_os.Fs.Fat.Directory.FreeSlots.{Searched, find_free_slots_lem}
use vibecoded_os.Fs.Fat.Writing.NewFile.{Kept, write_data_lem}
use vibecoded_os.Fs.Fat.Writing.RoundTrip.{read_file-write_chain}

-- A small volume: two FATs of two sectors and ten clusters of one sector.
abbrev volume : FatType → FatInfo
volume t = record {
  type = t;
  bytes_per_sector = 512;
  sectors_per_cluster = 1;
  reserved_sectors = 1;
  num_fats = 2;
  root_entry_count = 16;
  root_cluster = 0;
  sectors_per_fat = 2;
  total_sectors = 16;
  data_start_sector = 6;
  fat_start_sector = 1;
  root_dir_sectors = 1;
  root_dir_start_sector = 5;
  partition_start_lba = 63;
}

-- Its drive: the FAT16 chain 2, 5 in both FATs, and each data sector filled with its own number.
abbrev fat_sector : Sector
fat_sector i = if i == 4 then 5 else if leb 10 i && leb i 11 then 255 else 0

abbrev drive : Disk
drive = record {
  sector = λ n i. if n == 64 || n == 66 then fat_sector i else n % 256;
  bad = λ n. false;
}

volume-IsVolume : (t : FatType) → IsVolume (volume t)
volume-IsVolume t = record {
  sector_size = refl;
  copies = omega arith;
  fats_fit = omega arith;
  lba_fits = omega arith;
}

drive-IsHealthy : IsHealthy drive
drive-IsHealthy = record { answers = λ n. refl; bytes = λ n i. ground arith }

volume-InFat : (t : FatType) (c : ℕ) → c < 200 → InFat (volume t) c
volume-InFat fat12 c h = (omega arith, omega arith)
volume-InFat fat16 c h = (omega arith, omega arith)
volume-InFat fat32 c h = (omega arith, omega arith)

near-InFat : InFat (volume fat12) 340
near-InFat = (omega arith, omega arith)

split-InFat : InFat (volume fat12) 341
split-InFat = (omega arith, omega arith)

-- The FAT12 entry 341 lies in two sectors, and shares a byte with the entry 340, which does not.
get_fat_entry-set_fat_entry_example :
    ((set_fat_entry (volume fat12) 341 0xabc drive).1 ≡ true)
    × (get_fat_entry (volume fat12) (set_fat_entry (volume fat12) 341 0xabc drive).0 340
        ≡ (if 340 == 341 then entry_value fat12 0xabc else get_fat_entry (volume fat12) drive 340))
get_fat_entry-set_fat_entry_example =
    get_fat_entry-set_fat_entry (volume fat12) (volume-IsVolume fat12) drive drive-IsHealthy 341 340
      0xabc (omega arith) split-InFat near-InFat (λ q. omega arith)

volume_top : max_cluster (volume fat16) ≡ 12
unfolding max_cluster
volume_top = refl

volume-IsCovered : IsCovered (volume fat16)
volume-IsCovered = record {
  some_cluster = let m = volume_top in omega (arith, m);
  covered = λ c a b. let m = volume_top in volume-InFat fat16 c (omega (arith, b, m));
}

allocate_cluster_lem_example :
    IsFull (volume fat16) 4 drive (allocate_cluster (volume fat16) 4 drive)
    ⊎ IsTaken (volume fat16) drive (allocate_cluster (volume fat16) 4 drive)
allocate_cluster_lem_example =
    allocate_cluster_lem (volume fat16) (volume-IsVolume fat16) volume-IsCovered drive
      drive-IsHealthy 4

-- The chain of the drive
second_entry : get_fat_entry (volume fat16) drive 2 ≡ 5
unfolding get_fat_entry decode_entry read_sector
second_entry = refl

fifth_entry : get_fat_entry (volume fat16) drive 5 ≡ 0xffff
unfolding get_fat_entry decode_entry read_sector
fifth_entry = refl

end_marker : eof_marker (volume fat16) ≡ 0xfff8
unfolding eof_marker
end_marker = refl

two-IsChain :
    (d : Disk)
    → get_fat_entry (volume fat16) d 2 ≡ 5
    → get_fat_entry (volume fat16) d 5 ≡ 0xffff
    → IsChain (eof_marker (volume fat16)) (get_fat_entry (volume fat16) d) 2 (2 ∷ 5 ∷ [])
two-IsChain d a b =
    let e = end_marker in
    let last : IsChain (eof_marker (volume fat16)) (get_fat_entry (volume fat16) d) 5 (5 ∷ []) =
      ends (omega arith) (omega (arith, e)) (inr (omega (arith, b, e))) in
    link (omega arith) (omega (arith, e)) (omega (arith, a)) (omega (arith, a, e)) refl (rw a last)

drive-IsChain :
    IsChain (eof_marker (volume fat16)) (get_fat_entry (volume fat16) drive) 2 (2 ∷ 5 ∷ [])
drive-IsChain = two-IsChain drive second_entry fifth_entry

drive-AllInFat : AllInFat (volume fat16) (2 ∷ 5 ∷ [])
drive-AllInFat =
    one_more (volume-InFat fat16 2 (omega arith))
      (one_more (volume-InFat fat16 5 (omega arith)) none_left)

free_cluster_chain_lem_example :
    (d' : Disk) × (free_cluster_chain (length {A = ℕ} (2 ∷ 5 ∷ [])) (volume fat16) 2 drive
      ≡ some d')
    × IsFreed (volume fat16) (2 ∷ 5 ∷ []) drive d'
free_cluster_chain_lem_example =
    free_cluster_chain_lem (volume fat16) (volume-IsVolume fat16) (2 ∷ 5 ∷ []) 2 drive
      drive-IsHealthy drive-AllInFat drive-IsChain

drive-AllInData : Chains.AllInData (volume fat16) (2 ∷ 5 ∷ [])
unfolding cluster_to_sector
drive-AllInData = Chains.one_more (omega arith) (Chains.one_more (omega arith) Chains.none_left)

read_chain_at-read_chain_example :
    read_chain_at 3 (volume fat16) 2 0 700 drive ≡ read_chain 3 (volume fat16) 2 700 drive
read_chain_at-read_chain_example =
    read_chain_at-read_chain (volume fat16) (volume-IsVolume fat16) drive 3 2 700

read_file_at_lem_example :
    read_file_at (suc (length {A = ℕ} (2 ∷ 5 ∷ []))) (volume fat16) 2 700 510 100 drive
    ≡ read (record {
      ok = true;
      bytes = take (min 100 (700 - 510)) (drop 510 (chain_bytes (volume fat16) drive (2 ∷ 5 ∷ [])));
      remaining = 0;
    })
read_file_at_lem_example =
    read_file_at_lem (volume fat16) (volume-IsVolume fat16) drive drive-IsHealthy (2 ∷ 5 ∷ []) 2 700
      510 100 drive-IsChain drive-AllInData (omega arith) (omega arith) (omega arith) (omega arith)

abbrev long_file : List ℕ
long_file =
    b'A' ∷ b' ' ∷ b'l' ∷ b'o' ∷ b'n' ∷ b'g' ∷ b' ' ∷ b'n' ∷ b'a' ∷ b'm' ∷ b'e' ∷ b'.' ∷ b't' ∷ b'e'
    ∷ b'x' ∷ b't' ∷ []

-- A test of every character of a name.
abbrev all_bytes : List ℕ → Bool
all_bytes [] = true
all_bytes (c ∷ cs) = ltb 0 c && ltb c 256 && all_bytes cs

all_bytes-IsName : (name : List ℕ) → all_bytes name ≡ true → IsName name
all_bytes-IsName [] e i h = absurd (omega (arith, h))
all_bytes-IsName (c ∷ cs) e zero h = (ground (arith, e), ground (arith, e))
all_bytes-IsName (c ∷ cs) e (suc i) h = all_bytes-IsName cs (ground (arith, e)) i (omega (arith, h))

collect_lfn-lfn_entries_example :
    collect_lfn (lfn_entries long_file 7) 260 (λ i. 0) 15 ≡ get_or long_file 15 0
collect_lfn-lfn_entries_example =
    collect_lfn-lfn_entries long_file (all_bytes-IsName long_file refl) (omega arith) 7 15

abbrev short_readme : Sector
short_readme = λ i.
    get_or (b'R' ∷ b'E' ∷ b'A' ∷ b'D' ∷ b'M' ∷ b'E' ∷ b' ' ∷ b' ' ∷ b'T' ∷ b'X' ∷ b'T' ∷ []) i 0

readme_shown :
    display_name short_readme
    ≡ b'r' ∷ b'e' ∷ b'a' ∷ b'd' ∷ b'm' ∷ b'e' ∷ b'.' ∷ b't' ∷ b'x' ∷ b't' ∷ []
unfolding display_name name_part
readme_shown = refl

parse_dir_entry-short_entry_example :
    parse_dir_entry fat32 (short_entry fat32 short_readme 0x21 0x12345 700)
    ≡ entry (record {
      name = display_name short_readme;
      first_cluster = 0x12345;
      file_size = 700;
      is_directory = test_bit 0x21 4;
      is_readonly = test_bit 0x21 0;
      is_hidden = test_bit 0x21 1;
      is_system = test_bit 0x21 2;
      is_volume_label = test_bit 0x21 3;
      attributes = 0x21;
    })
parse_dir_entry-short_entry_example =
    parse_dir_entry-short_entry fat32 short_readme 0x21 0x12345 700 (ground arith) (ground arith)
      (ground arith) (omega arith) (omega arith)

drive-AllInArea : AllInArea (volume fat16) (2 ∷ 5 ∷ [])
drive-AllInArea =
    one_cluster (omega arith, omega arith, omega arith, omega arith)
      (one_cluster (omega arith, omega arith, omega arith, omega arith) no_cluster)

abbrev greeting : List ℕ
greeting = b'h' ∷ b'e' ∷ b'l' ∷ b'l' ∷ b'o' ∷ []

are_bytes : (name : List ℕ) → all_bytes name ≡ true → (i : ℕ) → get_or name i 0 < 256
are_bytes [] e i = omega arith
are_bytes (c ∷ cs) e zero = ground (arith, e)
are_bytes (c ∷ cs) e (suc i) = are_bytes cs (ground (arith, e)) i

read_file-write_chain_example :
    (w : Written) × (write_chain (suc (length {A = ℕ} (2 ∷ 5 ∷ []))) (volume fat16) 2 greeting drive
      ≡ some w)
    × (w.ok ≡ true)
    × (read_file (suc (length {A = ℕ} (2 ∷ 5 ∷ []))) (volume fat16) 2 (length greeting) w.disk
        ≡ some (record { ok = true; bytes = greeting; remaining = 0 }))
read_file-write_chain_example =
    read_file-write_chain (volume fat16) (volume-IsVolume fat16) drive drive-IsHealthy (2 ∷ 5 ∷ [])
      2 greeting (are_bytes greeting refl) drive-IsChain drive-AllInFat drive-AllInArea
      (omega arith) (omega arith)

volume-InArea : (x : ℕ) → 2 ≤ x → x < max_cluster (volume fat16) → InArea (volume fat16) x
volume-InArea x a b =
    let m = volume_top in
    (omega (arith, a, b, m), omega (arith, a, b, m), omega (arith, a, b, m), omega (arith, a, b, m))

reserve_loop-first_example : Outcome (volume fat16) drive 2 (
    reserve_loop 2
      (volume fat16)
      (record { first = 0; prev = 0; last = 4; disk = drive; full = false }))
reserve_loop-first_example =
    let m = volume_top in
    let e = end_marker in
    reserve_loop-first (volume fat16) (volume-IsVolume fat16) volume-IsCovered (omega (arith, m, e))
      drive 2 4 drive-IsHealthy (omega arith)

-- Two free entries are too few for three slots: the search goes on to the end of the directory.
abbrev directory : Disk
directory = record drive {
  sector = λ n i.
      if n == 69
      then (if i == 32 || i == 64 then 0xe5 else if ltb i 128 then 65 else 0)
      else drive.sector n i;
}

directory_second : get_fat_entry (volume fat16) directory 2 ≡ 5
unfolding get_fat_entry decode_entry read_sector
directory_second = refl

directory_fifth : get_fat_entry (volume fat16) directory 5 ≡ 0xffff
unfolding get_fat_entry decode_entry read_sector
directory_fifth = refl

find_free_slots_lem_example :
    Searched
      (volume fat16)
      directory
      3
      (2 ∷ 5 ∷ [])
      (find_free_slots (suc (length {A = ℕ} (2 ∷ 5 ∷ []))) (volume fat16) 2 3 directory)
find_free_slots_lem_example =
    find_free_slots_lem (volume fat16) (volume-IsVolume fat16) 3 (omega arith) (omega arith)
      directory (2 ∷ 5 ∷ []) 2 (two-IsChain directory directory_second directory_fifth)
      drive-AllInData (omega arith)

slots_found : find_free_slots 3 (volume fat16) 2 3 directory ≡ some (slots_at 6 128)
unfolding find_free_slots slots_chain next_group group_loop go_on read_slots slot_loop slot_step
    eof_marker cluster_to_sector read_sector
slots_found = refl

-- A directory with one file, "README.TXT", in its first entry.
abbrev listing : Disk
listing = record drive {
  sector = λ n i. if n == 69 then short_entry fat16 short_readme 0x20 9 700 i else drive.sector n i;
}

readme_found :
    find_entry 3
      (volume fat16)
      2
      (b'R' ∷ b'e' ∷ b'a' ∷ b'd' ∷ b'm' ∷ b'e' ∷ b'.' ∷ b't' ∷ b'x' ∷ b't' ∷ [])
      listing
    ≡ some (
        found (record {
          sector = 6;
          offset = 0;
          first_cluster = 9;
          file_size = 700;
          lfn_sector = 0;
          lfn_offset = 0;
        }))
unfolding find_entry find_chain find_further sector_loop look_in entry_loop search_on look_at
    match_entry name_match same_name string_at to_lower parse_dir_entry short_entry display_name
    name_part eof_marker cluster_to_sector read_sector test_bit
readme_found = refl

other_missing : find_entry 3 (volume fat16) 2 (b'x' ∷ []) listing ≡ some no_such_file
unfolding find_entry find_chain find_further sector_loop look_in entry_loop search_on look_at
    match_entry name_match same_name string_at to_lower parse_dir_entry short_entry display_name
    name_part eof_marker cluster_to_sector read_sector test_bit
other_missing = refl

long_name_needed : slots_needed long_file ≡ 3
unfolding slots_needed need_lfn has_between has_special split_last_dot
long_name_needed = refl

-- The greeting needs one cluster, and the drive has it.
greeting_fits :
    (reserve_loop
      (clusters_needed (volume fat16) (length greeting))
      (volume fat16)
      (record { first = 0; prev = 0; last = 4; disk = drive; full = false })).full
    ≡ false
unfolding reserve_loop reserve_step allocate_cluster allocate_from start_cluster scan_free
    take_cluster max_cluster set_fat_entry set_copies set_copy edit_copy get_fat_entry decode_entry
    read_sector write_sector eof_marker
greeting_fits = refl

write_data_lem_example :
    Kept (volume fat16) (suc (clusters_needed (volume fat16) (length greeting))) greeting (
      write_data
        (suc (clusters_needed (volume fat16) (length greeting)))
        (volume fat16)
        4
        greeting
        drive)
write_data_lem_example =
    let m = volume_top in
    let e = end_marker in
    write_data_lem (volume fat16) (volume-IsVolume fat16) volume-IsCovered (omega (arith, m, e))
      volume-InArea (omega arith) drive drive-IsHealthy 4 greeting (are_bytes greeting refl)
      (omega arith) (omega arith) greeting_fits

-- The boot sector of a volume with no partition table before it, and an empty FAT.
abbrev boot_sector : Sector
boot_sector i =
    if i == 12 || i == 16 || i == 22
    then 2
    else if i == 13 || i == 14
    then 1
    else if i == 17 || i == 19
    then 16
    else if i == 510
    then 0x55
    else if i == 511
    then 0xaa
    else 0

abbrev boot_drive : Disk
boot_drive = record { sector = λ n i. if n == 0 then boot_sector i else 0; bad = λ n. false }

boot_run : init (λ i. 0) 0 boot_drive ≡ some (info_of 0 boot_sector, 3)
unfolding init find_partition is_mbr is_mbr_loop read_volume info_of first_allocation scan_used
    get_fat_entry decode_entry read_sector eof_marker
boot_run = refl

init_lem_example :
    ((info_of 0 boot_sector).bytes_per_sector ≡ 512)
    × (is_power (info_of 0 boot_sector).sectors_per_cluster ≡ true)
    × (max_cluster (info_of 0 boot_sector) ≤ eof_marker (info_of 0 boot_sector))
unfolding info_of
init_lem_example =
    init_lem (λ i. 0) 0 boot_drive (info_of 0 boot_sector) 3 boot_run (omega arith) (omega arith)
