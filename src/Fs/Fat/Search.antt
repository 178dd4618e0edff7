-- ===== src/Fs/Fat/Search.antt =====
-- Kernel/fs/fat32.c: the search for a name in a directory, FatFindEntry.
use vibecoded_os.Prelude.{
  ℕ, zero, suc, ◌+◌, ◌/◌, ◌%◌, ◌^◌, Bool, true, false, not, Option, none, some, List, [], ◌∷◌, ◌&&◌,
  ◌||◌, ◌==◌, if◌then◌else◌, u32_mod,
}
use vibecoded_os.Prelude.Bits.{test_bit}
use vibecoded_os.Runtime.{to_lower}
use vibecoded_os.Fs.Fat.{
  FatType, FatInfo, Sector, Disk, read_sector, next_cluster, cluster_to_sector,
}
use vibecoded_os.Fs.Fat.Names.{extract_lfn}
use vibecoded_os.Fs.Fat.Records.{Parsed, not_found, long_name, entry, DirEntry, parse_dir_entry}
use vibecoded_os.Fs.Fat.Directory.{is_fixed_root, in_chain}

-- The string at `at` of a buffer, `n` characters at most
unfoldable pub string_at : (n at : ℕ) → Sector → List ℕ
string_at zero at buf = []
string_at (suc n) at buf =
    let rest = string_at n (at + 1) buf in if buf at == 0 then [] else buf at ∷ rest

-- `RtStrCompareI(a, b) == 0`
unfoldable pub same_name : (a b : List ℕ) → Bool
same_name [] [] = true
same_name [] (b ∷ bs) = false
same_name (a ∷ more) [] = false
same_name (a ∷ more) (b ∷ bs) = to_lower a == to_lower b && same_name more bs

-- `lfn_accum`, `lfn_valid`, `lfn_start_sec` and `lfn_start_off`
pub record LongName : Type 0 where
  pub accum : Sector
  pub valid : Bool
  pub sector : ℕ
  pub offset : ℕ

-- `lfn_valid = 0; RtMemSet(lfn_accum, 0, sizeof(lfn_accum));`
abbrev pub forget : LongName → LongName
forget l = record l { accum = λ i. 0; valid = false }

-- The entry of a long name at `at` of the sector `sec`
unfoldable pub take_part : (sec at : ℕ) (raw : Sector) → LongName → LongName
take_part sec at raw l =
    let l' : LongName =
      if test_bit (raw 0) 6
      then record { accum = λ i. 0; valid = true; sector = sec; offset = at }
      else l in
    if l'.valid then record l' { accum = extract_lfn raw 260 l'.accum } else l'

-- What `FatFindEntry` returns of a found entry
pub record Place : Type 0 where
  pub sector : ℕ
  pub offset : ℕ
  pub first_cluster : ℕ
  pub file_size : ℕ
  pub lfn_sector : ℕ
  pub lfn_offset : ℕ

-- What an entry means for the search: `STATUS_NO_SUCH_FILE`, the entry with the name, a sector that
-- cannot be read, or the search goes on.
pub data Found : Type 0 where
  no_such_file : Found
  found : Place → Found
  read_error : Found
  onwards : LongName → Found

-- `name_match`
unfoldable pub name_match : (name : List ℕ) → LongName → DirEntry → Bool
name_match name l e =
    (l.valid && not (l.accum 0 == 0) && same_name (string_at 260 0 l.accum) name)
    || same_name e.name name

-- A used entry with a short name. `long_name` does not occur: its attributes have been looked at.
unfoldable pub match_entry : (name : List ℕ) (sec at : ℕ) → LongName → Parsed → Found
match_entry name sec at l not_found = onwards (forget l)
match_entry name sec at l long_name = onwards (forget l)
match_entry name sec at l (entry e) =
    if name_match name l e
    then found (record {
      sector = sec;
      offset = at;
      first_cluster = e.first_cluster;
      file_size = e.file_size;
      lfn_sector = if l.valid then l.sector else 0;
      lfn_offset = if l.valid then l.offset else 0;
    })
    else onwards (forget l)

-- The body of the loop over the entries of a sector
unfoldable pub look_at : FatType → (name : List ℕ) (sec at : ℕ) (raw : Sector) → LongName → Found
look_at t name sec at raw l =
    if raw 0 == 0
    then no_such_file
    else if raw 0 == 0xe5
    then onwards (forget l)
    else if raw 11 % 2 ^ 4 == 0x0f
    then onwards (take_part sec at raw l)
    else if test_bit (raw 11) 3
    then onwards (forget l)
    else match_entry name sec at l (parse_dir_entry t raw)

-- The search goes on where nothing has ended it.
unfoldable pub search_on : Found → (LongName → Found) → Found
search_on no_such_file f = no_such_file
search_on (found p) f = found p
search_on read_error f = read_error
search_on (onwards l) f = f l

-- `for (d = at; d < bytes_per_sector; d += 32)`, `k` rounds
unfoldable pub entry_loop :
    (k : ℕ) → FatType → (name : List ℕ) (sec at : ℕ) → Sector → LongName → Found
entry_loop zero t name sec at buf l = onwards l
entry_loop (suc k) t name sec at buf l =
    search_on (look_at t name sec at (λ i. buf (at + i)) l)
      (λ l'. entry_loop k t name sec (at + 32) buf l')

-- The loop over the sector that has been read, or `return status`
unfoldable pub look_in : FatInfo → (name : List ℕ) (sec : ℕ) → Option Sector → LongName → Found
look_in g name sec none l = read_error
look_in g name sec (some buf) l =
    entry_loop ((g.bytes_per_sector + 31) / 32) g.type name sec 0 buf l

-- The loop over the sectors of a group, `n` left from `sec` on
unfoldable pub sector_loop : (n : ℕ) → FatInfo → (name : List ℕ) (sec : ℕ) → LongName → Disk → Found
sector_loop zero g name sec l d = onwards l
sector_loop (suc n) g name sec l d =
    search_on (look_in g name sec (read_sector g sec d) l)
      (λ l'. sector_loop n g name ((sec + 1) % u32_mod) l' d)

-- The answer of a group, or that of the `rest` of the groups.
unfoldable pub find_further : Found → (LongName → Option Found) → Option Found
find_further no_such_file rest = some no_such_file
find_further (found p) rest = some (found p)
find_further read_error rest = some read_error
find_further (onwards l) rest = rest l

-- The loop over the clusters of a directory; `none` is no behaviour of the code.
unfoldable pub find_chain :
    (fuel : ℕ) → FatInfo → (name : List ℕ) (cluster : ℕ) → LongName → Disk → Option Found
find_chain zero g name c l d = none
find_chain (suc fuel) g name c l d =
    if in_chain g c
    then find_further (sector_loop g.sectors_per_cluster g name (cluster_to_sector g c) l d)
        (λ l'. find_chain fuel g name (next_cluster g d c) l' d)
    else some no_such_file

abbrev pub no_long_name : LongName
no_long_name = record { accum = λ i. 0; valid = false; sector = 0; offset = 0 }

-- `FatFindEntry`
unfoldable pub find_entry :
    (fuel : ℕ) → FatInfo → (dir_cluster : ℕ) (name : List ℕ) → Disk → Option Found
find_entry fuel g dir name d =
    if is_fixed_root g.type dir
    then find_further (sector_loop g.root_dir_sectors g name g.root_dir_start_sector no_long_name d)
        (λ l. some no_such_file)
    else find_chain fuel g name dir no_long_name d
