-- ===== src/Fs/Fat/Records.antt =====
-- Kernel/fs/fat32.c: the directory entry with a short name, as it is written and as it is read.
pub mod RoundTrip
use vibecoded_os.Prelude.{
  ℕ, zero, suc, ◌+◌, ◌-◌, ◌*◌, ◌/◌, ◌%◌, ◌^◌, Bool, true, false, not, Option, none, some, List, [],
  ◌∷◌, ◌++◌, ◌&&◌, ◌||◌, ltb, leb, ◌==◌, if◌then◌else◌, get_or, length, u8_mod, u16_mod, u32_mod,
}
use vibecoded_os.Prelude.Bits.{test_bit}
use vibecoded_os.Fs.Fat.{
  FatType, fat12, fat16, fat32, Sector, read16, read32, write8, write16, write32,
}

-- `FatDirEntry` of a short name; `is_long_name` is the constructor `long_name` of `Parsed`.
pub record DirEntry : Type 0 where
  pub name : List ℕ
  pub first_cluster : ℕ
  pub file_size : ℕ
  pub is_directory : Bool
  pub is_readonly : Bool
  pub is_hidden : Bool
  pub is_system : Bool
  pub is_volume_label : Bool
  pub attributes : ℕ

-- What `FatParseDirEntry` makes of an entry: `STATUS_NOT_FOUND` for a free one.
pub data Parsed : Type 0 where
  not_found : Parsed
  long_name : Parsed
  entry : DirEntry → Parsed

-- `raw[i] >= 'A' && raw[i] <= 'Z' ? raw[i] + 32 : raw[i]`
abbrev pub lower_char : ℕ → ℕ
lower_char c = if leb b'A' c && leb c b'Z' then c + 32 else c

-- The characters from `at` on, `n` at most, up to a blank.
unfoldable pub name_part : (n at : ℕ) → Sector → List ℕ
name_part zero at raw = []
name_part (suc n) at raw =
    let rest = name_part n (at + 1) raw in if raw at == b' ' then [] else lower_char (raw at) ∷ rest

-- The name of a short entry, in lower case
unfoldable pub display_name : Sector → List ℕ
display_name raw =
    if raw 8 == b' ' then name_part 8 0 raw else name_part 8 0 raw ++ (b'.' ∷ name_part 3 8 raw)

-- `g_fat.type == FAT_TYPE_32 ? *(u16*)(raw + 20) : 0`
abbrev pub cluster_hi : FatType → Sector → ℕ
cluster_hi fat12 raw = 0
cluster_hi fat16 raw = 0
cluster_hi fat32 raw = read16 raw 20

-- `FatParseDirEntry`
unfoldable pub parse_dir_entry : FatType → Sector → Parsed
parse_dir_entry t raw =
    let attr = raw 11 in
    if raw 0 == 0 || raw 0 == 0xe5
    then not_found
    else if attr % 2 ^ 4 == 0x0f
    then long_name
    else entry (record {
      name = display_name raw;
      first_cluster = cluster_hi t raw * 2 ^ 16 + read16 raw 26;
      file_size = read32 raw 28;
      is_directory = test_bit attr 4;
      is_readonly = test_bit attr 0;
      is_hidden = test_bit attr 1;
      is_system = test_bit attr 2;
      is_volume_label = test_bit attr 3;
      attributes = attr;
    })

-- `RtMemSet(entry_buf, 0, 32); RtMemCopy(entry_buf, short_name, 11);`
abbrev pub short_part : (short : Sector) → Sector
short_part short = λ i. if ltb i 11 then short i else 0

-- The stores of the first cluster in `FatWriteDirectoryEntries`
abbrev pub put_cluster : FatType → (first_cluster : ℕ) → Sector → Sector
put_cluster fat12 c buf = write16 (write8 (write8 buf 20 0) 21 0) 26 (c % 2 ^ 16)
put_cluster fat16 c buf = write16 (write8 (write8 buf 20 0) 21 0) 26 (c % 2 ^ 16)
put_cluster fat32 c buf = write16 (write16 buf 20 (c / 2 ^ 16)) 26 (c % 2 ^ 16)

-- The last entry that `FatWriteDirectoryEntries` writes, the one with the short name.
unfoldable pub short_entry : FatType → (short : Sector) (attr first_cluster size : ℕ) → Sector
short_entry t short attr c size =
    let head = write8 (write8 (write8 (short_part short) 11 attr) 12 0) 13 0 in
    write32 (put_cluster t c head) 28 size
