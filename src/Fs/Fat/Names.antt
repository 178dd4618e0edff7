-- ===== src/Fs/Fat/Names.antt =====
-- Kernel/fs/fat32.c: the names of directory entries, short and long. A string is the list of its
-- characters without the NUL; a short name is a function from offsets to its 11 characters.
pub mod Long
use vibecoded_os.Prelude.{
  ℕ, zero, suc, ◌+◌, ◌-◌, ◌*◌, ◌/◌, ◌%◌, ◌^◌, Bool, true, false, not, Option, none, some, List, [],
  ◌∷◌, ◌++◌, ◌&&◌, ◌||◌, ltb, leb, ◌==◌, if◌then◌else◌, get_or, take, drop, length, u8_mod, u32_mod,
}
use vibecoded_os.Fs.Fat.{Sector, read16, write16, write8}

-- `FAT_ATTR_LFN`
abbrev pub attr_lfn : ℕ
attr_lfn = 0x0f

-- The offsets of the 13 characters of a long name in a directory entry, in their order.
abbrev pub lfn_offsets : List ℕ
lfn_offsets = 1 ∷ 3 ∷ 5 ∷ 7 ∷ 9 ∷ 14 ∷ 16 ∷ 18 ∷ 20 ∷ 22 ∷ 24 ∷ 28 ∷ 30 ∷ []

-- `chars[i]` of `FatFormatLfnEntry`, for `idx = name_offset + i`
unfoldable pub lfn_char : (name : List ℕ) (name_len idx : ℕ) → ℕ
lfn_char name len idx = if ltb idx len then get_or name idx 0 else if idx == len then 0 else 0xffff

-- The 13 stores `*(u16*)(entry + at) = chars[i]`
unfoldable pub put_chars : (ats : List ℕ) (name : List ℕ) (name_len idx : ℕ) → Sector → Sector
put_chars [] name len idx entry = entry
put_chars (at ∷ ats) name len idx entry =
    put_chars ats name len (idx + 1) (write16 entry at (lfn_char name len idx))

-- `FatFormatLfnEntry`
unfoldable pub format_lfn_entry : (name : List ℕ) (seq checksum name_offset name_len : ℕ) → Sector
format_lfn_entry name seq checksum off len =
    let empty : Sector = λ i. 0 in
    let head =
      write16 (write8 (write8 (write8 (write8 empty 0 seq) 11 attr_lfn) 12 0) 13 checksum) 26 0 in
    put_chars lfn_offsets name len off head

-- The local array `chars` of `FatExtractLfn`
unfoldable pub get_chars : (ats : List ℕ) → Sector → List ℕ
get_chars [] raw = []
get_chars (at ∷ ats) raw = read16 raw at ∷ get_chars ats raw

-- The loop of `FatExtractLfn` from the position `pos` on
unfoldable pub extract_chars : (chars : List ℕ) (pos size : ℕ) → Sector → Sector
extract_chars [] pos size buf = buf
extract_chars (c ∷ cs) pos size buf =
    let rest = extract_chars cs (pos + 1) size (write8 buf pos (c % u8_mod)) in
    if leb (size - 1) pos then buf else if c == 0 || c == 0xffff then write8 buf pos 0 else rest

-- `FatExtractLfn` of the entry `raw`; `size` is `lfn_buf_size`. `seq - 1` wraps around for the
-- sequence number 0.
unfoldable pub extract_lfn : (raw : Sector) (size : ℕ) → Sector → Sector
extract_lfn raw size buf =
    let seq = raw 0 % 2 ^ 6 in
    let base = (seq + u32_mod - 1) % u32_mod * 13 % u32_mod in
    extract_chars (get_chars lfn_offsets raw) base size buf

-- `FatComputeChecksum`, with `i` characters left
unfoldable pub checksum_loop : (i sum : ℕ) → Sector → ℕ
checksum_loop zero sum short = sum
checksum_loop (suc i) sum short =
    checksum_loop i (((if sum % 2 == 1 then 0x80 else 0) + sum / 2 + short (10 - i)) % u8_mod) short

unfoldable pub compute_checksum : (short : Sector) → ℕ
compute_checksum short = checksum_loop 11 0 short

-- The last dot of a name: the characters before it and those behind it.
unfoldable pub split_last_dot : List ℕ → Option (List ℕ × List ℕ)
split_last_dot [] = none
split_last_dot (c ∷ cs) = elim (split_last_dot cs) [
  | some (base, ext) ↦ some (c ∷ base, ext)
  | none ↦ if c == b'.' then some ([], cs) else none
]

-- `if (c >= 'a' && c <= 'z') c = c - 32; else if (c == ' ') c = '_';`
unfoldable pub short_char : ℕ → ℕ
short_char c = if leb b'a' c && leb c b'z' then c - 32 else if c == b' ' then b'_' else c

-- The characters of `cs` from `at` on, as the loops of `FatGenerateShortName` store them.
unfoldable pub put_short : (cs : List ℕ) (at : ℕ) → Sector → Sector
put_short [] at short = short
put_short (c ∷ cs) at short = put_short cs (at + 1) (write8 short at (short_char c))

-- `FatGenerateShortName`
unfoldable pub generate_short_name : (long : List ℕ) → Sector
generate_short_name long =
    let blank : Sector = λ i. b' ' in
    elim (split_last_dot long) [
      | none ↦ put_short (take 8 long) 0 blank
      | some (base, ext) ↦ put_short (take 3 ext) 8 (put_short (take 8 base) 0 blank)
    ]

-- The entries of a long name in the order in which `FatWriteDirectoryEntries` writes them, `k` of
-- `total` still to come: the last part first, marked with 0x40.
unfoldable pub lfn_entries_from : (k : ℕ) (name : List ℕ) (checksum total : ℕ) → List Sector
lfn_entries_from zero name sum total = []
lfn_entries_from (suc k) name sum total =
    let seq = if k + 1 == total then k + 1 + 0x40 else k + 1 in
    format_lfn_entry name seq sum (k * 13) (length name) ∷ lfn_entries_from k name sum total

-- `lfn_entries = (RtStrLen(long_name) + 12) / 13`
unfoldable pub lfn_count : List ℕ → ℕ
lfn_count name = (length name + 12) / 13

unfoldable pub lfn_entries : (name : List ℕ) (checksum : ℕ) → List Sector
lfn_entries name sum = lfn_entries_from (lfn_count name) name sum (lfn_count name)

-- `FatExtractLfn` of one entry after the other, as `Fat32ReadDir` and `FatFindEntry` meet them.
unfoldable pub collect_lfn : List Sector → (size : ℕ) → Sector → Sector
collect_lfn [] size buf = buf
collect_lfn (raw ∷ raws) size buf = collect_lfn raws size (extract_lfn raw size buf)
