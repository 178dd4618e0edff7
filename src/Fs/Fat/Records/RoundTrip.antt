-- ===== src/Fs/Fat/Records/RoundTrip.antt =====
-- A directory entry that FatWriteDirectoryEntries of fat32.c makes is what FatParseDirEntry reads.
use vibecoded_os.Prelude.{
  ℕ, zero, suc, ◌+◌, ◌*◌, ◌%◌, ◌^◌, ◌≤◌, ◌<◌, ◌≡◌, ◌≢◌, refl, false, ◌||◌, ◌==◌, u32_mod, arith,
}
use vibecoded_os.Prelude.Bits.{test_bit}
use vibecoded_os.Fs.Fat.{FatType, fat12, fat16, fat32, Sector, read16, read32}
use vibecoded_os.Fs.Fat.Records.{
  entry, name_part, display_name, cluster_hi, parse_dir_entry, short_entry,
}

-- The cluster numbers that an entry can hold.
abbrev pub cluster_limit : FatType → ℕ
cluster_limit fat12 = 2 ^ 16
cluster_limit fat16 = 2 ^ 16
cluster_limit fat32 = 2 ^ 32

name_part_ap :
    (n at : ℕ) (a b : Sector)
    → ((i : ℕ) → at ≤ i → i < at + n → a i ≡ b i)
    → name_part n at a ≡ name_part n at b
unfolding name_part
name_part_ap zero at a b e = refl
name_part_ap (suc n) at a b e =
    rw
      (
        e at (omega arith) (omega arith),
        name_part_ap n (at + 1) a b (λ i l r. e i (omega (arith, l)) (omega (arith, r))),
      )
      refl

display_name_ap : (a b : Sector) → ((i : ℕ) → i < 11 → a i ≡ b i) → display_name a ≡ display_name b
unfolding display_name
display_name_ap a b e =
    rw
      (
        e 8 (omega arith),
        name_part_ap 8 0 a b (λ i l r. e i (omega (arith, r))),
        name_part_ap 3 8 a b (λ i l r. e i (omega (arith, r))),
      )
      refl

-- The bytes of the short name are the entry's.
short_entry-name :
    (t : FatType) (short : Sector) (attr c size i : ℕ)
    → i < 11
    → short_entry t short attr c size i ≡ short i
unfolding short_entry
short_entry-name fat12 short attr c size i h = ground (arith, h)
short_entry-name fat16 short attr c size i h = ground (arith, h)
short_entry-name fat32 short attr c size i h = ground (arith, h)

short_entry-attr :
    (t : FatType) (short : Sector) (attr c size : ℕ) → short_entry t short attr c size 11 ≡ attr
unfolding short_entry
short_entry-attr fat12 short attr c size = refl
short_entry-attr fat16 short attr c size = refl
short_entry-attr fat32 short attr c size = refl

cluster_hi-short_entry :
    (t : FatType) (short : Sector) (attr c size : ℕ)
    → c < cluster_limit t
    → cluster_hi t (short_entry t short attr c size) * 2 ^ 16
        + read16 (short_entry t short attr c size) 26
      ≡ c
unfolding short_entry
cluster_hi-short_entry fat12 short attr c size h = omega (arith, h)
cluster_hi-short_entry fat16 short attr c size h = omega (arith, h)
cluster_hi-short_entry fat32 short attr c size h = omega (arith, h)

size-short_entry :
    (t : FatType) (short : Sector) (attr c size : ℕ)
    → size < u32_mod
    → read32 (short_entry t short attr c size) 28 ≡ size
unfolding short_entry
size-short_entry fat12 short attr c size h = omega (arith, h)
size-short_entry fat16 short attr c size h = omega (arith, h)
size-short_entry fat32 short attr c size h = omega (arith, h)

-- A used entry with a short name, as FatWriteDirectoryEntries makes it from a name, attributes that
-- are not those of a long name, a cluster that the FAT type can hold and a size, is read by
-- FatParseDirEntry with the cluster, the size and the attributes it was made with, and with the
-- characters of the short name in lower case.
pub parse_dir_entry-short_entry :
    (t : FatType) (short : Sector) (attr c size : ℕ)
    → short 0 ≢ 0
    → short 0 ≢ 0xe5
    → attr % 2 ^ 4 ≢ 0x0f
    → c < cluster_limit t
    → size < u32_mod
    → parse_dir_entry t (short_entry t short attr c size)
      ≡ entry (record {
        name = display_name short;
        first_cluster = c;
        file_size = size;
        is_directory = test_bit attr 4;
        is_readonly = test_bit attr 0;
        is_hidden = test_bit attr 1;
        is_system = test_bit attr 2;
        is_volume_label = test_bit attr 3;
        attributes = attr;
      })
unfolding parse_dir_entry
parse_dir_entry-short_entry t short attr c size h h' a b s =
    let raw = short_entry t short attr c size in
    let used : (raw 0 == 0 || raw 0 == 0xe5) ≡ false =
      let q = short_entry-name t short attr c size 0 (omega arith) in ground (arith, q, h, h') in
    let kind : (raw 11 % 2 ^ 4 == 0x0f) ≡ false =
      let q = short_entry-attr t short attr c size in ground (arith, q, a) in
    rw
      (
        used,
        kind,
        short_entry-attr t short attr c size,
        cluster_hi-short_entry t short attr c size b,
        size-short_entry t short attr c size s,
        display_name_ap raw short (short_entry-name t short attr c size),
      )
      refl
