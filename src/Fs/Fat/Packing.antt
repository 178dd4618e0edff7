-- ===== src/Fs/Fat/Packing.antt =====
-- The entries of a table of bytes: an entry that is stored is read back, and no other entry changes,
-- although two entries of a FAT12 share a byte.
use vibecoded_os.Prelude.{
  ℕ, ◌+◌, ◌*◌, ◌/◌, ◌%◌, ◌^◌, ◌≤◌, ◌<◌, ◌≡◌, ◌≢◌, ◌⊎◌, refl, true, false, ◌==◌, if◌then◌else◌,
  u32_mod, arith, Bool-cases, inl, inr,
}
use vibecoded_os.Fs.Fat.{
  FatType, fat12, fat16, fat32, read16, read32, write8, write32, entry_at, unpack12, low12, high12,
}
use vibecoded_os.Fs.Fat.Table.{table_entry, table_set}

-- What an entry of the type keeps of a value.
unfoldable pub entry_value : FatType → ℕ → ℕ
entry_value fat12 v = v % 2 ^ 12
entry_value fat16 v = v % 2 ^ 16
entry_value fat32 v = v % 2 ^ 28

-- A u32 and its four bytes.
read32_bytes :
    (v : ℕ)
    → v < u32_mod
    → v % 2 ^ 8
        + v / 2 ^ 8 % 2 ^ 8 * 2 ^ 8
        + v / 2 ^ 16 % 2 ^ 8 * 2 ^ 16
        + v / 2 ^ 24 % 2 ^ 8 * 2 ^ 24
      ≡ v
read32_bytes v h = omega arith

read32-write32 : (t : ℕ → ℕ) (at v : ℕ) → v < u32_mod → read32 (write32 t at v) at ≡ v
read32-write32 t at v h =
    let e0 : write32 t at v at ≡ v % 2 ^ 8 = ground arith in
    let e1 : write32 t at v (at + 1) ≡ v / 2 ^ 8 % 2 ^ 8 = ground arith in
    let e2 : write32 t at v (at + 2) ≡ v / 2 ^ 16 % 2 ^ 8 = ground arith in
    let e3 : write32 t at v (at + 3) ≡ v / 2 ^ 24 % 2 ^ 8 = ground arith in
    omega (arith, e0, e1, e2, e3, read32_bytes v h)

-- Outside the four bytes written, a store of a u32 changes nothing.
write32_other : (t : ℕ → ℕ) (at v i : ℕ) → (i < at) ⊎ (at + 4 ≤ i) → write32 t at v i ≡ t i
write32_other t at v i h = ground arith

read32-write32_other :
    (t : ℕ → ℕ) (at v at' : ℕ)
    → (at' + 4 ≤ at) ⊎ (at + 4 ≤ at')
    → read32 (write32 t at v) at' ≡ read32 t at'
read32-write32_other t at v at' h =
    let e0 = write32_other t at v at' (ground arith) in
    let e1 = write32_other t at v (at' + 1) (ground arith) in
    let e2 = write32_other t at v (at' + 2) (ground arith) in
    let e3 = write32_other t at v (at' + 3) (ground arith) in rw (e0, e1, e2, e3) refl

-- The bytes of a FAT12 entry, read back.
unpack12_same :
    (c v b0 b1 : ℕ)
    → b0 < 256
    → b1 < 256
    → unpack12 c (low12 c v b0 + high12 c v b1 * 2 ^ 8) ≡ v % 2 ^ 12
unpack12_same c v b0 b1 h0 h1 = ground arith

-- The entry behind an even one has its low nibble in the byte they share.
unpack12_after :
    (c c' v b1 b2 : ℕ)
    → c % 2 ≡ 0
    → c' % 2 ≡ 1
    → b1 < 256
    → unpack12 c' (high12 c v b1 + b2 * 2 ^ 8) ≡ unpack12 c' (b1 + b2 * 2 ^ 8)
unpack12_after c c' v b1 b2 e e' h = ground arith

-- The entry before an odd one has its high nibble in the byte they share.
unpack12_before :
    (c c' v b0 b1 : ℕ)
    → c % 2 ≡ 1
    → c' % 2 ≡ 0
    → b0 < 256
    → b1 < 256
    → unpack12 c' (b0 + low12 c v b1 * 2 ^ 8) ≡ unpack12 c' (b0 + b1 * 2 ^ 8)
unpack12_before c c' v b0 b1 e e' h0 h1 = ground arith

module _ (table : ℕ → ℕ) (h : (i : ℕ) → table i < 256) (c c' v : ℕ) where
  -- The table after a FAT12 entry is stored at `at`.
  abbrev stored12 : (at : ℕ) → ℕ → ℕ
  stored12 at =
      write8 (write8 table at (low12 c v (table at))) (at + 1) (high12 c v (table (at + 1)))

  stored12_first : (at : ℕ) → stored12 at at ≡ low12 c v (table at)
  stored12_first at = ground arith

  stored12_second : (at : ℕ) → stored12 at (at + 1) ≡ high12 c v (table (at + 1))
  stored12_second at = ground arith

  stored12_other : (at i : ℕ) → i ≢ at → i ≢ at + 1 → stored12 at i ≡ table i
  stored12_other at i e e' = ground arith

  stored12_lem :
      (at at' : ℕ)
      → (c' ≡ c) × (at' ≡ at)
        ⊎ ((c % 2 ≡ 0) × (c' % 2 ≡ 1) × (at' ≡ at + 1))
        ⊎ ((c % 2 ≡ 1) × (c' % 2 ≡ 0) × (at' + 1 ≡ at))
        ⊎ ((c' ≢ c) × ((at' + 1 < at) ⊎ (at + 1 < at')))
      → unpack12 c' (read16 (stored12 at) at')
        ≡ (if c' == c then v % 2 ^ 12 else unpack12 c' (read16 table at'))
  stored12_lem at at' (inl (e, q)) =
      let t : (c' == c) ≡ true = ground (arith, e) in
      rw (q, t, e, stored12_first at, stored12_second at)
        (unpack12_same c v (table at) (table (at + 1)) (h at) (h (at + 1)))
  stored12_lem at at' (inr (inl (e, e', q))) =
      let t : (c' == c) ≡ false = ground (arith, e, e') in
      let o = stored12_other at (at + 1 + 1) (omega arith) (omega arith) in
      rw (t, q, stored12_second at, o)
        (unpack12_after c c' v (table (at + 1)) (table (at + 1 + 1)) e e' (h (at + 1)))
  stored12_lem at at' (inr (inr (inl (e, e', q)))) =
      let t : (c' == c) ≡ false = ground (arith, e, e') in
      let o = stored12_other at at' (omega (arith, q)) (omega (arith, q)) in
      rw (t, q, stored12_first at, o)
        (unpack12_before c c' v (table at') (table at) e e' (h at') (h at))
  stored12_lem at at' (inr (inr (inr (e, q)))) =
      let t : (c' == c) ≡ false = ground (arith, e) in
      let o = stored12_other at at' (ground (arith, q)) (ground (arith, q)) in
      let o' = stored12_other at (at' + 1) (ground (arith, q)) (ground (arith, q)) in
      rw (t, o, o') refl

pub table_entry-table_set :
    (t : FatType) (table : ℕ → ℕ) (c c' v : ℕ)
    → ((i : ℕ) → table i < 256)
    → c * 4 < u32_mod
    → c' * 4 < u32_mod
    → table_entry t c' (table_set t c v table)
      ≡ (if c' == c then entry_value t v else table_entry t c' table)
unfolding table_entry table_set entry_value
table_entry-table_set fat12 table c c' v h hc hc' =
    stored12_lem table h c c' v (entry_at fat12 c) (entry_at fat12 c') (ground arith)
table_entry-table_set fat16 table c c' v h hc hc' =
    let at = entry_at fat16 c in
    let at' = entry_at fat16 c' in ground (arith, h at, h (at + 1), h at', h (at' + 1))
table_entry-table_set fat32 table c c' v h hc hc' =
    let at = entry_at fat32 c in
    elim (Bool-cases (c' == c)) [
      | inl e ↦
          let q : c' ≡ c = ground (arith, e) in
          let w = read32 table at / 2 ^ 28 * 2 ^ 28 + v % 2 ^ 28 in
          let r =
            read32-write32 table at w (omega (arith, h at, h (at + 1), h (at + 2), h (at + 3))) in
          rw (e, q, r) (omega arith)
      | inr e ↦ rw (e, read32-write32_other table at _ (entry_at fat32 c') (ground (arith, e))) refl
    ]
