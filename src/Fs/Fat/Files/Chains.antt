-- ===== src/Fs/Fat/Files/Chains.antt =====
-- The last loop of Fat32ReadFileAt of fat32.c copies the bytes of a chain of clusters.
use vibecoded_os.Prelude.{
  ℕ, zero, suc, ◌+◌, ◌-◌, ◌*◌, ◌≤◌, ◌<◌, ◌≡◌, refl, sym, ap, true, false, some, List, [], ◌∷◌, ◌++◌,
  ◌==◌, min, length, take, drop, u32_mod, arith, Bool-cases, inl, inr, length-drop,
}
use vibecoded_os.Fs.Fat.{
  FatType, fat12, fat16, fat32, FatInfo, Disk, cluster_to_sector, next_cluster, get_fat_entry,
  eof_marker,
}
use vibecoded_os.Fs.Fat.Table.{IsVolume, IsHealthy}
use vibecoded_os.Fs.Fat.Clusters.Free.{IsChain, ends, link}
use vibecoded_os.Fs.Fat.Files.{read_cluster_at, and_more, read_chain_at, is_data}
use vibecoded_os.Fs.Fat.Files.Contents.{
  sector_bytes, chain_bytes, length-sector_bytes, take-append, drop-append, read_cluster_at_lem,
  read_cluster_at_skip,
}

-- The sectors of every cluster of the list have numbers that do not wrap around.
pub data AllInData (g : FatInfo) : List ℕ → Type 0 where
  none_left : AllInData g []
  one_more :
      {c : ℕ} {cs : List ℕ}
      → cluster_to_sector g c + g.sectors_per_cluster < u32_mod
      → AllInData g cs
      → AllInData g (c ∷ cs)

eof_marker_le : (g : FatInfo) → eof_marker g ≤ 0xffffff8
unfolding eof_marker
eof_marker_le g = go g.type
  where
    go : (t : FatType) → elim t [ fat12 ↦ 0xff8 | fat16 ↦ 0xfff8 | fat32 ↦ 0xffffff8 ] ≤ 0xffffff8
    go fat12 = omega arith
    go fat16 = omega arith
    go fat32 = omega arith

pub take-min : (n : ℕ) (xs : List ℕ) → take (min n (length xs)) xs ≡ take n xs
take-min zero xs = let e : min 0 (length xs) ≡ 0 = omega arith in rw e refl
take-min (suc n) [] = let e : min (suc n) 0 ≡ 0 = omega arith in rw e refl
take-min (suc n) (x ∷ xs) =
    let e : min (suc n) (suc (length xs)) ≡ suc (min n (length xs)) = omega arith in
    rw e (ap (λ r. x ∷ r) (take-min n xs))

-- The bytes of a cluster, then those of the next ones.
pub part_step :
    (rem skip : ℕ) (xs ys : List ℕ)
    → skip ≤ length xs
    → take rem (drop skip xs) ++ take (rem - (length xs - skip)) ys
      ≡ take rem (drop skip (xs ++ ys))
part_step rem skip xs ys h =
    let zs = drop skip xs in
    let e = drop-append skip xs ys in
    let z : skip - length xs ≡ 0 = omega (arith, h) in
    let l = length-drop skip xs in
    let t = take-append rem zs ys in let m = take-min rem zs in rw (e, z, t, m, l) refl

module _ (g : FatInfo) (vol : IsVolume g) (d : Disk) (ok : IsHealthy d) where
  abbrev cluster_size : ℕ
  cluster_size = g.sectors_per_cluster * 512

  read_chain_at_stop :
      (fuel c skip : ℕ)
      → read_chain_at (suc fuel) g c skip 0 d
        ≡ some (record { ok = true; bytes = []; remaining = 0 })
  unfolding read_chain_at
  read_chain_at_stop fuel c skip = elim (Bool-cases (is_data c)) [
    | inl e ↦ rw e refl
    | inr e ↦ rw e refl
  ]

  pub is_data-cluster : (c : ℕ) → 2 ≤ c → c < eof_marker g → is_data c ≡ true
  is_data-cluster c a b = let m = eof_marker_le g in ground (arith, a, b, m)

  -- One round of the loop over the clusters.
  read_chain_at_round :
      (fuel c skip rem : ℕ)
      → 2 ≤ c
      → c < eof_marker g
      → (rem == 0) ≡ false
      → cluster_to_sector g c + g.sectors_per_cluster < u32_mod
      → read_chain_at (suc fuel) g c skip rem d
        ≡ and_more
            (record {
              ok = true;
              bytes =
                  take rem
                    (drop skip (sector_bytes g.sectors_per_cluster g d (cluster_to_sector g c)));
              remaining = rem - (cluster_size - skip);
            })
            (read_chain_at fuel g
              (next_cluster g d c)
              (read_cluster_at g.sectors_per_cluster g (cluster_to_sector g c) skip rem d).1
              (rem - (cluster_size - skip))
              d)
  unfolding read_chain_at
  read_chain_at_round fuel c skip rem a b e f =
      rw
        (
          is_data-cluster c a b,
          e,
          read_cluster_at_lem g vol d ok g.sectors_per_cluster (cluster_to_sector g c) skip rem f,
        )
        refl

  -- The bytes of a cluster and of those behind it, in terms of the cluster's size.
  cluster_step :
      (c : ℕ) (cs : List ℕ) (skip rem : ℕ)
      → skip < cluster_size
      → (let bytes = sector_bytes g.sectors_per_cluster g d (cluster_to_sector g c) in
          take rem (drop skip bytes) ++ take (rem - (cluster_size - skip)) (chain_bytes g d cs)
          ≡ take rem (drop skip (bytes ++ chain_bytes g d cs)))
  cluster_step c cs skip rem s =
      let sec = cluster_to_sector g c in
      let bytes = sector_bytes g.sectors_per_cluster g d sec in
      let l = length-sector_bytes g.sectors_per_cluster g d sec in
      let p = part_step rem skip bytes (chain_bytes g d cs) (omega (arith, l, s)) in rw (sym l) p

  -- Where nothing is left to copy behind the cluster, the next round ends the loop.
  read_chain_at_last :
      (fuel c skip rem : ℕ) (cs : List ℕ)
      → 2 ≤ c
      → c < eof_marker g
      → (rem == 0) ≡ false
      → cluster_to_sector g c + g.sectors_per_cluster < u32_mod
      → skip < cluster_size
      → rem - (cluster_size - skip) ≡ 0
      → read_chain_at (suc (suc fuel)) g c skip rem d
        ≡ some (record {
          ok = true;
          bytes = take rem (drop skip (chain_bytes g d (c ∷ cs)));
          remaining = 0;
        })
  unfolding and_more chain_bytes
  read_chain_at_last fuel c skip rem cs a b e f s z =
      let step = cluster_step c cs skip rem s in
      rw
        (
          read_chain_at_round (suc fuel) c skip rem a b e f,
          z,
          read_chain_at_stop fuel (next_cluster g d c)
              (read_cluster_at g.sectors_per_cluster g (cluster_to_sector g c) skip rem d).1,
          sym step,
          z,
        )
        refl

  pub next_cluster_lem :
      (c : ℕ) → get_fat_entry g d c < eof_marker g → next_cluster g d c ≡ get_fat_entry g d c
  unfolding next_cluster
  next_cluster_lem c h = ground (arith, h)

  pub read_chain_at_lem :
      (fuel : ℕ) (cs : List ℕ) (c skip rem : ℕ)
      → length cs < fuel
      → IsChain (eof_marker g) (get_fat_entry g d) c cs
      → AllInData g cs
      → skip < cluster_size
      → rem + skip ≤ length cs * cluster_size
      → read_chain_at fuel g c skip rem d
        ≡ some
            (record { ok = true; bytes = take rem (drop skip (chain_bytes g d cs)); remaining = 0 })
  unfolding and_more chain_bytes
  read_chain_at_lem zero cs c skip rem f chain all s b = absurd (omega (arith, f))
  read_chain_at_lem (suc zero) cs c skip rem f none_all none_left s b = elim none_all [ ]
  read_chain_at_lem (suc zero) cs c skip rem f chain (one_more h all) s b =
      absurd (omega (arith, f))
  read_chain_at_lem (suc (suc fuel)) cs c skip rem f chain none_left s b = elim chain [ ]
  read_chain_at_lem (suc (suc fuel)) cs c skip rem f (ends a a' last) (one_more h all) s b =
      elim (Bool-cases (rem == 0)) [
        | inl e ↦ let q : rem ≡ 0 = ground (arith, e) in rw q (read_chain_at_stop (suc fuel) c skip)
        | inr e ↦ read_chain_at_last fuel c skip rem [] a a' e h s (omega (arith, b))
      ]
  read_chain_at_lem (suc (suc fuel)) cs c skip rem f (link {cs = rest} a a' n n' o chain)
        (one_more h all) s b =
      let left = rem - (cluster_size - skip) in
      elim (Bool-cases (rem == 0)) [
        | inl e ↦ let q : rem ≡ 0 = ground (arith, e) in rw q (read_chain_at_stop (suc fuel) c skip)
        | inr e ↦ elim (Bool-cases (left == 0)) [
          | inl z ↦ read_chain_at_last fuel c skip rem rest a a' e h s (ground (arith, z))
          | inr z ↦
              let m : suc (length rest) * cluster_size ≡ length rest * cluster_size + cluster_size =
                omega arith in
              let k =
                read_cluster_at_skip g vol d ok g.sectors_per_cluster (cluster_to_sector g c) skip
                  rem h (ground (arith, z)) in
              let k' : skip - cluster_size ≡ 0 = omega (arith, s) in
              let rec =
                read_chain_at_lem (suc fuel) rest (get_fat_entry g d c) 0 left (omega (arith, f))
                  chain all (omega (arith, s)) (omega (arith, b, m, s)) in
              let step = cluster_step c rest skip rem s in
              rw
                (
                  read_chain_at_round (suc fuel) c skip rem a a' e h,
                  k,
                  k',
                  next_cluster_lem c n',
                  rec,
                  sym step,
                )
                refl
        ]
      ]
