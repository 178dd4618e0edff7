-- ===== src/Fs/Fat/Files/Whole.antt =====
-- The two readers of fat32.c agree: the loops of Fat32ReadFile, and those of Fat32ReadFileAt that
-- leave nothing out.
use vibecoded_os.Prelude.{
  ℕ, zero, suc, ◌+◌, ◌-◌, ◌%◌, ◌≡◌, refl, false, leb, ◌==◌, min, u32_mod, arith, Bool-cases,
  Option-cases, inl, inr,
}
use vibecoded_os.Fs.Fat.{FatInfo, Disk, read_sector, cluster_to_sector, next_cluster}
use vibecoded_os.Fs.Fat.Table.{IsVolume}
use vibecoded_os.Fs.Fat.Files.{read_cluster, read_cluster_at, read_chain, read_chain_at}

module _ (g : FatInfo) (vol : IsVolume g) (d : Disk) where
  read_cluster_at-zero :
      (n sec rem : ℕ) → read_cluster_at n g sec 0 rem d ≡ (read_cluster n g sec rem d, 0)
  unfolding read_cluster_at read_cluster
  read_cluster_at-zero zero sec rem = refl
  read_cluster_at-zero (suc n) sec rem =
      let b = vol.sector_size in
      let w : leb g.bytes_per_sector 0 ≡ false = ground (arith, b) in
      let k : g.bytes_per_sector - 0 ≡ g.bytes_per_sector = omega arith in
      let rec = read_cluster_at-zero n ((sec + 1) % u32_mod) (rem - min rem g.bytes_per_sector) in
      elim (Bool-cases (rem == 0)) [
        | inl e ↦ rw e refl
        | inr e ↦ elim (Option-cases (read_sector g sec d)) [
          | inl q ↦ rw (e, q) refl
          | inr (buf, q) ↦ rw (e, q, w, k, rec) refl
        ]
      ]

  -- On every drive, whether it fails or not, and for every number of rounds, the loops of
  -- Fat32ReadFileAt with nothing to leave out copy the same bytes, stop at the same error and have
  -- the same count left as the loops of Fat32ReadFile.
  pub read_chain_at-read_chain :
      (fuel c rem : ℕ) → read_chain_at fuel g c 0 rem d ≡ read_chain fuel g c rem d
  unfolding read_chain_at read_chain
  read_chain_at-read_chain zero c rem = refl
  read_chain_at-read_chain (suc fuel) c rem =
      let sec = cluster_to_sector g c in
      let one = read_cluster_at-zero g.sectors_per_cluster sec rem in
      let chunk = read_cluster g.sectors_per_cluster g sec rem d in
      rw (one, read_chain_at-read_chain fuel (next_cluster g d c) chunk.remaining) refl
