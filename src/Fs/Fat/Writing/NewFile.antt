-- ===== src/Fs/Fat/Writing/NewFile.antt =====
-- The third step of Fat32WriteFile of fat32.c: a new file gets clusters, and its data is in them.
use vibecoded_os.Prelude.{
  ℕ, zero, suc, ◌+◌, ◌-◌, ◌*◌, ◌/◌, ◌%◌, ◌≤◌, ◌<◌, ◌≡◌, refl, sym, ap, ◌∙◌, true, false, some, List,
  [], ◌∷◌, ◌==◌, length, u32_mod, arith,
}
use vibecoded_os.Fs.Fat.{FatInfo, Disk, eof_marker}
use vibecoded_os.Fs.Fat.Table.{IsVolume, IsHealthy, InFat}
use vibecoded_os.Fs.Fat.Clusters.{max_cluster}
use vibecoded_os.Fs.Fat.Clusters.Allocate.{IsCovered}
use vibecoded_os.Fs.Fat.Clusters.Free.{elem, AllInFat}
use vibecoded_os.Fs.Fat.Clusters.Free as Free
use vibecoded_os.Fs.Fat.Files.{read_file}
use vibecoded_os.Fs.Fat.Writing.{
  Reserved, Written, DataWritten, written, reserve_loop, clusters_needed, write_chain,
  write_reserved, write_data,
}
use vibecoded_os.Fs.Fat.Writing.Data.{AreBytes}
use vibecoded_os.Fs.Fat.Writing.Chain.{InArea, AllInArea, no_cluster, one_cluster}
use vibecoded_os.Fs.Fat.Writing.RoundTrip.{read_file-write_chain}
use vibecoded_os.Fs.Fat.Writing.Reserve.{complete, out_of_space, reserve_loop-first}

members-AllInFat :
    (g : FatInfo) (cs : List ℕ) → ((x : ℕ) → elem x cs ≡ true → InFat g x) → AllInFat g cs
members-AllInFat g [] h = Free.none_left
members-AllInFat g (c ∷ cs) h =
    Free.one_more (h c (ground arith)) (members-AllInFat g cs (λ x m. h x (ground (arith, m))))

members-AllInArea :
    (g : FatInfo) (cs : List ℕ) → ((x : ℕ) → elem x cs ≡ true → InArea g x) → AllInArea g cs
members-AllInArea g [] h = no_cluster
members-AllInArea g (c ∷ cs) h =
    one_cluster (h c (ground arith)) (members-AllInArea g cs (λ x m. h x (ground (arith, m))))

rounds_up : (n b : ℕ) → 0 < b → n ≤ (n + b - 1) / b * b
rounds_up n b h = omega (arith, h)

-- The reserved clusters have room for the data.
clusters_needed-room :
    (g : FatInfo)
    → IsVolume g
    → (n : ℕ) → 0 < g.sectors_per_cluster
    → n + g.sectors_per_cluster * 512 < u32_mod
    → n ≤ clusters_needed g n * (g.sectors_per_cluster * 512)
clusters_needed-room g vol n h b =
    let k = g.sectors_per_cluster * 512 in
    let e : g.sectors_per_cluster * g.bytes_per_sector % u32_mod ≡ k =
      ap (λ s. g.sectors_per_cluster * s % u32_mod) vol.sector_size
      ∙ (let m : k % u32_mod ≡ k = omega (arith, b) in m) in
    let e' : (n + k + u32_mod - 1) % u32_mod ≡ n + k - 1 = omega (arith, b, h) in
    rw (e, e') (rounds_up n k (omega (arith, h)))

at_least_one : (len n k : ℕ) → 0 < len → len ≤ n * k → 1 ≤ n
at_least_one len zero k h b = absurd (omega (arith, h, b))
at_least_one len (suc n) k h b = omega arith

write_reserved-written :
    (fuel : ℕ) (g : FatInfo) (r : Reserved) (src : List ℕ) (w : Written)
    → r.full ≡ false
    → write_chain fuel g r.first src r.disk ≡ some w
    → w.ok ≡ true
    → write_reserved fuel g r src ≡ written r.first r.last w.disk
unfolding write_reserved
write_reserved-written fuel g r src w e run done = rw (write_reserved, e, run, done) refl

-- The data of a file, found again by Fat32ReadFile.
pub data Kept (g : FatInfo) (fuel : ℕ) (src : List ℕ) (r : DataWritten) : Type 0 where
  kept :
      (first last : ℕ) (d' : Disk)
      → r ≡ written first last d'
      → read_file fuel g first (length src) d'
        ≡ some (record { ok = true; bytes = src; remaining = 0 })
      → Kept g fuel src r

-- On a drive without errors and on a volume whose clusters lie in the FAT and in the data area, with
-- numbers below the end marker, the third step of Fat32WriteFile for data that is not empty and whose
-- size, with that of a cluster added, is below 2^32, if it finds enough free clusters, ends and
-- succeeds: Fat32ReadFile from the first cluster on, with the size
-- of the data, then returns exactly the data. A round more than the data has clusters is enough for
-- each of the loops.
pub write_data_lem :
    (g : FatInfo)
    → IsVolume g
    → IsCovered g
    → max_cluster g ≤ eof_marker g
    → ((x : ℕ) → 2 ≤ x → x < max_cluster g → InArea g x)
    → 0 < g.sectors_per_cluster
    → (d : Disk) → IsHealthy d
    → (last : ℕ) (src : List ℕ) → AreBytes src
    → 0 < length src
    → length src + g.sectors_per_cluster * 512 < u32_mod
    → (reserve_loop
        (clusters_needed g (length src))
        g
        (record { first = 0; prev = 0; last = last; disk = d; full = false })).full
      ≡ false
    → Kept g
        (suc (clusters_needed g (length src)))
        src
        (write_data (suc (clusters_needed g (length src))) g last src d)
unfolding write_data
write_data_lem g vol cov top area pos d ok last src h some_data b not_full =
    let n = clusters_needed g (length src) in
    let start : Reserved = record { first = 0; prev = 0; last = last; disk = d; full = false } in
    let r = reserve_loop n g start in
    let room = clusters_needed-room g vol (length src) pos b in
    let some_cluster : 1 ≤ n =
      at_least_one (length src) n (g.sectors_per_cluster * 512) some_data room in
    let z : (length src == 0) ≡ false = ground (arith, some_data) in
    elim (reserve_loop-first g vol cov top d n last ok some_cluster) [
      | out_of_space full used ↦ absurd (let w : ⊥ = cc in w)
      | complete cs l i ↦
          let in_fat =
            members-AllInFat g cs (λ x m. cov.covered x (i.inside x m).0 (i.inside x m).1) in
          let in_area = members-AllInArea g cs (λ x m. area x (i.inside x m).0 (i.inside x m).1) in
          let fits : length src ≤ length cs * (g.sectors_per_cluster * 512) = rw l room in
          let stored =
            read_file-write_chain g vol r.disk i.healthy cs r.first src h i.chain in_fat in_area pos
              fits in
          let w = stored.0 in
          let run = ap (λ k. write_chain (suc k) g r.first src r.disk) (sym l) ∙ stored.1 in
          let found =
            ap (λ k. read_file (suc k) g r.first (length src) w.disk) (sym l) ∙ stored.3 in
          rw z (
            kept r.first r.last w.disk
              (write_reserved-written (suc n) g r src w not_full run stored.2) found)
    ]
