-- ===== src/Fs/Fat/Volume/Geometry.antt =====
-- What Fat32Init of fat32.c establishes about a volume.
use vibecoded_os.Prelude.{
  ℕ, ◌+◌, ◌-◌, ◌/◌, ◌%◌, ◌≤◌, ◌≡◌, refl, sym, ap, ◌∙◌, true, false, none, some, ◌&&◌, ltb, ◌==◌,
  if◌then◌else◌, u32_mod, u64_mod, arith, Bool-cases, Option-cases, inl, inr,
}
use vibecoded_os.Fs.Fat.{FatInfo, Sector, Disk, read16, eof_marker}
use vibecoded_os.Fs.Fat.Clusters.{max_cluster, first_allocation}
use vibecoded_os.Fs.Fat.Volume.{
  ata_read, has_signature, find_partition, is_power, is_fat32, type_of, total_of, root_start,
  data_start, total_clusters, info_of, read_volume, init,
}

-- The boot sector passed the checks.
record IsChecked (lba : ℕ) (g : FatInfo) (vbr : Sector) : Type 0 where
  info : g ≡ info_of lba vbr
  size : read16 vbr 11 ≡ 512
  power : is_power (vbr 13) ≡ true

read_volume-IsChecked :
    (lba : ℕ) (d : Disk) (g : FatInfo) (n : ℕ)
    → read_volume lba d ≡ some (g, n)
    → (vbr : Sector) × IsChecked lba g vbr
unfolding read_volume
read_volume-IsChecked lba d g n e = elim (Option-cases (ata_read d (lba % u64_mod))) [
  | inl q ↦
      let u : read_volume lba d ≡ none = rw (read_volume, q) refl in absurd (let z : ⊥ = cc in z)
  | inr (vbr, q) ↦
      let ok = has_signature vbr && read16 vbr 11 == 512 && is_power (vbr 13) in
      elim (Bool-cases ok) [
        | inl t ↦
            let u : read_volume lba d ≡ some (info_of lba vbr, total_clusters vbr) =
              rw (read_volume, q, t) refl in
            let v : ◌≡◌ {A = FatInfo × ℕ} (g, n) (info_of lba vbr, total_clusters vbr) = cc in
            (
              vbr,
              record {
                info = ap (λ p. p.0) v;
                size = ground (arith, t);
                power = ground (arith, t);
              },
            )
        | inr t ↦
            let u : read_volume lba d ≡ none = rw (read_volume, q, t) refl in
            absurd (let z : ⊥ = cc in z)
      ]
]

div_le : (x k : ℕ) → x / k ≤ x
div_le x k = omega arith

few12 : (n : ℕ) → ltb n 4085 ≡ true → (n + 2) % u32_mod ≤ 0xff8
few12 n e = ground (arith, e)

few16 : (n : ℕ) → ltb n 65525 ≡ true → (n + 2) % u32_mod ≤ 0xfff8
few16 n e = ground (arith, e)

few32 :
    (total start k : ℕ)
    → start ≤ total
    → total + 2 ≤ 0xffffff8
    → ((total + u32_mod - start) % u32_mod / k + 2) % u32_mod ≤ 0xffffff8
few32 total start k h h' =
    let q = div_le ((total + u32_mod - start) % u32_mod) k in omega (arith, q, h, h')

start32 :
    (n rs ds tot : ℕ)
    → ltb n 4085 ≡ false
    → ltb n 65525 ≡ false
    → (if is_fat32 (type_of n) then rs else ds) ≤ tot
    → rs ≤ tot
start32 n rs ds tot e e' h =
    let q : (if is_fat32 (type_of n) then rs else ds) ≡ rs = rw (e, e') refl in omega (arith, q, h)

-- The clusters of a volume that passed the checks lie below the marker for the end of a chain.
info_of-max_cluster :
    (lba : ℕ) (vbr : Sector)
    → (info_of lba vbr).data_start_sector ≤ (info_of lba vbr).total_sectors
    → (info_of lba vbr).total_sectors + 2 ≤ 0xffffff8
    → max_cluster (info_of lba vbr) ≤ eof_marker (info_of lba vbr)
unfolding info_of max_cluster eof_marker
info_of-max_cluster lba vbr h h' =
    let n = total_clusters vbr in
    let start : (if is_fat32 (type_of n) then root_start vbr else data_start vbr) ≤ total_of vbr =
      h in
    elim (Bool-cases (ltb n 4085)) [
      | inl e ↦ rw e (few12 n e)
      | inr e ↦ elim (Bool-cases (ltb n 65525)) [
        | inl e' ↦ rw (e, e') (few16 n e')
        | inr e' ↦
            rw (e, e')
              (few32 (total_of vbr) (root_start vbr) (vbr 13)
                (start32 n (root_start vbr) (data_start vbr) (total_of vbr) e e' start) h')
      ]
    ]

init-read_volume :
    (uninit : Sector) (start : ℕ) (d : Disk) (g : FatInfo) (last : ℕ)
    → init uninit start d ≡ some (g, last)
    → (lba : ℕ) × (n : ℕ) × (read_volume lba d ≡ some (g, n)) × (last ≡ first_allocation g n d)
unfolding init
init-read_volume uninit start d g last e = elim (Option-cases (find_partition uninit start d)) [
  | inl q ↦ let u : init uninit start d ≡ none = rw (init, q) refl in absurd (let z : ⊥ = cc in z)
  | inr (lba, q) ↦ elim (Option-cases (read_volume lba d)) [
    | inl q' ↦
        let u : init uninit start d ≡ none = rw (init, q, q') refl in absurd (let z : ⊥ = cc in z)
    | inr (p, q') ↦
        let u : init uninit start d ≡ some (p.0, first_allocation p.0 p.1 d) =
          rw (init, q, q') refl in
        let v : ◌≡◌ {A = FatInfo × ℕ} (p.0, first_allocation p.0 p.1 d) (g, last) = cc in
        let w : p.0 ≡ g = ap (λ x. x.0) v in
        (
          lba,
          p.1,
          q' ∙ ap (λ x. some (x, p.1)) w,
          sym (ap (λ x. x.1) v) ∙ ap (λ x. first_allocation x p.1 d) w,
        )
  ]
]

-- A volume that Fat32Init accepts has sectors of 512 bytes and clusters of a power of two of them. If
-- its data area lies within the volume and the volume is below 128 GB, no number of one of its clusters
-- can be taken for the end of a chain, whichever type Fat32Init has chosen.
pub init_lem :
    (uninit : Sector) (start : ℕ) (d : Disk) (g : FatInfo) (last : ℕ)
    → init uninit start d ≡ some (g, last)
    → g.data_start_sector ≤ g.total_sectors
    → g.total_sectors + 2 ≤ 0xffffff8
    → (g.bytes_per_sector ≡ 512)
      × (is_power g.sectors_per_cluster ≡ true)
      × (max_cluster g ≤ eof_marker g)
unfolding info_of
init_lem uninit start d g last e h h' =
    let r = init-read_volume uninit start d g last e in
    let c = read_volume-IsChecked r.0 d g r.1 r.2 in
    let f = c.1.info in
    let i = info_of r.0 c.0 in
    let start : g.data_start_sector ≡ i.data_start_sector = ap (λ x. x.data_start_sector) f in
    let total : g.total_sectors ≡ i.total_sectors = ap (λ x. x.total_sectors) f in
    let b = info_of-max_cluster r.0 c.0 (rw (sym start, sym total) h) (rw (sym total) h') in
    (
      ap (λ x. x.bytes_per_sector) f ∙ c.1.size,
      ap (λ x. is_power x.sectors_per_cluster) f ∙ c.1.power,
      rw f b,
    )
