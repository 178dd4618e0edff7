-- ===== src/Fs/Fat/Clusters/Allocate.antt =====
-- FatAllocateCluster of fat32.c takes a free cluster of the volume, if there is one.
use vibecoded_os.Prelude.{
  ℕ, zero, suc, ◌+◌, ◌-◌, ◌≤◌, ◌<◌, ◌≡◌, ◌≢◌, ◌⊎◌, refl, ap, ◌∙◌, false, none, some, ltb, ◌==◌,
  if◌then◌else◌, arith, Bool-cases, inl, inr,
}
use vibecoded_os.Fs.Fat.{FatType, fat12, fat16, fat32, FatInfo, Disk, get_fat_entry, eof_marker}
use vibecoded_os.Fs.Fat.Table.{IsVolume, IsHealthy, InFat}
use vibecoded_os.Fs.Fat.Packing.{entry_value}
use vibecoded_os.Fs.Fat.Entries.{entry_after_set, set_fat_entry-IsSpread}
use vibecoded_os.Fs.Fat.Clusters.{
  Allocation, max_cluster, take_cluster, scan_free, start_cluster, allocate_from, allocate_cluster,
}

start_cluster_bounds :
    (g : FatInfo) (last : ℕ)
    → 2 ≤ max_cluster g
    → (2 ≤ start_cluster g last) × (start_cluster g last ≤ max_cluster g)
unfolding start_cluster
start_cluster_bounds g last h = ground (arith, h)

-- The clusters of the volume have their entries in the FAT.
pub record IsCovered (g : FatInfo) : Type 0 where
  pub some_cluster : 2 ≤ max_cluster g
  pub covered : (c : ℕ) → 2 ≤ c → c < max_cluster g → InFat g c

-- The cluster was free and is now the end of a chain; all other entries are as before.
pub record IsTaken (g : FatInfo) (d : Disk) (a : Allocation) : Type 0 where
  pub from : 2 ≤ a.cluster
  pub below : a.cluster < max_cluster g
  pub was_free : get_fat_entry g d a.cluster ≡ 0
  pub next : a.last ≡ a.cluster + 1
  pub healthy : IsHealthy a.disk
  pub entries :
      (c : ℕ)
      → InFat g c
      → get_fat_entry g a.disk c ≡ (if c == a.cluster then eof_marker g else get_fat_entry g d c)

-- No cluster is free, and nothing has changed.
pub record IsFull (g : FatInfo) (last : ℕ) (d : Disk) (a : Allocation) : Type 0 where
  pub failed : a ≡ record { cluster = 0; last = last; disk = d }
  pub none_free : (c : ℕ) → 2 ≤ c → c < max_cluster g → get_fat_entry g d c ≢ 0

pub entry_value-eof_marker : (g : FatInfo) → entry_value g.type (eof_marker g) ≡ eof_marker g
unfolding entry_value eof_marker
entry_value-eof_marker g = go g.type
  where
    go :
        (t : FatType)
        → entry_value t (elim t [ fat12 ↦ 0xff8 | fat16 ↦ 0xfff8 | fat32 ↦ 0xffffff8 ])
          ≡ elim t [ fat12 ↦ 0xff8 | fat16 ↦ 0xfff8 | fat32 ↦ 0xffffff8 ]
    go fat12 = refl
    go fat16 = refl
    go fat32 = refl

module _ (g : FatInfo) (vol : IsVolume g) (cov : IsCovered g) (d : Disk) (ok : IsHealthy d) where
  take_cluster-IsTaken :
      (c last : ℕ)
      → 2 ≤ c
      → c < max_cluster g
      → get_fat_entry g d c ≡ 0
      → IsTaken g d (take_cluster g c last d)
  unfolding take_cluster
  take_cluster-IsTaken c last h h' e =
      let f = cov.covered c h h' in
      let v = eof_marker g in
      let s = set_fat_entry-IsSpread g vol c v f d ok h in
      let mark = entry_value-eof_marker g in
      rw s.done (record {
        from = h;
        below = h';
        was_free = e;
        next = refl;
        healthy = s.healthy;
        entries = λ c' f'.
            (entry_after_set g vol d ok c c' v h f f').1
            ∙ ap (λ w. if c' == c then w else get_fat_entry g d c') mark;
      })

  used_from :
      (c n : ℕ)
      → (get_fat_entry g d c == 0) ≡ false
      → ((k : ℕ) → c + 1 ≤ k → k < c + 1 + n → get_fat_entry g d k ≢ 0)
      → (k : ℕ) → c ≤ k
      → k < c + suc n
      → get_fat_entry g d k ≢ 0
  used_from c n e all k a b = elim (Bool-cases (k == c)) [
    | inl f ↦ let q : k ≡ c = ground (arith, f) in rw q (λ z. ground (arith, e, z))
    | inr f ↦ all k (ground (arith, f)) (ground (arith, f))
  ]

  scan_free_lem :
      (n c last : ℕ)
      → 2 ≤ c
      → c + n ≤ max_cluster g
      → ((scan_free n g c last d ≡ none) × ((k : ℕ) → c ≤ k → k < c + n → get_fat_entry g d k ≢ 0))
        ⊎ ((a : Allocation) × (scan_free n g c last d ≡ some a) × IsTaken g d a)
  unfolding scan_free
  scan_free_lem zero c last h h' = inl (refl, λ k a b. absurd (omega (arith, a, b)))
  scan_free_lem (suc n) c last h h' = elim (Bool-cases (get_fat_entry g d c == 0)) [
    | inl e ↦ inr (
      take_cluster g c last d,
      rw e refl,
      take_cluster-IsTaken c last h (omega arith) (ground (arith, e)),
    )
    | inr e ↦ elim (scan_free_lem n (c + 1) last (omega arith) (omega arith)) [
      | inl (q, all) ↦ inl (rw e q, λ k a b. used_from c n e all k a b)
      | inr (a, q, t) ↦ inr (a, rw e q, t)
    ]
  ]

  allocate_from_lem :
      (start last : ℕ)
      → 2 ≤ start
      → start ≤ max_cluster g
      → IsFull g last d (allocate_from g start last d) ⊎ IsTaken g d (allocate_from g start last d)
  unfolding allocate_from
  allocate_from_lem start last h h' =
      let e : start + (max_cluster g - start) ≡ max_cluster g = omega arith in
      let e' : 2 + (start - 2) ≡ start = omega arith in
      elim (scan_free_lem (max_cluster g - start) start last h (omega (arith, e, h'))) [
        | inr (a, q, t) ↦ rw (allocate_from, q) (inr t)
        | inl (q, all) ↦
            elim (scan_free_lem (start - 2) 2 last (omega arith) (omega (arith, e', h'))) [
              | inr (a, q', t) ↦ rw (allocate_from, q, q') (inr t)
              | inl (q', all') ↦
                  rw (allocate_from, q, q')
                    (inl (record {
                      failed = refl;
                      none_free = λ c a b. elim (Bool-cases (ltb c start)) [
                        | inl l ↦ all' c a (ground (arith, e', l))
                        | inr l ↦ all c (ground (arith, l)) (ground (arith, e, b))
                      ];
                    }))
            ]
      ]

  -- On a drive without errors, FatAllocateCluster returns a cluster of the volume whose entry was 0,
  -- wherever the search starts; that cluster is then the end of a chain, the next search starts behind
  -- it, and no other entry has changed. Only where the volume has no free cluster it fails, and then
  -- it changes nothing.
  pub allocate_cluster_lem :
      (last : ℕ)
      → IsFull g last d (allocate_cluster g last d) ⊎ IsTaken g d (allocate_cluster g last d)
  unfolding allocate_cluster
  allocate_cluster_lem last =
      let b = start_cluster_bounds g last cov.some_cluster in
      allocate_from_lem (start_cluster g last) last b.0 b.1
