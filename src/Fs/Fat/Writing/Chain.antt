-- ===== src/Fs/Fat/Writing/Chain.antt =====
-- Fat32WriteFile of fat32.c writes the data of a file along its chain of clusters, where Fat32ReadFile
-- finds it.
use vibecoded_os.Prelude.{
  ℕ, zero, suc, ◌+◌, ◌-◌, ◌*◌, ◌%◌, ◌≤◌, ◌<◌, ◌≡◌, ◌≢◌, ◌⊎◌, refl, ap, ◌∙◌, true, false, not,
  Option, some, List, [], ◌∷◌, ◌++◌, ◌&&◌, ltb, leb, ◌==◌, length, take, drop, u32_mod, arith,
  Bool-cases, inl, inr, length-drop, take-append-drop,
}
use vibecoded_os.Fs.Fat.{FatInfo, Disk, cluster_to_sector, next_cluster, get_fat_entry, eof_marker}
use vibecoded_os.Fs.Fat.Table.{IsVolume, IsHealthy, InFat}
use vibecoded_os.Fs.Fat.Entries.{get_fat_entry_ap}
use vibecoded_os.Fs.Fat.Clusters.Free.{
  elem, IsChain, ends, link, IsChain-ap, AllInFat, none_left, one_more, AllInFat-elem,
}
use vibecoded_os.Fs.Fat.Files.Contents.{
  sector_bytes, chain_bytes, take-append, copied-ap, length-sector_bytes, drop-past,
}
use vibecoded_os.Fs.Fat.Files.Chains.{take-min, next_cluster_lem}
use vibecoded_os.Fs.Fat.Writing.{Written, write_cluster, write_chain}
use vibecoded_os.Fs.Fat.Writing.Data.{AreBytes, drop-AreBytes, IsWritten, write_cluster-IsWritten}

-- The data area lies behind the FATs, and the sectors of the cluster have numbers that do not wrap.
abbrev pub InArea : FatInfo → ℕ → Type 0
InArea g c =
    (2 ≤ c)
    × (c < u32_mod)
    × (g.data_start_sector + (c - 2) * g.sectors_per_cluster + g.sectors_per_cluster < u32_mod)
    × (g.fat_start_sector + g.sectors_per_fat ≤ g.data_start_sector)

pub cluster_to_sector_lem :
    (g : FatInfo) (c : ℕ)
    → InArea g c
    → cluster_to_sector g c ≡ g.data_start_sector + (c - 2) * g.sectors_per_cluster
unfolding cluster_to_sector
cluster_to_sector_lem g c h =
    let e : (c + u32_mod - 2) % u32_mod ≡ c - 2 = omega (arith, h.0, h.1) in
    let w = h.2 in
    rw e (
      let m : (g.data_start_sector + (c - 2) * g.sectors_per_cluster) % u32_mod
          ≡ g.data_start_sector + (c - 2) * g.sectors_per_cluster =
        omega (arith, w) in
      m)

products_apart : (a b k : ℕ) → a < b → a * k + k ≤ b * k
products_apart a b k h =
    let e : b ≡ a + 1 + (b - (a + 1)) = omega (arith, h) in
    let m : (a + 1 + (b - (a + 1))) * k ≡ a * k + k + (b - (a + 1)) * k = omega arith in
    let q : b * k ≡ (a + 1 + (b - (a + 1))) * k = ap (λ x. x * k) e in omega (arith, m, q)

-- Different clusters have different sectors.
clusters_apart :
    (g : FatInfo) (c x : ℕ)
    → InArea g c
    → InArea g x
    → c ≢ x
    → (cluster_to_sector g c + g.sectors_per_cluster ≤ cluster_to_sector g x)
      ⊎ (cluster_to_sector g x + g.sectors_per_cluster ≤ cluster_to_sector g c)
clusters_apart g c x h h' n =
    let e = cluster_to_sector_lem g c h in
    let e' = cluster_to_sector_lem g x h' in
    elim (Bool-cases (ltb c x)) [
      | inl q ↦
          let p = products_apart (c - 2) (x - 2) g.sectors_per_cluster (ground (arith, q, h.0)) in
          inl (omega (arith, e, e', p))
      | inr q ↦
          let p =
            products_apart (x - 2) (c - 2) g.sectors_per_cluster (ground (arith, q, n, h'.0)) in
          inr (omega (arith, e, e', p))
    ]

sector_bytes-ap :
    (n : ℕ) (g : FatInfo) (d d' : Disk) (sec : ℕ)
    → ((m i : ℕ)
        → g.partition_start_lba + sec ≤ m
        → m < g.partition_start_lba + (sec + n)
        → d'.sector m i ≡ d.sector m i)
    → sector_bytes n g d' sec ≡ sector_bytes n g d sec
unfolding sector_bytes
sector_bytes-ap zero g d d' sec same = refl
sector_bytes-ap (suc n) g d d' sec same =
    let s = g.partition_start_lba + sec in
    rw
      (
        copied-ap 512 0 (d'.sector s) (d.sector s) (λ i. same s i (omega arith) (omega arith)),
        sector_bytes-ap n g d d' (sec + 1)
            (λ m i a b. same m i (omega (arith, a)) (omega (arith, b))),
      )
      refl

-- The bytes of a cluster and of the next ones are the data.
store_step :
    (k : ℕ) (src xs ys : List ℕ)
    → length xs ≡ k
    → take (length src) xs ≡ take k src
    → take (length (drop k src)) ys ≡ drop k src
    → take (length src) (xs ++ ys) ≡ src
store_step k src xs ys l a b =
    let t = take-append (length src) xs ys in
    let m = take-min (length src) xs in
    let n : length src - k ≡ length (drop k src) = let q = length-drop k src in omega (arith, q) in
    rw (t, m, l, a, n, b) (take-append-drop k src)

-- All clusters of the list lie in the data area.
pub data AllInArea (g : FatInfo) : List ℕ → Type 0 where
  no_cluster : AllInArea g []
  one_cluster : {c : ℕ} {cs : List ℕ} → InArea g c → AllInArea g cs → AllInArea g (c ∷ cs)

AllInArea-elem :
    {g : FatInfo} {cs : List ℕ} → AllInArea g cs → (x : ℕ) → elem x cs ≡ true → InArea g x
AllInArea-elem no_cluster x e = absurd (let z : ⊥ = ground (arith, e) in z)
AllInArea-elem {g = g} (one_cluster {c = c} {cs = cs} f rest) x e = elim (Bool-cases (x == c)) [
  | inl q ↦ let r : x ≡ c = ground (arith, q) in rw r f
  | inr q ↦ AllInArea-elem rest x (ground (arith, e, q))
]

-- A sector is outside the clusters of the list.
abbrev Outside : FatInfo → List ℕ → ℕ → Type 0
Outside g cs m =
    (x : ℕ)
    → elem x cs ≡ true
    → (m < g.partition_start_lba + cluster_to_sector g x)
      ⊎ (g.partition_start_lba + (cluster_to_sector g x + g.sectors_per_cluster) ≤ m)

-- The data stands in the clusters of the chain, and nothing else has changed.
pub record IsStored (g : FatInfo) (cs : List ℕ) (src : List ℕ) (d : Disk) (w : Written)
    : Type 0 where
  pub done : w.ok ≡ true
  pub healthy : IsHealthy w.disk
  pub bytes : take (length src) (chain_bytes g w.disk cs) ≡ src
  pub entries : (x : ℕ) → InFat g x → get_fat_entry g w.disk x ≡ get_fat_entry g d x
  pub others : (m i : ℕ) → Outside g cs m → w.disk.sector m i ≡ d.sector m i

-- The loop over the clusters ends and has stored the data.
pub data Stores (g : FatInfo) (cs : List ℕ) (src : List ℕ) (d : Disk) (r : Option Written)
    : Type 0 where
  stores : (w : Written) → r ≡ some w → IsStored g cs src d w → Stores g cs src d r

module _ (g : FatInfo) (vol : IsVolume g) where
  -- Nothing left to write.
  write_chain_stop :
      (fuel c : ℕ) (d : Disk)
      → write_chain (suc fuel) g c [] d ≡ some (record { disk = d; left = []; ok = true })
  unfolding write_chain
  write_chain_stop fuel c d =
      let t : (leb 2 c && ltb c (eof_marker g) && not (0 == 0)) ≡ false = ground arith in
      rw (write_chain, t) refl

  IsStored-nothing :
      (cs : List ℕ) (d : Disk)
      → IsHealthy d
      → IsStored g cs [] d (record { disk = d; left = []; ok = true })
  IsStored-nothing cs d ok = record {
    done = refl;
    healthy = ok;
    bytes = refl;
    entries = λ x f. refl;
    others = λ m i o. refl;
  }

  -- The sectors of a cluster are outside the other clusters.
  other_clusters :
      (c : ℕ) (rest : List ℕ)
      → InArea g c
      → AllInArea g rest
      → elem c rest ≡ false
      → (m : ℕ) → g.partition_start_lba + cluster_to_sector g c ≤ m
      → m < g.partition_start_lba + (cluster_to_sector g c + g.sectors_per_cluster)
      → Outside g rest m
  other_clusters c rest p area o m lo hi x e =
      let n : c ≢ x = λ z. (let e' : elem c rest ≡ true = rw z e in ground (arith, o, e')) in
      elim (clusters_apart g c x p (AllInArea-elem area x e) n) [
        | inl k ↦ inl (omega (arith, k, hi))
        | inr k ↦ inr (omega (arith, k, lo))
      ]

  first_entries :
      (c : ℕ) (src : List ℕ) (d : Disk) {w : Written}
      → IsHealthy d
      → InArea g c
      → IsWritten g g.sectors_per_cluster (cluster_to_sector g c) src d w
      → (x : ℕ) → InFat g x
      → get_fat_entry g w.disk x ≡ get_fat_entry g d x
  first_entries c src d {w = w} ok p one x f =
      let e = cluster_to_sector_lem g c p in
      let behind = p.3 in
      get_fat_entry_ap g vol d w.disk ok one.healthy
        (λ m i lt. one.others m i (inl (omega (arith, e, behind, lt)))) x f

  -- One cluster is written, and then the rest of the data behind it.
  IsStored-step :
      (c : ℕ) (rest src : List ℕ) (d : Disk) (w w' : Written)
      → IsHealthy d
      → InArea g c
      → AllInArea g rest
      → elem c rest ≡ false
      → IsWritten g g.sectors_per_cluster (cluster_to_sector g c) src d w
      → IsStored g rest (drop (g.sectors_per_cluster * 512) src) w.disk w'
      → IsStored g (c ∷ rest) src d w'
  unfolding chain_bytes
  IsStored-step c rest src d w w' ok p area o one more = record {
    done = more.done;
    healthy = more.healthy;
    bytes =
        let sec = cluster_to_sector g c in
        let same =
          sector_bytes-ap g.sectors_per_cluster g w.disk w'.disk sec
            (λ m i lo hi. more.others m i (other_clusters c rest p area o m lo hi)) in
        let l = length-sector_bytes g.sectors_per_cluster g w.disk sec in
        rw same (
          store_step (g.sectors_per_cluster * 512) src
            (sector_bytes g.sectors_per_cluster g w.disk sec) (chain_bytes g w'.disk rest) l
            one.bytes more.bytes);
    entries = λ x f. more.entries x f ∙ first_entries c src d ok p one x f;
    others = λ m i out.
        more.others m i (λ x e. out x (ground (arith, e))) ∙ one.others m i (out c (ground arith));
  }

  live_test :
      (c : ℕ) (src : List ℕ)
      → 2 ≤ c
      → c < eof_marker g
      → (length src == 0) ≡ false
      → (leb 2 c && ltb c (eof_marker g) && not (length src == 0)) ≡ true
  live_test c src a a' e = ground (arith, a, a', e)

  first_cluster :
      (c : ℕ) (src : List ℕ) (d : Disk)
      → IsHealthy d
      → AreBytes src
      → InArea g c
      → IsWritten g g.sectors_per_cluster
          (cluster_to_sector g c)
          src
          d
          (write_cluster g.sectors_per_cluster g (cluster_to_sector g c) src d)
  first_cluster c src d ok h p =
      let e = cluster_to_sector_lem g c p in
      let room = p.2 in
      write_cluster-IsWritten g vol g.sectors_per_cluster (cluster_to_sector g c) src d ok h
        (omega (arith, e, room))

  pub write_chain-Stores :
      (fuel : ℕ) (cs : List ℕ) (c : ℕ) (src : List ℕ) (d : Disk)
      → length cs < fuel
      → IsHealthy d
      → AreBytes src
      → IsChain (eof_marker g) (get_fat_entry g d) c cs
      → AllInFat g cs
      → AllInArea g cs
      → length src ≤ length cs * (g.sectors_per_cluster * 512)
      → Stores g cs src d (write_chain fuel g c src d)
  unfolding write_chain chain_bytes
  write_chain-Stores zero cs c src d f ok h chain all area b = absurd (omega (arith, f))
  write_chain-Stores (suc fuel) cs c [] d f ok h chain all area b =
      stores (record { disk = d; left = []; ok = true }) (write_chain_stop fuel c d)
        (IsStored-nothing cs d ok)
  write_chain-Stores (suc fuel) cs c (y ∷ ys) d f ok h chain none_left area b = elim chain [ ]
  write_chain-Stores (suc zero) cs c (y ∷ ys) d f ok h chain (one_more q all) area b =
      absurd (omega (arith, f))
  write_chain-Stores (suc (suc fuel)) cs c (y ∷ ys) d f ok h (ends a a' last) (one_more q all)
        (one_cluster p area) b =
      let src = y ∷ ys in
      let one = first_cluster c src d ok h p in
      let w = write_cluster g.sectors_per_cluster g (cluster_to_sector g c) src d in
      let z : drop (g.sectors_per_cluster * 512) src ≡ [] =
        drop-past (g.sectors_per_cluster * 512) src (omega (arith, b)) in
      let end : Written = record { disk = w.disk; left = []; ok = true } in
      stores end
        (rw (live_test c src a a' (ground arith), one.done, one.left, z)
          (write_chain_stop fuel (next_cluster g w.disk c) w.disk))
        (IsStored-step c [] src d w end ok p area refl one
          (rw z (IsStored-nothing [] w.disk one.healthy)))
  write_chain-Stores (suc (suc fuel)) cs c (y ∷ ys) d f ok h (link {cs = rest} a a' n n' o chain)
        (one_more q all) (one_cluster p area) b =
      let src = y ∷ ys in
      let one = first_cluster c src d ok h p in
      let w = write_cluster g.sectors_per_cluster g (cluster_to_sector g c) src d in
      let same = first_entries c src d ok p one in
      let chain' = IsChain-ap rest (λ x m. same x (AllInFat-elem all x m)) chain in
      let e = same c q in
      let next = next_cluster_lem g vol w.disk one.healthy c (omega (arith, e, n')) ∙ e in
      let m : suc (length rest) * (g.sectors_per_cluster * 512)
          ≡ length rest * (g.sectors_per_cluster * 512) + g.sectors_per_cluster * 512 =
        omega arith in
      let l = length-drop (g.sectors_per_cluster * 512) src in
      elim (write_chain-Stores (suc fuel) rest (get_fat_entry g d c)
        (drop (g.sectors_per_cluster * 512) src) w.disk (omega (arith, f)) one.healthy
        (drop-AreBytes (g.sectors_per_cluster * 512) src h) chain' all area
        (omega (arith, b, m, l))) [
          | stores w' run more ↦
              stores w' (rw (live_test c src a a' (ground arith), one.done, one.left, next) run)
                (IsStored-step c rest src d w w' ok p area o one more)
        ]
