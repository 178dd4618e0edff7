-- ===== src/Fs/Fat/Clusters/Free.antt =====
-- FatFreeClusterChain of fat32.c ends and frees the clusters of a chain, and no others.
use vibecoded_os.Prelude.{
  ℕ, ◌≤◌, ◌<◌, ◌≡◌, ◌⊎◌, refl, sym, ap, ◌∙◌, Bool, true, false, some, List, [], ◌∷◌, ◌&&◌, ◌||◌,
  ltb, leb, ◌==◌, if◌then◌else◌, length, arith, Bool-cases, inl, inr,
}
use vibecoded_os.Fs.Fat.{
  FatType, fat12, fat16, fat32, FatInfo, Disk, get_fat_entry, set_fat_entry, eof_marker,
}
use vibecoded_os.Fs.Fat.Table.{IsVolume, IsHealthy, InFat}
use vibecoded_os.Fs.Fat.Packing.{entry_value}
use vibecoded_os.Fs.Fat.Entries.{entry_after_set, set_fat_entry-IsSpread}
use vibecoded_os.Fs.Fat.Clusters.{free_loop, free_cluster_chain}

-- Whether a cluster is one of a list.
abbrev pub elem : ℕ → List ℕ → Bool
elem c [] = false
elem c (x ∷ xs) = c == x || elem c xs

-- `next` links the clusters of the list to a chain: each lies between 2 and the marker `eof`, none
-- occurs twice, and the entry of the last is no cluster.
pub data IsChain (eof : ℕ) (next : ℕ → ℕ) : ℕ → List ℕ → Type 0 where
  ends : {c : ℕ} → 2 ≤ c → c < eof → (next c < 2) ⊎ (eof ≤ next c) → IsChain eof next c (c ∷ [])
  link :
      {c : ℕ} {cs : List ℕ}
      → 2 ≤ c
      → c < eof
      → 2 ≤ next c
      → next c < eof
      → elem c cs ≡ false
      → IsChain eof next (next c) cs
      → IsChain eof next c (c ∷ cs)

-- A chain depends only on the entries of its clusters.
pub IsChain-ap :
    {eof : ℕ} {next next' : ℕ → ℕ} {c : ℕ} (cs : List ℕ)
    → ((x : ℕ) → elem x cs ≡ true → next' x ≡ next x)
    → IsChain eof next c cs
    → IsChain eof next' c cs
IsChain-ap cs same (ends {c = c} a b e) = ends a b (let q = same c (ground arith) in rw q e)
IsChain-ap cs same (link {c = c} {cs = rest} a b h h' n chain) =
    let q = same c (ground arith) in
    let rec = IsChain-ap rest (λ x m. same x (ground (arith, m))) chain in
    link a b (rw q h) (rw q h') n (rw q rec)

IsChain-first : {eof : ℕ} {next : ℕ → ℕ} {c : ℕ} {cs : List ℕ} → IsChain eof next c cs → 2 ≤ c
IsChain-first (ends a b e) = a
IsChain-first (link a b h h' n chain) = a

entry_value-zero : (t : FatType) → entry_value t 0 ≡ 0
unfolding entry_value
entry_value-zero fat12 = refl
entry_value-zero fat16 = refl
entry_value-zero fat32 = refl

-- The clusters of the list are free, and the entries of all others are as before.
pub record IsFreed (g : FatInfo) (cs : List ℕ) (d d' : Disk) : Type 0 where
  pub healthy : IsHealthy d'
  pub entries :
      (x : ℕ) → InFat g x → get_fat_entry g d' x ≡ (if elem x cs then 0 else get_fat_entry g d x)

-- All clusters of the list have their entries in the FAT.
pub data AllInFat (g : FatInfo) : List ℕ → Type 0 where
  none_left : AllInFat g []
  one_more : {c : ℕ} {cs : List ℕ} → InFat g c → AllInFat g cs → AllInFat g (c ∷ cs)

pub AllInFat-elem :
    {g : FatInfo} {cs : List ℕ} → AllInFat g cs → (x : ℕ) → elem x cs ≡ true → InFat g x
AllInFat-elem none_left x e = absurd (let z : ⊥ = ground (arith, e) in z)
AllInFat-elem {g = g} (one_more {c = c} {cs = cs} f rest) x e = elim (Bool-cases (x == c)) [
  | inl q ↦ let r : x ≡ c = ground (arith, q) in rw r f
  | inr q ↦ AllInFat-elem rest x (ground (arith, e, q))
]

pub elem_ne : (c x : ℕ) (cs : List ℕ) → elem c cs ≡ false → elem x cs ≡ true → (x == c) ≡ false
elem_ne c x cs n m = elim (Bool-cases (x == c)) [
  | inl e ↦
      let q : x ≡ c = ground (arith, e) in
      let m' : elem c cs ≡ true = rw (sym q) m in absurd (let z : ⊥ = ground (arith, n, m') in z)
  | inr e ↦ e
]

module _ (g : FatInfo) (vol : IsVolume g) where
  -- One round: the entry of the cluster is 0.
  freed_entry :
      (d : Disk)
      → IsHealthy d
      → (c : ℕ) → 2 ≤ c
      → InFat g c
      → IsHealthy (set_fat_entry g c 0 d).0
        × ((x : ℕ)
            → InFat g x
            → get_fat_entry g (set_fat_entry g c 0 d).0 x
              ≡ (if x == c then 0 else get_fat_entry g d x))
  freed_entry d ok c h f =
      let s = set_fat_entry-IsSpread g vol c 0 f d ok h in
      (
        s.healthy,
        λ x fx.
            (entry_after_set g vol d ok c x 0 h f fx).1
            ∙ ap (λ w. if x == c then w else get_fat_entry g d x) (entry_value-zero g.type),
      )

  free_loop_lem :
      (cs : List ℕ) (c : ℕ) (d : Disk)
      → IsHealthy d
      → AllInFat g cs
      → IsChain (eof_marker g) (get_fat_entry g d) c cs
      → (d' : Disk) × (free_loop (length cs) g c d ≡ some d') × IsFreed g cs d d'
  unfolding free_loop
  free_loop_lem cs c d ok none_left chain = elim chain [ ]
  free_loop_lem cs c d ok (one_more f none_left) (ends a b e) =
      let one = freed_entry d ok c a f in
      let t : (leb 2 c && ltb c (eof_marker g)) ≡ true = ground (arith, a, b) in
      let stop : (ltb (get_fat_entry g d c) 2 || leb (eof_marker g) (get_fat_entry g d c)) ≡ true =
        ground (arith, e) in
      (
        (set_fat_entry g c 0 d).0,
        rw (t, stop) refl,
        record { healthy = one.0; entries = λ x fx. let q = one.1 x fx in ground (arith, q) },
      )
  free_loop_lem cs c d ok (one_more f all) (link {cs = rest} a b h h' n chain) =
      let one = freed_entry d ok c a f in
      let d1 = (set_fat_entry g c 0 d).0 in
      let next = get_fat_entry g d c in
      let t : (leb 2 c && ltb c (eof_marker g)) ≡ true = ground (arith, a, b) in
      let go_on : (ltb next 2 || leb (eof_marker g) next) ≡ false = ground (arith, h, h') in
      let same : (x : ℕ) → elem x rest ≡ true → get_fat_entry g d1 x ≡ get_fat_entry g d x = λ x m.
        one.1 x (AllInFat-elem all x m) ∙ (let q = elem_ne c x rest n m in ground (arith, q)) in
      let (d', run, freed) = free_loop_lem rest next d1 one.0 all (IsChain-ap rest same chain) in
      (
        d',
        rw (t, go_on) run,
        record {
          healthy = freed.healthy;
          entries = λ x fx. freed.entries x fx ∙ (let q = one.1 x fx in ground (arith, q));
        },
      )

  -- On a drive without errors, for every chain of clusters of the volume, FatFreeClusterChain ends,
  -- after as many rounds as the chain has clusters; it makes the entries of exactly these clusters 0,
  -- and no other entry changes.
  pub free_cluster_chain_lem :
      (cs : List ℕ) (c : ℕ) (d : Disk)
      → IsHealthy d
      → AllInFat g cs
      → IsChain (eof_marker g) (get_fat_entry g d) c cs
      → (d' : Disk) × (free_cluster_chain (length cs) g c d ≡ some d') × IsFreed g cs d d'
  unfolding free_cluster_chain
  free_cluster_chain_lem cs c d ok all chain =
      let h = IsChain-first chain in
      let t : ltb c 2 ≡ false = ground (arith, h) in rw t (free_loop_lem cs c d ok all chain)
