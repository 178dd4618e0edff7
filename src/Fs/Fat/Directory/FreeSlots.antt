-- ===== src/Fs/Fat/Directory/FreeSlots.antt =====
-- FatFindFreeSlots of fat32.c on a directory along its chain of clusters.
use vibecoded_os.Prelude.{
  ℕ, suc, ◌+◌, ◌^◌, ◌≤◌, ◌<◌, ◌≡◌, ◌⊎◌, refl, true, false, Option, some, List, [], ◌∷◌, leb, length,
  u32_mod, arith, inl, inr, Bool-cases, ◌==◌,
}
use vibecoded_os.Fs.Fat.{
  FatType, fat12, fat16, fat32, FatInfo, Disk, eof_marker, get_fat_entry, next_cluster,
  cluster_to_sector,
}
use vibecoded_os.Fs.Fat.Table.{IsVolume}
use vibecoded_os.Fs.Fat.Clusters.Free.{IsChain, ends, link, elem}
use vibecoded_os.Fs.Fat.Files.Chains.{AllInData, one_more}
use vibecoded_os.Fs.Fat.Directory.{
  Slots, slots_at, group_done, going, unreadable, no_run, is_fixed_root, in_chain, group_loop,
  next_group, slots_chain, find_free_slots,
}
use vibecoded_os.Fs.Fat.Directory.Groups.{IsSlots, IsFull, IsGood, first_byte}
use vibecoded_os.Fs.Fat.Directory.Sectors.{HasBad, group_loop_lem}

-- The first bytes of the entries in the cluster `c` of a directory
abbrev pub entries_of : FatInfo → Disk → (c : ℕ) → ℕ → ℕ
entries_of g d c = first_byte g d (cluster_to_sector g c)

-- What the search says of the clusters of a directory: free entries in one of them, that none of them
-- has room, or that one has a sector that cannot be read.
unfoldable pub IsFound : FatInfo → Disk → (needed : ℕ) → List ℕ → Slots → Type 0
IsFound g d needed cs (slots_at s o) =
    (c : ℕ) × (elem c cs ≡ true)
    × IsSlots (entries_of g d c) (cluster_to_sector g c) g.sectors_per_cluster needed s o
IsFound g d needed cs group_done =
    (c : ℕ) → elem c cs ≡ true → IsFull (entries_of g d c) g.sectors_per_cluster needed
IsFound g d needed cs (going r) = ⊥
IsFound g d needed cs unreadable =
    (c : ℕ) × (elem c cs ≡ true) × HasBad g d (cluster_to_sector g c) g.sectors_per_cluster

-- The search has ended, with such an answer.
pub data Searched (g : FatInfo) (d : Disk) (needed : ℕ) (cs : List ℕ) (r : Option Slots)
    : Type 0 where
  searched : (x : Slots) → r ≡ some x → IsFound g d needed cs x → Searched g d needed cs r

-- What a group says of the search, if it ends it.
IsGroup : FatInfo → Disk → (needed c : ℕ) → Slots → Type 0
IsGroup g d needed c =
    IsGood (entries_of g d c) (cluster_to_sector g c) g.sectors_per_cluster needed
      (HasBad g d (cluster_to_sector g c) g.sectors_per_cluster) (λ r. ⊥)

IsFound-more :
    (g : FatInfo) (d : Disk) (needed c : ℕ) (cs : List ℕ) (x : Slots)
    → IsFull (entries_of g d c) g.sectors_per_cluster needed
    → IsFound g d needed cs x
    → IsFound g d needed (c ∷ cs) x
unfolding IsFound
IsFound-more g d needed c cs (slots_at s o) h (k, m, i) = (k, ground (arith, m), i)
IsFound-more g d needed c cs group_done h i = λ k m. elim (Bool-cases (k == c)) [
  | inl e ↦ let q : k ≡ c = ground (arith, e) in rw q h
  | inr e ↦ i k (ground (arith, m, e))
]
IsFound-more g d needed c cs (going r) h i = i
IsFound-more g d needed c cs unreadable h (k, m, i) = (k, ground (arith, m), i)

-- One group, and then the others
next_group_lem :
    (g : FatInfo) (d : Disk) (needed c : ℕ) (cs : List ℕ) (x : Slots) (rest : Option Slots)
    → IsGroup g d needed c x
    → Searched g d needed cs rest
    → Searched g d needed (c ∷ cs) (next_group x rest)
unfolding next_group IsGroup IsGood IsFound
next_group_lem g d needed c cs (slots_at s o) rest h k =
    searched (slots_at s o) refl (c, ground arith, h)
next_group_lem g d needed c cs group_done rest h (searched x e i) =
    searched x e (IsFound-more g d needed c cs x h i)
next_group_lem g d needed c cs (going r) rest h k = absurd h
next_group_lem g d needed c cs unreadable rest h k = searched unreadable refl (c, ground arith, h)

is_fixed_root-cluster : (t : FatType) (c : ℕ) → 2 ≤ c → is_fixed_root t c ≡ false
is_fixed_root-cluster fat12 c h = ground (arith, h)
is_fixed_root-cluster fat16 c h = ground (arith, h)
is_fixed_root-cluster fat32 c h = refl

module _ (g : FatInfo) (vol : IsVolume g) (needed : ℕ) (some_slot : 1 ≤ needed)
    (small : g.sectors_per_cluster < 2 ^ 23) (d : Disk) where
  slots_chain_stop :
      (fuel c : ℕ)
      → in_chain g c ≡ false
      → Searched g d needed [] (slots_chain (suc fuel) g needed c d)
  unfolding slots_chain IsFound
  slots_chain_stop fuel c e =
      rw e (searched group_done refl (λ k m. absurd (let z : ⊥ = ground (arith, m) in z)))

  slots_chain_round :
      (fuel c : ℕ) (cs : List ℕ)
      → 2 ≤ c
      → c < eof_marker g
      → cluster_to_sector g c + g.sectors_per_cluster < u32_mod
      → Searched g d needed cs (slots_chain fuel g needed (next_cluster g d c) d)
      → Searched g d needed (c ∷ cs) (slots_chain (suc fuel) g needed c d)
  unfolding slots_chain IsGroup
  slots_chain_round fuel c cs a b fits rest =
      let e : in_chain g c ≡ true = ground (arith, a, b) in
      rw e (
        next_group_lem g d needed c cs
          (group_loop g.sectors_per_cluster g needed (cluster_to_sector g c) no_run d)
          (slots_chain fuel g needed (next_cluster g d c) d)
          (group_loop_lem g vol needed some_slot d (cluster_to_sector g c) g.sectors_per_cluster
            small fits)
          rest)

  next_cluster-stop :
      (c : ℕ)
      → (get_fat_entry g d c < 2) ⊎ (eof_marker g ≤ get_fat_entry g d c)
      → in_chain g (next_cluster g d c) ≡ false
  unfolding next_cluster
  next_cluster-stop c (inl h) = elim (Bool-cases (leb (eof_marker g) (get_fat_entry g d c))) [
    | inl e ↦ rw e refl
    | inr e ↦ rw e (ground (arith, h))
  ]
  next_cluster-stop c (inr h) =
      let e : leb (eof_marker g) (get_fat_entry g d c) ≡ true = ground (arith, h) in rw e refl

  next_cluster-link :
      (c : ℕ) → get_fat_entry g d c < eof_marker g → next_cluster g d c ≡ get_fat_entry g d c
  unfolding next_cluster
  next_cluster-link c h = ground (arith, h)

  slots_chain_lem :
      (cs : List ℕ) (c : ℕ)
      → IsChain (eof_marker g) (get_fat_entry g d) c cs
      → AllInData g cs
      → Searched g d needed cs (slots_chain (suc (length cs)) g needed c d)
  slots_chain_lem cs c (ends a b e) (one_more f fs) =
      slots_chain_round 1 c [] a b f
        (slots_chain_stop 0 (next_cluster g d c) (next_cluster-stop c e))
  slots_chain_lem cs c (link {cs = more} a b a' b' new rest) (one_more f fs) =
      slots_chain_round (suc (length more)) c more a b f
        (rw (next_cluster-link c b') (slots_chain_lem more (get_fat_entry g d c) rest fs))

  -- On a directory that is a chain of clusters of less than 2^23 sectors, whose numbers do not wrap
  -- around, and for at least one entry: FatFindFreeSlots ends, after a round more than the chain has clusters. If it returns a place, the
  -- `needed` entries from there on lie in one cluster of the chain and are free: deleted, up to the end
  -- of the directory if that comes first. If it finds none, no cluster of the chain has so many deleted
  -- entries one behind the other before its end or the end of the directory, nor room for them behind
  -- that. It fails only on a sector of the chain that cannot be read.
  pub find_free_slots_lem :
      (cs : List ℕ) (c : ℕ)
      → IsChain (eof_marker g) (get_fat_entry g d) c cs
      → AllInData g cs
      → 2 ≤ c
      → Searched g d needed cs (find_free_slots (suc (length cs)) g c needed d)
  unfolding find_free_slots
  find_free_slots_lem cs c chain all h =
      rw (is_fixed_root-cluster g.type c h) (slots_chain_lem cs c chain all)
