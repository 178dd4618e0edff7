-- ===== src/Fs/Fat/Files/Part.antt =====
-- Fat32ReadFileAt of fat32.c copies the requested part of the file, and Fat32ReadFile all of it.
use vibecoded_os.Prelude.{
  ℕ, zero, suc, ◌+◌, ◌-◌, ◌*◌, ◌%◌, ◌≤◌, ◌<◌, ◌≡◌, refl, sym, ap, ◌∙◌, Bool, true, false, Option,
  some, List, [], ◌∷◌, ◌++◌, ◌&&◌, leb, min, length, take, drop, u32_mod, arith, Bool-cases, inl,
  inr, add32,
}
use vibecoded_os.Fs.Fat.{FatInfo, Disk, cluster_to_sector, get_fat_entry, eof_marker}
use vibecoded_os.Fs.Fat.Table.{IsVolume, IsHealthy}
use vibecoded_os.Fs.Fat.Clusters.Free.{IsChain, ends, link}
use vibecoded_os.Fs.Fat.Files.{read, is_data, skip_clusters, read_file, read_file_at, clip_count}
use vibecoded_os.Fs.Fat.Files.Contents.{
  sector_bytes, chain_bytes, length-sector_bytes, drop-append, drop-past, drop-drop,
}
use vibecoded_os.Fs.Fat.Files.Chains.{
  AllInData, none_left, one_more, read_chain_at_lem, next_cluster_lem, is_data-cluster,
}
use vibecoded_os.Fs.Fat.Files.Whole.{read_chain_at-read_chain}

-- Where the first loop stops: a cluster of the chain, at its position in the file.
record IsSkipped (g : FatInfo) (d : Disk) (pos offset : ℕ) (cs : List ℕ) (pos' c' : ℕ)
    (cs' : List ℕ) : Type 0 where
  chain : IsChain (eof_marker g) (get_fat_entry g d) c' cs'
  in_data : AllInData g cs'
  shorter : length cs' ≤ length cs
  from : pos ≤ pos'
  before : pos' ≤ offset
  inside : offset < pos' + g.sectors_per_cluster * 512
  room :
      pos' + length cs' * (g.sectors_per_cluster * 512)
      ≡ pos + length cs * (g.sectors_per_cluster * 512)
  bytes : chain_bytes g d cs' ≡ drop (pos' - pos) (chain_bytes g d cs)

-- The result of the first loop is such a cluster.
data Stops (g : FatInfo) (d : Disk) (pos offset : ℕ) (cs : List ℕ) (r : Option (ℕ × ℕ))
    : Type 0 where
  stops_at :
      (pos' c' : ℕ) (cs' : List ℕ)
      → r ≡ some (pos', c')
      → IsSkipped g d pos offset cs pos' c' cs'
      → Stops g d pos offset cs r

module _ (g : FatInfo) (vol : IsVolume g) (d : Disk) (ok : IsHealthy d) where
  abbrev cluster_size : ℕ
  cluster_size = g.sectors_per_cluster * 512

  size_plain :
      cluster_size < u32_mod → g.sectors_per_cluster * g.bytes_per_sector % u32_mod ≡ cluster_size
  size_plain h =
      let e : cluster_size % u32_mod ≡ cluster_size = omega (arith, h) in
      ap (λ b. g.sectors_per_cluster * b % u32_mod) vol.sector_size ∙ e

  stays :
      (pos offset c : ℕ) (cs : List ℕ)
      → IsChain (eof_marker g) (get_fat_entry g d) c cs
      → AllInData g cs
      → pos ≤ offset
      → offset < pos + cluster_size
      → IsSkipped g d pos offset cs pos c cs
  stays pos offset c cs chain all a b = record {
    chain = chain;
    in_data = all;
    shorter = omega arith;
    from = omega arith;
    before = a;
    inside = b;
    room = refl;
    bytes = let z : pos - pos ≡ 0 = omega arith in rw z refl;
  }

  -- The tests of the first loop.
  skip_test :
      (c pos offset : ℕ) (b : Bool)
      → 2 ≤ c
      → c < eof_marker g
      → pos + cluster_size < u32_mod
      → leb (pos + cluster_size) offset ≡ b
      → (is_data c && leb (add32 pos (g.sectors_per_cluster * g.bytes_per_sector % u32_mod)) offset)
        ≡ b
  skip_test c pos offset b a a' w e =
      let p : (pos + cluster_size) % u32_mod ≡ pos + cluster_size = omega (arith, w) in
      rw (is_data-cluster g vol d ok c a a', size_plain (omega (arith, w)), p) e

  -- The bytes behind the first cluster.
  behind :
      (c : ℕ) (cs : List ℕ) (n : ℕ)
      → cluster_size ≤ n
      → drop (n - cluster_size) (chain_bytes g d cs)
        ≡ drop n
            (sector_bytes g.sectors_per_cluster g d (cluster_to_sector g c) ++ chain_bytes g d cs)
  behind c cs n h =
      let bytes = sector_bytes g.sectors_per_cluster g d (cluster_to_sector g c) in
      let l = length-sector_bytes g.sectors_per_cluster g d (cluster_to_sector g c) in
      let e = drop-append n bytes (chain_bytes g d cs) in
      let z = drop-past n bytes (omega (arith, l, h)) in rw (e, z, l) refl

  skip_clusters_lem :
      (fuel : ℕ) (cs : List ℕ) (c pos offset : ℕ)
      → length cs ≤ fuel
      → IsChain (eof_marker g) (get_fat_entry g d) c cs
      → AllInData g cs
      → pos ≤ offset
      → offset < pos + length cs * cluster_size
      → pos + length cs * cluster_size < u32_mod
      → Stops g d pos offset cs (skip_clusters fuel g pos offset c d)
  unfolding skip_clusters chain_bytes
  skip_clusters_lem zero cs c pos offset f none_chain none_left a b w = elim none_chain [ ]
  skip_clusters_lem zero cs c pos offset f chain (one_more h all) a b w = absurd (omega (arith, f))
  skip_clusters_lem (suc fuel) cs c pos offset f chain none_left a b w = elim chain [ ]
  skip_clusters_lem (suc fuel) cs c pos offset f (ends e e' last) (one_more h all) a b w =
      let b' : offset < pos + cluster_size = omega (arith, b) in
      let t = skip_test c pos offset false e e' (omega (arith, w)) (ground (arith, b')) in
      stops_at pos c (c ∷ []) (rw t refl)
        (stays pos offset c (c ∷ []) (ends e e' last) (one_more h all) a b')
  skip_clusters_lem (suc fuel) cs c pos offset f (link {cs = rest} e e' n n' o chain)
        (one_more h all) a b w =
      let m : suc (length rest) * cluster_size ≡ length rest * cluster_size + cluster_size =
        omega arith in
      let size = size_plain (omega (arith, w, m)) in
      let p : (pos + cluster_size) % u32_mod ≡ pos + cluster_size = omega (arith, w, m) in
      elim (Bool-cases (leb (pos + cluster_size) offset)) [
        | inr q ↦
            let t = skip_test c pos offset false e e' (omega (arith, w, m)) q in
            stops_at pos c (c ∷ rest) (rw t refl) (
              stays pos offset c (c ∷ rest) (link e e' n n' o chain) (one_more h all) a
                (ground (arith, q)))
        | inl q ↦
            let t = skip_test c pos offset true e e' (omega (arith, w, m)) q in
            elim (skip_clusters_lem fuel rest (get_fat_entry g d c) (pos + cluster_size) offset
              (omega (arith, f)) chain all (ground (arith, q)) (omega (arith, b, m))
              (omega (arith, w, m))) [
                | stops_at pos' c' cs' run r ↦
                    stops_at pos' c' cs' (rw (t, size, p, next_cluster_lem g vol d ok c n') run)
                      (record {
                        chain = r.chain;
                        in_data = r.in_data;
                        shorter = let k = r.shorter in omega (arith, k);
                        from = let k = r.from in omega (arith, k);
                        before = r.before;
                        inside = r.inside;
                        room = let k = r.room in omega (arith, k, m);
                        bytes =
                            let k = r.from in
                            let z : pos' - (pos + cluster_size) ≡ pos' - pos - cluster_size =
                              omega arith in
                            r.bytes
                            ∙ ap (λ i. drop i (chain_bytes g d rest)) z
                            ∙ behind c rest (pos' - pos) (omega (arith, k));
                      })
              ]
      ]

  IsChain-is_data :
      {c : ℕ} {cs : List ℕ} → IsChain (eof_marker g) (get_fat_entry g d) c cs → is_data c ≡ true
  IsChain-is_data (ends {c = c} a b e) = is_data-cluster g vol d ok c a b
  IsChain-is_data (link {c = c} a b n n' o chain) = is_data-cluster g vol d ok c a b

  clip_count_lem :
      (size offset count : ℕ)
      → offset + count < u32_mod
      → clip_count size offset count ≡ min count (size - offset)
  clip_count_lem size offset count h = ground (arith, h)

  -- On a drive without errors, for an open file whose clusters form a chain that is long enough for its
  -- size and below 4 GB, for an offset in the file and a count whose sum with the offset is below 2^32:
  -- Fat32ReadFileAt ends, after as many rounds in each loop as the chain has clusters and one more, and
  -- copies the bytes of the file from the offset on: `count` of them, or those up to the end of the file
  -- where there are fewer.
  pub read_file_at_lem :
      (cs : List ℕ) (c size offset count : ℕ)
      → IsChain (eof_marker g) (get_fat_entry g d) c cs
      → AllInData g cs
      → size ≤ length cs * cluster_size
      → length cs * cluster_size < u32_mod
      → offset < size
      → offset + count < u32_mod
      → read_file_at (suc (length cs)) g c size offset count d
        ≡ read (record {
          ok = true;
          bytes = take (min count (size - offset)) (drop offset (chain_bytes g d cs));
          remaining = 0;
        })
  unfolding read_file_at
  read_file_at_lem cs c size offset count chain all fits w o v =
      elim (skip_clusters_lem (suc (length cs)) cs c 0 offset (omega arith) chain all (omega arith)
        (omega (arith, fits, o)) (omega (arith, w))) [
          | stops_at pos' c' cs' run r ↦
              let inside : leb size offset ≡ false = ground (arith, o) in
              let b = r.before in
              let n = r.inside in
              let m = r.room in
              let live : is_data c' ≡ true = IsChain-is_data r.chain in
              let k = clip_count_lem size offset count v in
              let z : pos' - 0 + (offset - pos') ≡ offset = omega (arith, b) in
              let part =
                read_chain_at_lem g vol d ok (suc (length cs)) cs' c' (offset - pos')
                  (min count (size - offset)) (let l = r.shorter in omega (arith, l)) r.chain
                  r.in_data (omega (arith, n, b)) (omega (arith, b, n, m, fits, o)) in
              rw
                (
                  inside,
                  run,
                  live,
                  k,
                  part,
                  r.bytes,
                  drop-drop (offset - pos') (pos' - 0) (chain_bytes g d cs),
                  z,
                )
                refl
        ]

  -- For an open file whose clusters form a chain that is long enough for its size, Fat32ReadFile ends,
  -- after as many rounds as the chain has clusters and one more, without an error, and copies exactly
  -- the first `size` bytes of the clusters in their order.
  pub read_file_lem :
      (cs : List ℕ) (c size : ℕ)
      → IsChain (eof_marker g) (get_fat_entry g d) c cs
      → AllInData g cs
      → 0 < g.sectors_per_cluster
      → size ≤ length cs * cluster_size
      → read_file (suc (length cs)) g c size d
        ≡ some (record { ok = true; bytes = take size (chain_bytes g d cs); remaining = 0 })
  unfolding read_file
  read_file_lem cs c size chain all pos fits =
      sym (read_chain_at-read_chain g vol d (suc (length cs)) c size)
      ∙ read_chain_at_lem g vol d ok (suc (length cs)) cs c 0 size (omega arith) chain all
          (omega arith) (omega (arith, fits))
