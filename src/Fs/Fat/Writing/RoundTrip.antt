-- ===== src/Fs/Fat/Writing/RoundTrip.antt =====
-- What Fat32WriteFile of fat32.c writes to the clusters of a file, Fat32ReadFile reads.
use vibecoded_os.Prelude.{ℕ, suc, ◌*◌, ◌≤◌, ◌<◌, ◌≡◌, ap, ◌∙◌, true, some, List, length, arith}
use vibecoded_os.Fs.Fat.{FatInfo, Disk, get_fat_entry, eof_marker}
use vibecoded_os.Fs.Fat.Table.{IsVolume, IsHealthy}
use vibecoded_os.Fs.Fat.Clusters.Free.{IsChain, IsChain-ap, AllInFat, AllInFat-elem}
use vibecoded_os.Fs.Fat.Files.{read_file}
use vibecoded_os.Fs.Fat.Files.Chains.{AllInData}
use vibecoded_os.Fs.Fat.Files.Chains as Chains
use vibecoded_os.Fs.Fat.Files.Part.{read_file_lem}
use vibecoded_os.Fs.Fat.Writing.{Written, write_chain}
use vibecoded_os.Fs.Fat.Writing.Data.{AreBytes}
use vibecoded_os.Fs.Fat.Writing.Chain.{
  AllInArea, no_cluster, one_cluster, stores, write_chain-Stores, cluster_to_sector_lem,
}

AllInArea-AllInData : {g : FatInfo} {cs : List ℕ} → AllInArea g cs → AllInData g cs
AllInArea-AllInData no_cluster = Chains.none_left
AllInArea-AllInData {g = g} (one_cluster {c = c} p area) =
    let e = cluster_to_sector_lem g c p in
    let room = p.2 in Chains.one_more (omega (arith, e, room)) (AllInArea-AllInData area)

-- On a drive without errors, for a chain of clusters in the data area that is long enough for the data,
-- the writing loop of Fat32WriteFile ends, after as many rounds as the chain has clusters and one more,
-- and succeeds; Fat32ReadFile of a file with this first cluster and the size of the data then returns
-- exactly the data.
pub read_file-write_chain :
    (g : FatInfo)
    → IsVolume g
    → (d : Disk) → IsHealthy d
    → (cs : List ℕ) (c : ℕ) (src : List ℕ) → AreBytes src
    → IsChain (eof_marker g) (get_fat_entry g d) c cs
    → AllInFat g cs
    → AllInArea g cs
    → 0 < g.sectors_per_cluster
    → length src ≤ length cs * (g.sectors_per_cluster * 512)
    → (w : Written) × (write_chain (suc (length cs)) g c src d ≡ some w)
      × (w.ok ≡ true)
      × (read_file (suc (length cs)) g c (length src) w.disk
          ≡ some (record { ok = true; bytes = src; remaining = 0 }))
read_file-write_chain g vol d ok cs c src h chain all area pos b =
    elim (write_chain-Stores g vol (suc (length cs)) cs c src d (omega arith) ok h chain all area
      b) [
        | stores w run st ↦
            let chain' = IsChain-ap cs (λ x m. st.entries x (AllInFat-elem all x m)) chain in
            let r =
              read_file_lem g vol w.disk st.healthy cs c (length src) chain'
                (AllInArea-AllInData area) pos b in
            (
              w,
              run,
              st.done,
              r ∙ ap (λ bytes. some (record { ok = true; bytes = bytes; remaining = 0 })) st.bytes,
            )
      ]
