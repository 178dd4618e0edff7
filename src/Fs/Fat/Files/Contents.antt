-- ===== src/Fs/Fat/Files/Contents.antt =====
-- The bytes of a chain of clusters, and what the inner loops of fat32.c copy of them.
use vibecoded_os.Prelude.{
  ℕ, zero, suc, ◌+◌, ◌-◌, ◌*◌, ◌%◌, ◌≤◌, ◌<◌, ◌≡◌, ◌∙◌, sym, refl, ap, true, false, List, [], ◌∷◌,
  ◌++◌, leb, ◌==◌, min, length, take, drop, u32_mod, arith, Bool-cases, inl, inr, length-append,
}
use vibecoded_os.Fs.Fat.{FatInfo, Sector, Disk, cluster_to_sector}
use vibecoded_os.Fs.Fat.Table.{IsVolume, IsHealthy, read_sector-healthy}
use vibecoded_os.Fs.Fat.Files.{copied, read_cluster_at}

-- The bytes of `n` sectors of 512 bytes from `sec` on.
unfoldable pub sector_bytes : (n : ℕ) → FatInfo → Disk → (sec : ℕ) → List ℕ
sector_bytes zero g d sec = []
sector_bytes (suc n) g d sec =
    copied 512 0 (d.sector (g.partition_start_lba + sec)) ++ sector_bytes n g d (sec + 1)

-- The bytes of the clusters of a list, one cluster after the other.
unfoldable pub chain_bytes : FatInfo → Disk → List ℕ → List ℕ
chain_bytes g d [] = []
chain_bytes g d (c ∷ cs) =
    sector_bytes g.sectors_per_cluster g d (cluster_to_sector g c) ++ chain_bytes g d cs

pub length-copied : (n at : ℕ) (buf : Sector) → length (copied n at buf) ≡ n
unfolding copied
length-copied zero at buf = refl
length-copied (suc n) at buf = ap suc (length-copied n (at + 1) buf)

pub length-sector_bytes :
    (n : ℕ) (g : FatInfo) (d : Disk) (sec : ℕ) → length (sector_bytes n g d sec) ≡ n * 512
unfolding sector_bytes
length-sector_bytes zero g d sec = omega arith
length-sector_bytes (suc n) g d sec =
    let buf = d.sector (g.partition_start_lba + sec) in
    omega (
      arith,
      length-append (copied 512 0 buf) (sector_bytes n g d (sec + 1)),
      length-copied 512 0 buf,
      length-sector_bytes n g d (sec + 1),
    )

pub take-copied : (k n at : ℕ) (buf : Sector) → k ≤ n → take k (copied n at buf) ≡ copied k at buf
unfolding copied
take-copied zero n at buf h = refl
take-copied (suc k) zero at buf h = absurd (omega (arith, h))
take-copied (suc k) (suc n) at buf h =
    ap (λ r. buf at ∷ r) (take-copied k n (at + 1) buf (omega arith))

drop-copied :
    (k n at : ℕ) (buf : Sector) → k ≤ n → drop k (copied n at buf) ≡ copied (n - k) (at + k) buf
unfolding copied
drop-copied zero n at buf h =
    let e : n - 0 ≡ n = omega arith in let e' : at + 0 ≡ at = omega arith in rw (e, e') refl
drop-copied (suc k) zero at buf h = absurd (omega (arith, h))
drop-copied (suc k) (suc n) at buf h =
    let e : at + suc k ≡ at + 1 + k = omega arith in
    let e' : suc n - suc k ≡ n - k = omega arith in
    rw (e, e') (drop-copied k n (at + 1) buf (omega arith))

pub take_all : {A : Type 0} (n : ℕ) (xs : List A) → length xs ≤ n → take n xs ≡ xs
take_all zero [] h = refl
take_all zero (x ∷ xs) h = absurd (omega (arith, h))
take_all (suc n) [] h = refl
take_all (suc n) (x ∷ xs) h = ap (λ r. x ∷ r) (take_all n xs (omega arith))

pub take-append :
    {A : Type 0} (n : ℕ) (xs ys : List A)
    → take n (xs ++ ys) ≡ take (min n (length xs)) xs ++ take (n - length xs) ys
take-append n [] ys =
    let e : n - 0 ≡ n = omega arith in let e' : min n 0 ≡ 0 = omega arith in rw (e, e') refl
take-append zero (x ∷ xs) ys =
    let e : 0 - length (x ∷ xs) ≡ 0 = omega arith in
    let e' : min 0 (length (x ∷ xs)) ≡ 0 = omega arith in rw (e, e') refl
take-append (suc n) (x ∷ xs) ys =
    let e : suc n - suc (length xs) ≡ n - length xs = omega arith in
    let e' : min (suc n) (suc (length xs)) ≡ suc (min n (length xs)) = omega arith in
    rw (e, e') (ap (λ r. x ∷ r) (take-append n xs ys))

pub drop-append :
    {A : Type 0} (n : ℕ) (xs ys : List A) → drop n (xs ++ ys) ≡ drop n xs ++ drop (n - length xs) ys
drop-append zero [] ys = refl
drop-append (suc n) [] ys = let e : suc n - 0 ≡ suc n = omega arith in rw e refl
drop-append zero (x ∷ xs) ys = let e : 0 - length (x ∷ xs) ≡ 0 = omega arith in rw e refl
drop-append (suc n) (x ∷ xs) ys =
    let e : suc n - suc (length xs) ≡ n - length xs = omega arith in rw e (drop-append n xs ys)

pub drop-past : {A : Type 0} (n : ℕ) (xs : List A) → length xs ≤ n → drop n xs ≡ []
drop-past zero [] h = refl
drop-past zero (x ∷ xs) h = absurd (omega (arith, h))
drop-past (suc n) [] h = refl
drop-past (suc n) (x ∷ xs) h = drop-past n xs (omega arith)

pub drop-drop : (m n : ℕ) (xs : List ℕ) → drop m (drop n xs) ≡ drop (n + m) xs
drop-drop m zero xs = let e : 0 + m ≡ m = omega arith in rw e refl
drop-drop m (suc n) [] = drop-past m [] (omega arith) ∙ sym (drop-past (suc n + m) [] (omega arith))
drop-drop m (suc n) (x ∷ xs) =
    let e : suc n + m ≡ suc (n + m) = omega arith in rw e (drop-drop m n xs)

-- Equal sectors have equal bytes.
pub copied-ap : (n at : ℕ) (a b : Sector) → ((i : ℕ) → a i ≡ b i) → copied n at a ≡ copied n at b
unfolding copied
copied-ap zero at a b e = refl
copied-ap (suc n) at a b e = rw (e at, copied-ap n (at + 1) a b e) refl

-- Behind the part of the first sector that is left out, the bytes to copy are the rest of that sector
-- and then the next ones.
slice_step :
    (rem skip : ℕ) (buf : Sector) (ys : List ℕ)
    → skip < 512
    → copied (min rem (512 - skip)) skip buf ++ take (rem - min rem (512 - skip)) (drop 0 ys)
      ≡ take rem (drop skip (copied 512 0 buf ++ ys))
slice_step rem skip buf ys h =
    let d = drop-append skip (copied 512 0 buf) ys in
    let l = length-copied 512 0 buf in
    let e : skip - length (copied 512 0 buf) ≡ 0 = omega (arith, l) in
    let c = drop-copied skip 512 0 buf (omega arith) in
    let z : 0 + skip ≡ skip = omega arith in
    let zs = copied (512 - skip) skip buf in
    let l' = length-copied (512 - skip) skip buf in
    let t = take-append rem zs ys in
    let m = take-copied (min rem (512 - skip)) (512 - skip) skip buf (omega arith) in
    let r : rem - min rem (512 - skip) ≡ rem - (512 - skip) = omega arith in
    rw (d, e, c, z, t, l', m, r) refl

-- What is left out of a sector that is left out whole.
slice_past :
    (skip : ℕ) (buf : Sector) (ys : List ℕ)
    → 512 ≤ skip
    → drop skip (copied 512 0 buf ++ ys) ≡ drop (skip - 512) ys
slice_past skip buf ys h =
    let e = drop-append skip (copied 512 0 buf) ys in
    let l = length-copied 512 0 buf in
    let q = drop-past skip (copied 512 0 buf) (omega (arith, l, h)) in rw (e, q, l) refl

module _ (g : FatInfo) (vol : IsVolume g) (d : Disk) (ok : IsHealthy d) where
  whole_sector : (skip : ℕ) → leb g.bytes_per_sector skip ≡ leb 512 skip
  whole_sector skip = ap (λ b. leb b skip) vol.sector_size

  past_sector : (skip : ℕ) → skip - g.bytes_per_sector ≡ skip - 512
  past_sector skip = ap (λ b. skip - b) vol.sector_size

  to_copy_plain : (rem skip : ℕ) → min rem (g.bytes_per_sector - skip) ≡ min rem (512 - skip)
  to_copy_plain rem skip = ap (λ b. min rem (b - skip)) vol.sector_size

  -- From the sectors of a cluster, `skip` bytes are left out and `rem` are copied.
  pub read_cluster_at_lem :
      (n sec skip rem : ℕ)
      → sec + n < u32_mod
      → (read_cluster_at n g sec skip rem d).0 ≡ record {
        ok = true;
        bytes = take rem (drop skip (sector_bytes n g d sec));
        remaining = rem - (n * 512 - skip);
      }
  unfolding read_cluster_at sector_bytes
  read_cluster_at_lem zero sec skip rem h =
      let a : drop {A = ℕ} skip [] ≡ [] = drop-past skip [] (omega arith) in
      let b : take {A = ℕ} rem [] ≡ [] = take_all rem [] (omega arith) in
      let r : rem - (0 - skip) ≡ rem = omega arith in rw (a, b, r) refl
  read_cluster_at_lem (suc n) sec skip rem h =
      let next : (sec + 1) % u32_mod ≡ sec + 1 = omega arith in
      let buf = d.sector (g.partition_start_lba + sec) in
      let ys = sector_bytes n g d (sec + 1) in
      let read = read_sector-healthy g vol d ok sec (omega arith) in
      elim (Bool-cases (rem == 0)) [
        | inl e ↦
            let q : rem ≡ 0 = ground (arith, e) in
            let r : 0 - (suc n * 512 - skip) ≡ 0 = omega arith in rw (e, q, r) refl
        | inr e ↦ elim (Bool-cases (leb 512 skip)) [
          | inl w ↦
              let b = past_sector skip in
              let rec = read_cluster_at_lem n (sec + 1) (skip - 512) rem (omega (arith, h)) in
              let past = slice_past skip buf ys (ground (arith, w)) in
              let r : rem - (n * 512 - (skip - 512)) ≡ rem - (suc n * 512 - skip) =
                ground (arith, w) in
              rw (e, read, whole_sector skip, w, next, b, rec, past, r) refl
          | inr w ↦
              let b = to_copy_plain rem skip in
              let k = min rem (512 - skip) in
              let rec = read_cluster_at_lem n (sec + 1) 0 (rem - k) (omega (arith, h)) in
              let step = slice_step rem skip buf ys (ground (arith, w)) in
              let r : rem - k - (n * 512 - 0) ≡ rem - (suc n * 512 - skip) = ground (arith, w) in
              rw (e, read, whole_sector skip, w, next, b, rec, step, r) refl
        ]
      ]

  -- Where bytes are left to copy behind the cluster, what is left of `skip` is what goes beyond it.
  pub read_cluster_at_skip :
      (n sec skip rem : ℕ)
      → sec + n < u32_mod
      → 0 < rem - (n * 512 - skip)
      → (read_cluster_at n g sec skip rem d).1 ≡ skip - n * 512
  unfolding read_cluster_at
  read_cluster_at_skip zero sec skip rem h left = omega arith
  read_cluster_at_skip (suc n) sec skip rem h left =
      let next : (sec + 1) % u32_mod ≡ sec + 1 = omega arith in
      let read = read_sector-healthy g vol d ok sec (omega arith) in
      let e : (rem == 0) ≡ false = ground (arith, left) in
      elim (Bool-cases (leb 512 skip)) [
        | inl w ↦
            let b = past_sector skip in
            let le : 512 ≤ skip = ground (arith, w) in
            let rec =
              read_cluster_at_skip n (sec + 1) (skip - 512) rem (omega (arith, h))
                (omega (arith, left, le)) in
            let r : skip - 512 - n * 512 ≡ skip - suc n * 512 = omega arith in
            rw (e, read, whole_sector skip, w, next, b, rec, r) refl
        | inr w ↦
            let b = to_copy_plain rem skip in
            let lt : skip < 512 = ground (arith, w) in
            let rec =
              read_cluster_at_skip n (sec + 1) 0 (rem - min rem (512 - skip)) (omega (arith, h))
                (omega (arith, left, lt)) in
            let r : 0 - n * 512 ≡ skip - suc n * 512 = omega (arith, lt) in
            rw (e, read, whole_sector skip, w, next, b, rec, r) refl
      ]
