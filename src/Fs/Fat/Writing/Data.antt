-- ===== src/Fs/Fat/Writing/Data.antt =====
-- The data that Fat32WriteFile of fat32.c writes to the clusters of a file.
use vibecoded_os.Prelude.{
  ℕ, zero, suc, ◌+◌, ◌-◌, ◌*◌, ◌%◌, ◌≤◌, ◌<◌, ◌≡◌, ◌⊎◌, refl, sym, ap, ◌∙◌, true, false, List, [],
  ◌∷◌, ◌++◌, leb, ◌==◌, if◌then◌else◌, min, get_or, length, take, drop, u32_mod, arith, Bool-cases,
  inl, inr, length-drop, length-take,
}
use vibecoded_os.Fs.Fat.{FatInfo, Disk}
use vibecoded_os.Fs.Fat.Table.{IsVolume, IsHealthy, write_sector-healthy}
use vibecoded_os.Fs.Fat.Files.{copied}
use vibecoded_os.Fs.Fat.Files.Contents.{
  sector_bytes, take-append, take_all, length-copied, drop-past, drop-drop, copied-ap,
}
use vibecoded_os.Fs.Fat.Writing.{Written, padded, write_cluster}

-- All elements are bytes.
abbrev pub AreBytes : List ℕ → Type 0
AreBytes src = (i : ℕ) → get_or src i 0 < 256

pub drop-AreBytes : (n : ℕ) (src : List ℕ) → AreBytes src → AreBytes (drop n src)
drop-AreBytes zero src h = h
drop-AreBytes (suc n) [] h = h
drop-AreBytes (suc n) (x ∷ src) h = drop-AreBytes n src (λ i. h (suc i))

take-AreBytes : (n : ℕ) (src : List ℕ) → AreBytes src → AreBytes (take n src)
take-AreBytes zero src h i = omega arith
take-AreBytes (suc n) [] h i = omega arith
take-AreBytes (suc n) (x ∷ src) h zero = h zero
take-AreBytes (suc n) (x ∷ src) h (suc i) = take-AreBytes n src (λ j. h (suc j)) i

copied-shift :
    (n at : ℕ) (x : ℕ) (xs : List ℕ) → copied n (at + 1) (padded (x ∷ xs)) ≡ copied n at (padded xs)
unfolding copied padded
copied-shift zero at x xs = refl
copied-shift (suc n) at x xs =
    let e : at + 1 ≡ suc at = omega arith in let r = copied-shift n (at + 1) x xs in rw (r, e) refl

-- The sector of some bytes begins with them.
copied-padded :
    (n : ℕ) (xs : List ℕ) → length xs ≤ n → take (length xs) (copied n 0 (padded xs)) ≡ xs
unfolding copied padded
copied-padded n [] h = refl
copied-padded zero (x ∷ xs) h = absurd (omega (arith, h))
copied-padded (suc n) (x ∷ xs) h =
    let r = copied-shift n 0 x xs in let q = copied-padded n xs (omega arith) in rw (r, q) refl

take-take-drop : (k n : ℕ) (src : List ℕ) → take k src ++ take n (drop k src) ≡ take (k + n) src
take-take-drop zero n src = let e : 0 + n ≡ n = omega arith in rw e refl
take-take-drop (suc k) zero [] = let e : suc k + 0 ≡ suc k = omega arith in rw e refl
take-take-drop (suc k) (suc n) [] =
    let e : suc k + suc n ≡ suc (k + suc n) = omega arith in rw e refl
take-take-drop (suc k) n (x ∷ src) =
    let e : suc k + n ≡ suc (k + n) = omega arith in rw e (ap (λ r. x ∷ r) (take-take-drop k n src))

sector_take :
    (n : ℕ) (src : List ℕ) → take (min (length src) 512 + n * 512) src ≡ take (suc n * 512) src
sector_take n src = elim (Bool-cases (leb 512 (length src))) [
  | inl e ↦ let m : min (length src) 512 + n * 512 ≡ suc n * 512 = ground (arith, e) in rw m refl
  | inr e ↦
      let l : length src < 512 = ground (arith, e) in
      take_all (min (length src) 512 + n * 512) src (omega (arith, l))
      ∙ sym (take_all (suc n * 512) src (omega (arith, l)))
]

sector_drop :
    (n : ℕ) (src : List ℕ) → drop (min (length src) 512 + n * 512) src ≡ drop (suc n * 512) src
sector_drop n src = elim (Bool-cases (leb 512 (length src))) [
  | inl e ↦ let m : min (length src) 512 + n * 512 ≡ suc n * 512 = ground (arith, e) in rw m refl
  | inr e ↦
      let l : length src < 512 = ground (arith, e) in
      drop-past (min (length src) 512 + n * 512) src (omega (arith, l))
      ∙ sym (drop-past (suc n * 512) src (omega (arith, l)))
]

padded-byte : (k : ℕ) (src : List ℕ) → AreBytes src → (i : ℕ) → padded (take k src) i < 256
unfolding padded
padded-byte k src h i = take-AreBytes k src h i

-- The sector with the next bytes of the data, and those behind it.
bytes_step :
    (n : ℕ) (src rest : List ℕ)
    → take (length (drop (min (length src) 512) src)) rest
      ≡ take (n * 512) (drop (min (length src) 512) src)
    → take (length src) (copied 512 0 (padded (take (min (length src) 512) src)) ++ rest)
      ≡ take (suc n * 512) src
bytes_step n src rest h =
    let k = min (length src) 512 in
    let block = take k src in
    let l : length block ≡ k = let q = length-take k src in omega (arith, q) in
    let buf = padded block in
    let c = take-append (length src) (copied 512 0 buf) rest in
    let cl = length-copied 512 0 buf in
    let first : take k (copied 512 0 buf) ≡ block =
      ap (λ j. take j (copied 512 0 buf)) (sym l) ∙ copied-padded 512 block (omega (arith, l)) in
    let m : length src - 512 ≡ length (drop k src) =
      let q = length-drop k src in omega (arith, q) in
    rw (c, cl, first, m, h, take-take-drop k (n * 512) src) (sector_take n src)

-- What writing to the `n` sectors from `sec` on delivers.
pub record IsWritten (g : FatInfo) (n sec : ℕ) (src : List ℕ) (d : Disk) (w : Written)
    : Type 0 where
  pub done : w.ok ≡ true
  pub healthy : IsHealthy w.disk
  pub left : w.left ≡ drop (n * 512) src
  pub bytes : take (length src) (sector_bytes n g w.disk sec) ≡ take (n * 512) src
  pub others :
      (m i : ℕ)
      → (m < g.partition_start_lba + sec) ⊎ (g.partition_start_lba + (sec + n) ≤ m)
      → w.disk.sector m i ≡ d.sector m i

module _ (g : FatInfo) (vol : IsVolume g) where
  pub write_cluster-IsWritten :
      (n sec : ℕ) (src : List ℕ) (d : Disk)
      → IsHealthy d
      → AreBytes src
      → sec + n < u32_mod
      → IsWritten g n sec src d (write_cluster n g sec src d)
  unfolding write_cluster sector_bytes
  write_cluster-IsWritten zero sec src d ok h b = record {
    done = refl;
    healthy = ok;
    left = refl;
    bytes = take_all (length src) [] (omega arith);
    others = λ m i o. refl;
  }
  write_cluster-IsWritten (suc n) sec [] d ok h b = record {
    done = refl;
    healthy = ok;
    left = sym (drop-past (suc n * 512) [] (omega arith));
    bytes = sym (take_all (suc n * 512) [] (omega arith));
    others = λ m i o. refl;
  }
  write_cluster-IsWritten (suc n) sec (x ∷ xs) d ok h b =
      let src = x ∷ xs in
      let k = min (length src) 512 in
      let kk : min (length src) g.bytes_per_sector ≡ k =
        ap (λ b. min (length src) b) vol.sector_size in
      let next : (sec + 1) % u32_mod ≡ sec + 1 = omega arith in
      let buf = padded (take k src) in
      let s = g.partition_start_lba + sec in
      let d' : Disk = record d { sector = λ m. if m == s then buf else d.sector m } in
      let w = write_sector-healthy g vol d ok sec (omega (arith, b)) buf in
      let ok' : IsHealthy d' = record {
        answers = ok.answers;
        bytes = λ m i. let t = padded-byte k src h i in ground (arith, t, ok.bytes m i);
      } in
      let rest =
        write_cluster-IsWritten n (sec + 1) (drop k src) d' ok' (drop-AreBytes k src h)
          (omega (arith, b)) in
      let full : (length src == 0) ≡ false = ground arith in
      let kept : (i : ℕ) → (write_cluster n g (sec + 1) (drop k src) d').disk.sector s i ≡ buf i =
        λ i. rest.others s i (inl (omega arith)) ∙ ground arith in
      let c =
        copied-ap 512 0 ((write_cluster n g (sec + 1) (drop k src) d').disk.sector s) buf kept in
      rw (kk, w, full, next)
        (record {
          done = rest.done;
          healthy = rest.healthy;
          left = rest.left ∙ drop-drop (n * 512) k src ∙ sector_drop n src;
          bytes = rw c (
              bytes_step n src
                (sector_bytes n g (write_cluster n g (sec + 1) (drop k src) d').disk (sec + 1))
                rest.bytes);
          others = λ m i o. rest.others m i (ground (arith, o)) ∙ ground (arith, o);
        })
