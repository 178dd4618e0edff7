-- ===== src/Net/Ipv4/Sums.antt =====
-- The checksum of Kernel/net/ipv4.c is the ones' complement of the ones' complement sum.
use vibecoded_os.Prelude.{
  ℕ, zero, suc, ◌+◌, ◌-◌, ◌/◌, ◌%◌, ◌<◌, ◌≡◌, refl, sym, ◌∙◌, inl, inr, arith, ◌==◌, if◌then◌else◌,
  Bool-cases, u16_mod, u32_mod,
}
use vibecoded_os.Net.Bytes.{bytes16, bytes32}
use vibecoded_os.Net.Ipv4.{sum_words, fold_carries, checksum, header}

-- The ones' complement sum of a number: 0 for 0, else its remainder by 65535 in 1 to 65535.
abbrev pub ones_sum : ℕ → ℕ
ones_sum n = if n == 0 then 0 else (n - 1) % 65535 + 1

fold_step : (n : ℕ) → ones_sum (n % 65536 + n / 65536) ≡ ones_sum n
fold_step n = ground arith

fold_small : (fuel n : ℕ) → n < 65536 → fold_carries fuel n ≡ n
unfolding fold_carries
fold_small zero n h = refl
fold_small (suc fuel) n h = ground arith

ones_sum_small : (n : ℕ) → n < 65536 → ones_sum n ≡ n
ones_sum_small n h = ground arith

fold_once : (fuel n : ℕ) → fold_carries fuel (n % 65536 + n / 65536) ≡ fold_carries (suc fuel) n
unfolding fold_carries
fold_once fuel n = elim (Bool-cases (n / 65536 == 0)) [
  | inl e ↦
      rw e (
        let z : n % 65536 + n / 65536 ≡ n = ground arith in rw z (fold_small fuel n (ground arith)))
  | inr e ↦ rw e refl
]

fold_twice :
    (fuel n : ℕ)
    → n < u32_mod
    → let n1 = n % 65536 + n / 65536 in
      let n2 = n1 % 65536 + n1 / 65536 in (fold_carries (suc (suc fuel)) n ≡ n2) × (n2 < 65536)
fold_twice fuel n h =
    let n1 = n % 65536 + n / 65536 in
    let n2 = n1 % 65536 + n1 / 65536 in
    let b1 : n1 < 131072 = omega arith in
    let b2 : n2 < 65536 = omega arith in
    (sym (fold_once (suc fuel) n) ∙ (sym (fold_once fuel n1) ∙ fold_small fuel n2 b2), b2)

-- Three rounds of the loop that folds the carries are enough for every u32: they end with a number
-- below 2^16, which is the ones' complement sum, and a fourth round would change nothing.
pub fold_carries_lem :
    (n : ℕ)
    → n < u32_mod
    → (fold_carries 3 n ≡ ones_sum n)
      × (fold_carries 3 n < u16_mod)
      × (fold_carries 4 n ≡ fold_carries 3 n)
fold_carries_lem n h =
    let n1 = n % 65536 + n / 65536 in
    let n2 = n1 % 65536 + n1 / 65536 in
    let e = fold_twice 1 n h in
    let e' = fold_twice 2 n h in
    let b2 = e.1 in
    (
      e.0 ∙ (sym (ones_sum_small n2 b2) ∙ (fold_step n1 ∙ fold_step n)),
      rw (e.0) b2,
      e'.0 ∙ sym (e.0),
    )

sum_words-header :
    (total id proto sum src dst : ℕ)
    → sum < u16_mod
    → sum_words (header total id proto sum src dst)
      ≡ sum_words (header total id proto 0 src dst) + sum
unfolding sum_words header bytes16 bytes32
sum_words-header total id proto sum src dst h = omega arith

header_bound :
    (total id proto src dst : ℕ)
    → total < u16_mod
    → id < u16_mod
    → proto < 256
    → (0 < sum_words (header total id proto 0 src dst))
      × (sum_words (header total id proto 0 src dst) < 1048576)
unfolding sum_words header bytes16 bytes32
header_bound total id proto src dst a b c = (omega arith, omega arith)

complete : (s : ℕ) → 0 < s → ones_sum (s + (65535 - ones_sum s)) ≡ 65535
complete s pos = ground arith

-- A header that carries the checksum which Ipv4Send computes over it with an empty checksum field is
-- one whose own checksum is 0, which is how a receiver verifies it.
pub checksum-header :
    (total id proto src dst : ℕ)
    → total < u16_mod
    → id < u16_mod
    → proto < 256
    → let sum = checksum (header total id proto 0 src dst) in
      (sum < u16_mod) × (checksum (header total id proto sum src dst) ≡ 0)
unfolding checksum
checksum-header total id proto src dst a b c =
    let s = sum_words (header total id proto 0 src dst) in
    let bd = header_bound total id proto src dst a b c in
    let lo = bd.0 in
    let hi = bd.1 in
    let m : s % u32_mod ≡ s = omega arith in
    let f = fold_carries_lem s (omega arith) in
    let fe = f.0 in
    let fb = f.1 in
    let ck = 65535 - ones_sum s in
    let e0 : 65535 - fold_carries 3 (s % u32_mod) % u16_mod ≡ ck = rw (m, fe) (ground arith) in
    let e1 = sum_words-header total id proto ck src dst (omega arith) in
    let g = fold_carries_lem (s + ck) (omega arith) in
    let ge = g.0 in
    let cs = complete s lo in
    let m2 : (s + ck) % u32_mod ≡ s + ck = omega arith in
    rw e0 (omega arith, rw (e1, m2, ge, cs) refl)
