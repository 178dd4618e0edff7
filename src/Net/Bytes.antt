-- ===== src/Net/Bytes.antt =====
-- Byte order and memory blocks, as Kernel/net uses them. A buffer is the list of its bytes; the
-- machine is little-endian.
use vibecoded_os.Prelude.{
  ℕ, zero, suc, ◌+◌, ◌*◌, ◌/◌, ◌%◌, ◌^◌, ◌≤◌, ◌<◌, ◌≡◌, refl, ap, ◌∙◌, List, [], ◌∷◌, ◌++◌, arith,
  get_or, length, take, drop, u16_mod, u32_mod, length-append, length-take, length-drop,
}

-- `ArpSwap16`, `Ipv4Swap16`, `NetSwap16` and `UdpSwap16` are one function: `(v >> 8) | (v << 8)` as u16.
unfoldable pub swap16 : ℕ → ℕ
swap16 v = v / 256 + v % 256 * 256

-- `NetSwap32`
unfoldable pub swap32 : ℕ → ℕ
swap32 v = v / 2 ^ 24 % 256 + v / 2 ^ 16 % 256 * 2 ^ 8 + v / 2 ^ 8 % 256 * 2 ^ 16 + v % 256 * 2 ^ 24

pub swap16_twice : (v : ℕ) → v < u16_mod → swap16 (swap16 v) ≡ v
unfolding swap16
swap16_twice v h = omega arith

pub swap16-lt : (v : ℕ) → v < u16_mod → swap16 v < u16_mod
unfolding swap16
swap16-lt v h = omega arith

pub swap32_twice : (v : ℕ) → v < u32_mod → swap32 (swap32 v) ≡ v
unfolding swap32
swap32_twice v h = omega arith

-- `*(u16*)(buf + at)` and `*(u32*)(buf + at)`
unfoldable pub load16 : List ℕ → ℕ → ℕ
load16 buf at = get_or buf at 0 + get_or buf (at + 1) 0 * 256

unfoldable pub load32 : List ℕ → ℕ → ℕ
load32 buf at =
    get_or buf at 0
    + get_or buf (at + 1) 0 * 2 ^ 8
    + get_or buf (at + 2) 0 * 2 ^ 16
    + get_or buf (at + 3) 0 * 2 ^ 24

-- The bytes of a u16 and of a u32 in memory.
unfoldable pub bytes16 : ℕ → List ℕ
bytes16 v = v % 256 ∷ v / 256 % 256 ∷ []

unfoldable pub bytes32 : ℕ → List ℕ
bytes32 v = v % 256 ∷ v / 2 ^ 8 % 256 ∷ v / 2 ^ 16 % 256 ∷ v / 2 ^ 24 % 256 ∷ []

-- `RtMemCopy(buf + at, data, length data)` where it fits.
unfoldable pub store : List ℕ → ℕ → List ℕ → List ℕ
store buf at bytes = take at buf ++ (bytes ++ drop (at + length bytes) buf)

pub length-store :
    (buf : List ℕ) (at : ℕ) (bytes : List ℕ)
    → at + length bytes ≤ length buf
    → length (store buf at bytes) ≡ length buf
unfolding store
length-store buf at bytes h = omega (
  arith,
  length-append (take at buf) (bytes ++ drop (at + length bytes) buf),
  length-append bytes (drop (at + length bytes) buf),
  length-take at buf,
  length-drop (at + length bytes) buf,
)

take-length_append : (xs ys : List ℕ) (n : ℕ) → n ≡ length xs → take n (xs ++ ys) ≡ xs
take-length_append [] ys zero e = refl
take-length_append [] ys (suc n) e = absurd (omega arith)
take-length_append (x ∷ xs) ys zero e = absurd (omega arith)
take-length_append (x ∷ xs) ys (suc n) e =
    ap (λ r. x ∷ r) (take-length_append xs ys n (omega arith))

take-take_append :
    (n : ℕ) (buf ys : List ℕ) (k : ℕ)
    → n ≤ length buf
    → take (n + k) (take n buf ++ ys) ≡ take n buf ++ take k ys
take-take_append zero buf ys k h = let e : zero + k ≡ k = omega arith in rw e refl
take-take_append (suc n) [] ys k h = absurd (omega arith)
take-take_append (suc n) (x ∷ buf) ys k h =
    let e : suc n + k ≡ suc (n + k) = omega arith in
    rw e (ap (λ r. x ∷ r) (take-take_append n buf ys k (omega arith)))

-- What lies before the copy, and then the copy.
pub take-store :
    (buf : List ℕ) (at : ℕ) (bytes : List ℕ)
    → at ≤ length buf
    → take (at + length bytes) (store buf at bytes) ≡ take at buf ++ bytes
unfolding store
take-store buf at bytes h =
    take-take_append at buf (bytes ++ drop (at + length bytes) buf) (length bytes) h
    ∙ ap (λ r. take at buf ++ r) (take-length_append bytes _ (length bytes) refl)

pub take-store_front :
    (buf bytes : List ℕ) (n : ℕ) → n ≡ length bytes → take n (store buf 0 bytes) ≡ bytes
unfolding store
take-store_front buf bytes n e = take-length_append bytes _ n e
