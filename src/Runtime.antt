-- ===== src/Runtime.antt =====
-- Kernel/runtime.c: blocks of memory, strings and numbers in digits. The memory is a function from
-- addresses to bytes, and an address does not wrap.
pub mod Blocks
mod Tests
use vibecoded_os.Prelude.{
  ℕ, zero, suc, ◌+◌, ◌-◌, ◌*◌, ◌/◌, ◌%◌, Bool, true, false, not, Option, none, some, List, [], ◌∷◌,
  ◌&&◌, ◌||◌, ltb, leb, ◌==◌, if◌then◌else◌, get_or,
}

abbrev pub Memory : Type 0
Memory = ℕ → ℕ

abbrev pub write : Memory → ℕ → ℕ → Memory
write m at v = λ x. if x == at then v else m x

-- `RtMemSet`
unfoldable pub mem_set : (dst val count : ℕ) → Memory → Memory
mem_set d val zero m = m
mem_set d val (suc n) m = mem_set (d + 1) val n (write m d val)

-- `RtMemCopy`, and `RtMemMove` where `d < s`
unfoldable pub mem_copy : (dst src count : ℕ) → Memory → Memory
mem_copy d s zero m = m
mem_copy d s (suc n) m = mem_copy (d + 1) (s + 1) n (write m d (m s))

-- `while (count--) *--d = *--s;` from the ends of the blocks
unfoldable pub copy_back : (dst src count : ℕ) → Memory → Memory
copy_back d s zero m = m
copy_back d s (suc n) m = copy_back d s n (write m (d + n) (m (s + n)))

-- `RtMemMove`
unfoldable pub mem_move : (dst src count : ℕ) → Memory → Memory
mem_move d s n m = if ltb d s then mem_copy d s n m else copy_back d s n m

-- The comparisons return a difference of two bytes; they are given as the pair of these bytes.
-- `RtMemCompare`
unfoldable pub mem_compare : (a b count : ℕ) → Memory → ℕ × ℕ
mem_compare a b zero m = (0, 0)
mem_compare a b (suc n) m =
    let rest = mem_compare (a + 1) (b + 1) n m in if m a == m b then rest else (m a, m b)

-- `RtStrLen` on fuel; `none` is no behaviour of the code.
unfoldable pub str_len : (fuel s : ℕ) → Memory → Option ℕ
str_len zero s m = none
str_len (suc fuel) s m =
    let rest : Option ℕ = elim (str_len fuel (s + 1) m) [ none ↦ none | some n ↦ some (suc n) ] in
    if m s == 0 then some 0 else rest

-- `RtStrnLen`
unfoldable pub strn_len : (s max : ℕ) → Memory → ℕ
strn_len s zero m = 0
strn_len s (suc n) m = let rest = strn_len (s + 1) n m in if m s == 0 then 0 else suc rest

-- `RtStrnCopy`: at most `max - 1` characters, then a zero.
unfoldable pub strn_copy : (dst src max : ℕ) → Memory → Memory
strn_copy d s zero m = write m d 0
strn_copy d s (suc zero) m = write m d 0
strn_copy d s (suc (suc n)) m =
    let m' = write m d (m s) in
    let rest = strn_copy (d + 1) (s + 1) (suc n) m' in if m s == 0 then write m' (d + 1) 0 else rest

-- `RtStrnCompare`
unfoldable pub strn_compare : (a b max : ℕ) → Memory → ℕ × ℕ
strn_compare a b zero m = (0, 0)
strn_compare a b (suc n) m =
    let rest = strn_compare (a + 1) (b + 1) n m in
    if not (m a == 0) && m a == m b then rest else (m a, m b)

-- `RtStrCompare` on fuel
unfoldable pub str_compare : (fuel a b : ℕ) → Memory → Option (ℕ × ℕ)
str_compare zero a b m = none
str_compare (suc fuel) a b m =
    let rest = str_compare fuel (a + 1) (b + 1) m in
    if not (m a == 0) && m a == m b then rest else some (m a, m b)

-- `to_lower`
unfoldable pub to_lower : ℕ → ℕ
to_lower c = if leb b'A' c && leb c b'Z' then c + 32 else c

-- `RtStrCompareI` on fuel
unfoldable pub str_compare_i : (fuel a b : ℕ) → Memory → Option (ℕ × ℕ)
unfolding to_lower
str_compare_i zero a b m = none
str_compare_i (suc fuel) a b m =
    let rest = str_compare_i fuel (a + 1) (b + 1) m in
    if not (m a == 0) && not (m b == 0)
    then (if to_lower (m a) == to_lower (m b) then rest else some (to_lower (m a), to_lower (m b)))
    else some (m a, m b)

-- `digits[n]`
abbrev pub digit : (upper : Bool) → ℕ → ℕ
digit upper n = if ltb n 10 then b'0' + n else if upper then b'A' + (n - 10) else b'a' + (n - 10)

-- The loops of `RtUtoa` for a base of at least 2: 64 rounds are enough for a u64.
unfoldable pub utoa_loop : (fuel value base : ℕ) (upper : Bool) → List ℕ → List ℕ
utoa_loop zero value base upper buf = buf
utoa_loop (suc fuel) value base upper buf =
    let rest = utoa_loop fuel (value / base) base upper (digit upper (value % base) ∷ buf) in
    if value == 0 then buf else rest

unfoldable pub utoa : (value base : ℕ) (upper : Bool) → List ℕ
utoa value base upper = if value == 0 then b'0' ∷ [] else utoa_loop 64 value base upper []
