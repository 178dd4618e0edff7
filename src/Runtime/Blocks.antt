-- ===== src/Runtime/Blocks.antt =====
-- What the block functions of Kernel/runtime.c leave in memory.
use vibecoded_os.Prelude.{
  ℕ, zero, suc, ◌+◌, ◌≤◌, ◌<◌, ◌≡◌, refl, ◌∙◌, true, false, arith, ◌&&◌, ltb, leb, ◌==◌,
  if◌then◌else◌, Bool-cases, ◌⊎◌, inl, inr,
}
use vibecoded_os.Runtime.{Memory, write, mem_set, mem_copy, copy_back, mem_move}

pub mem_set_lem :
    (d val n x : ℕ) (m : Memory)
    → mem_set d val n m x ≡ (if leb d x && ltb x (d + n) then val else m x)
unfolding mem_set
mem_set_lem d val zero x m = ground arith
mem_set_lem d val (suc n) x m = ground (arith, mem_set_lem (d + 1) val n x (write m d val))

mem_copy_out : (d s n x : ℕ) (m : Memory) → (x < d) ⊎ (d + n ≤ x) → mem_copy d s n m x ≡ m x
unfolding mem_copy
mem_copy_out d s zero x m o = refl
mem_copy_out d s (suc n) x m o =
    let ne : (x == d) ≡ false = ground arith in
    mem_copy_out (d + 1) (s + 1) n x (write m d (m s)) (ground arith) ∙ rw ne refl

-- From the front, into a block that does not start behind the source.
mem_copy_in : (d s n k : ℕ) (m : Memory) → d ≤ s → k < n → mem_copy d s n m (d + k) ≡ m (s + k)
unfolding mem_copy
mem_copy_in d s zero k m h lt = absurd (omega arith)
mem_copy_in d s (suc n) zero m h lt =
    let e : d + zero ≡ d = omega arith in
    let e' : s + zero ≡ s = omega arith in
    let t : (d == d) ≡ true = ground arith in
    rw (e, e') (mem_copy_out (d + 1) (s + 1) n d (write m d (m s)) (inl (omega arith)) ∙ rw t refl)
mem_copy_in d s (suc n) (suc k) m h lt =
    let e : d + suc k ≡ d + 1 + k = omega arith in
    let e' : s + suc k ≡ s + 1 + k = omega arith in
    let ne : (s + 1 + k == d) ≡ false = ground arith in
    rw (e, e')
      (mem_copy_in (d + 1) (s + 1) n k (write m d (m s)) (omega arith) (omega arith) ∙ rw ne refl)

copy_back_out : (d s n x : ℕ) (m : Memory) → (x < d) ⊎ (d + n ≤ x) → copy_back d s n m x ≡ m x
unfolding copy_back
copy_back_out d s zero x m o = refl
copy_back_out d s (suc n) x m o =
    let ne : (x == d + n) ≡ false = ground arith in
    copy_back_out d s n x (write m (d + n) (m (s + n))) (ground arith) ∙ rw ne refl

-- From the back, into a block that does not start before the source.
copy_back_in : (d s n k : ℕ) (m : Memory) → s ≤ d → k < n → copy_back d s n m (d + k) ≡ m (s + k)
unfolding copy_back
copy_back_in d s zero k m h lt = absurd (omega arith)
copy_back_in d s (suc n) k m h lt = elim (Bool-cases (k == n)) [
  | inl e ↦
      let e' : k ≡ n = ground arith in
      let t : (d + n == d + n) ≡ true = ground arith in
      rw e'
        (copy_back_out d s n (d + n) (write m (d + n) (m (s + n))) (inr (omega arith)) ∙ rw t refl)
  | inr e ↦
      let ne : (s + k == d + n) ≡ false = ground arith in
      copy_back_in d s n k (write m (d + n) (m (s + n))) h (ground arith) ∙ rw ne refl
]

-- RtMemMove leaves in the destination what the source held before, also where the two blocks
-- overlap, and changes no other byte.
pub mem_move_lem :
    (d s n : ℕ) (m : Memory)
    → ((k : ℕ) → k < n → mem_move d s n m (d + k) ≡ m (s + k))
      × ((x : ℕ) → (x < d) ⊎ (d + n ≤ x) → mem_move d s n m x ≡ m x)
unfolding mem_move
mem_move_lem d s n m = elim (Bool-cases (ltb d s)) [
  | inl e ↦ rw e (λ k lt. mem_copy_in d s n k m (ground arith) lt, λ x o. mem_copy_out d s n x m o)
  | inr e ↦
      rw e (λ k lt. copy_back_in d s n k m (ground arith) lt, λ x o. copy_back_out d s n x m o)
]
