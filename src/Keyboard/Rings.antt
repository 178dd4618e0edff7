-- ===== src/Keyboard/Rings.antt =====
-- The rings of Kernel/keyboard.c are queues of at most 255 elements.
use vibecoded_os.Prelude.{
  ℕ, zero, suc, ◌+◌, ◌-◌, ◌%◌, ◌<◌, ◌≡◌, refl, ◌≢◌, none, some, List, [], ◌∷◌, ◌++◌, arith, ltb,
  ◌==◌, if◌then◌else◌, get_or, set, length, length-set, Bool-cases, ap, ◌∙◌, ◌⊎◌, inl, inr,
}
use mathlib.Core.Path.{ap₂}
use vibecoded_os.Keyboard.{Ring, buffer_size, is_empty, put, get}

-- How many elements the ring holds.
abbrev pub count : {A : Type 0} → Ring A → ℕ
count r = (r.write_pos + buffer_size - r.read_pos) % buffer_size

module _ {A : Type 0} (d : A) where
  get_or-set :
      (xs : List A) (i j : ℕ) (v : A)
      → i < length xs
      → get_or (set xs i v) j d ≡ (if i == j then v else get_or xs j d)
  get_or-set [] i j v h = absurd (omega arith)
  get_or-set (x ∷ xs) zero zero v h = refl
  get_or-set (x ∷ xs) zero (suc j) v h = ground arith
  get_or-set (x ∷ xs) (suc i) zero v h = ground arith
  get_or-set (x ∷ xs) (suc i) (suc j) v h = ground (arith, get_or-set xs i j v)

  -- The `n` elements from place `h` on, going round the array.
  abbrev pub window : List A → ℕ → ℕ → List A
  window buf h zero = []
  window buf h (suc n) = get_or buf h d ∷ window buf ((h + 1) % buffer_size) n

  length-window : (buf : List A) (h n : ℕ) → length (window buf h n) ≡ n
  length-window buf h zero = refl
  length-window buf h (suc n) = ap suc (length-window buf ((h + 1) % buffer_size) n)

  window-set :
      (buf : List A) (x : A) (n h i : ℕ)
      → length buf ≡ buffer_size
      → h < buffer_size
      → n < buffer_size
      → i ≡ (h + n) % buffer_size
      → window (set buf i x) h (suc n) ≡ window buf h n ++ (x ∷ [])
  window-set buf x zero h i l a b e = ground (arith, get_or-set buf i h x (omega arith))
  window-set buf x (suc n) h i l a b e =
      ap₂ ◌∷◌ (ground (arith, get_or-set buf i h x (omega arith)))
        (window-set buf x n ((h + 1) % buffer_size) i l (omega arith) (omega arith) (omega arith))

  -- `window` matches on `suc`; the ring tells a place left by its positions.
  window-ne_zero :
      (buf : List A) (h n : ℕ)
      → n ≢ 0
      → window buf h n ≡ get_or buf h d ∷ window buf ((h + 1) % buffer_size) (n - 1)
  window-ne_zero buf h zero nz = absurd (nz refl)
  window-ne_zero buf h (suc n) nz = let e : suc n - 1 ≡ n = omega arith in rw e refl

  -- The elements in the ring, oldest first.
  abbrev pub contents : Ring A → List A
  contents r = window r.buffer r.read_pos (count r)

pub record IsRing {A : Type 0} (r : Ring A) : Type 0 where
  pub size : length r.buffer ≡ buffer_size
  pub read_in : r.read_pos < buffer_size
  pub write_in : r.write_pos < buffer_size

module _ {A : Type 0} (d : A) {r : Ring A} (v : IsRing r) where
  open v use {size, read_in, write_in}

  pub put-IsRing : (x : A) → IsRing (put x r)
  unfolding put
  put-IsRing x = ground (arith, length-set r.buffer r.write_pos x)

  pub get-IsRing : IsRing (get d r).1
  unfolding get
  get-IsRing = ground arith

  -- An element is appended to the queue of a ring that holds fewer than 255, and dropped by a full
  -- one; no other element is lost and the order is kept.
  pub put-contents :
      (x : A)
      → contents d (put x r)
        ≡ (if ltb (length (contents d r)) 255 then contents d r ++ (x ∷ []) else contents d r)
  unfolding put
  put-contents x = elim (Bool-cases (((r.write_pos + 1) % buffer_size) == r.read_pos)) [
    | inl full ↦ rw full (ground (arith, length-window d r.buffer r.read_pos (count r)))
    | inr room ↦ rw room (
        ground (
          arith,
          length-window d r.buffer r.read_pos (count r),
          window-set d r.buffer x (count r) r.read_pos r.write_pos size read_in (omega arith)
              (omega arith),
          (let e : ((r.write_pos + 1) % buffer_size + buffer_size - r.read_pos) % buffer_size
                  ≡ suc (count r) =
                ground arith in
              e),
        ))
  ]

  -- Reading takes the oldest element of the queue, and leaves an empty ring as it is.
  pub get-contents :
      (((get d r).0 ≡ none) × (contents d r ≡ []) × ((get d r).1 ≡ r))
      ⊎ ((x : A) × ((get d r).0 ≡ some x) × (contents d r ≡ x ∷ contents d (get d r).1))
  unfolding get is_empty
  get-contents = elim (Bool-cases (r.read_pos == r.write_pos)) [
    | inl e ↦ inl (rw e refl, (let z : count r ≡ 0 = ground arith in rw z refl), rw e refl)
    | inr e ↦ inr (
      get_or r.buffer r.read_pos d,
      rw e refl,
      rw e (
          window-ne_zero d r.buffer r.read_pos (count r) (ground arith)
          ∙ (let z : count r - 1
                  ≡ (r.write_pos + buffer_size - (r.read_pos + 1) % buffer_size) % buffer_size =
                ground arith in
              rw z refl)),
    )
  ]
