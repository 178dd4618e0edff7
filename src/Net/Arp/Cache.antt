-- ===== src/Net/Arp/Cache.antt =====
-- The cache of Kernel/net/arp.c is a map from addresses to hardware addresses that forgets the
-- oldest entry where it is full.
use vibecoded_os.Prelude.{
  ℕ, zero, suc, ◌+◌, ◌-◌, ◌≤◌, ◌<◌, ◌≡◌, ◌≢◌, refl, ◌⊎◌, inl, inr, true, false, Option, none, some,
  List, [], ◌∷◌, arith, ltb, ◌==◌, if◌then◌else◌, get_or, set, length, Bool-cases, Option-cases,
}
use vibecoded_os.Net.Arp.{
  Entry, no_entry, cache_size, hits, find_entry, find_invalid, stamp, oldest, alloc_entry,
  update_cache,
}

-- What the cache says of an address: the first entry that is valid and has it.
unfoldable pub lookup : ℕ → List Entry → Option (List ℕ)
lookup ip [] = none
lookup ip (e ∷ es) = if hits ip e then some e.mac else lookup ip es

pub find_entry-none :
    (ip : ℕ) (es : List Entry) (i : ℕ) → find_entry ip es i ≡ none → lookup ip es ≡ none
unfolding find_entry lookup
find_entry-none ip [] i h = refl
find_entry-none ip (e ∷ es) i h = ground (arith, find_entry-none ip es (i + 1))

pub find_entry-some :
    (ip : ℕ) (es : List Entry) (i : ℕ) {j : ℕ}
    → find_entry ip es i ≡ some j
    → (i ≤ j)
      × (j - i < length es)
      × (hits ip (get_or es (j - i) no_entry) ≡ true)
      × (lookup ip es ≡ some (get_or es (j - i) no_entry).mac)
unfolding find_entry lookup
find_entry-some ip [] i h = absurd (let z : ⊥ = ground arith in z)
find_entry-some ip (e ∷ es) i {j} h = elim (Bool-cases (hits ip e)) [
  | inl t ↦
      let q : i ≡ j = ground arith in
      let z : j - i ≡ 0 = omega arith in rw z (omega arith, omega arith, t, rw t refl)
  | inr f ↦
      let h' : find_entry ip es (i + 1) ≡ some j = ground arith in
      let r = find_entry-some ip es (i + 1) h' in
      let le = r.0 in
      let z : j - i ≡ suc (j - (i + 1)) = omega arith in
      let lt = r.1 in rw z (omega arith, omega arith, r.2, rw f (r.3))
]

find_invalid-some :
    (es : List Entry) (i : ℕ) {j : ℕ}
    → find_invalid es i ≡ some j
    → (i ≤ j) × (j - i < length es) × ((get_or es (j - i) no_entry).valid ≡ false)
unfolding find_invalid
find_invalid-some [] i h = absurd (let z : ⊥ = ground arith in z)
find_invalid-some (e ∷ es) i {j} h = elim (Bool-cases e.valid) [
  | inr f ↦
      let q : i ≡ j = ground arith in
      let z : j - i ≡ 0 = omega arith in rw z (omega arith, omega arith, f)
  | inl t ↦
      let h' : find_invalid es (i + 1) ≡ some j = ground arith in
      let r = find_invalid-some es (i + 1) h' in
      let le = r.0 in
      let lt = r.1 in
      let z : j - i ≡ suc (j - (i + 1)) = omega arith in rw z (omega arith, omega arith, r.2)
]

find_invalid-none :
    (es : List Entry) (i k : ℕ)
    → find_invalid es i ≡ none
    → k < length es
    → (get_or es k no_entry).valid ≡ true
unfolding find_invalid
find_invalid-none [] i k h lt = absurd (omega arith)
find_invalid-none (e ∷ es) i zero h lt = ground arith
find_invalid-none (e ∷ es) i (suc k) h lt = ground (arith, find_invalid-none es (i + 1) k)

oldest_least :
    (es : List Entry) (n i best : ℕ)
    → best < i
    → let r = oldest es n i best in
      (r < i + n)
      × (stamp es r ≤ stamp es best)
      × ((k : ℕ) → i ≤ k → k < i + n → stamp es r ≤ stamp es k)
unfolding oldest
oldest_least es zero i best b = (omega arith, omega arith, λ k lo hi. absurd (omega arith))
oldest_least es (suc n) i best b =
    let best' = if ltb (stamp es i) (stamp es best) then i else best in
    let b' : best' < i + 1 = ground arith in
    let r = oldest_least es n (i + 1) best' b' in
    let a = r.0 in
    let s = r.1 in
    let s1 : stamp es best' ≤ stamp es best = ground arith in
    let s2 : stamp es best' ≤ stamp es i = ground arith in
    (
      omega arith,
      omega arith,
      λ k lo hi. elim (Bool-cases (k == i)) [
        | inl e ↦ let e' : k ≡ i = ground arith in rw e' (omega arith)
        | inr e ↦ r.2 k (ground arith) (omega arith)
      ],
    )

-- Writing an entry for `ip` where there was none, or where the first one stood.
lookup-set_self :
    (ip : ℕ) (es : List Entry) (i j : ℕ) (e : Entry)
    → hits ip e ≡ true
    → j < length es
    → (find_entry ip es i ≡ none) ⊎ (find_entry ip es i ≡ some (i + j))
    → lookup ip (set es j e) ≡ some e.mac
unfolding lookup find_entry
lookup-set_self ip [] i j e h lt o = absurd (omega arith)
lookup-set_self ip (x ∷ es) i zero e h lt o = ground arith
lookup-set_self ip (x ∷ es) i (suc j) e h lt o = elim (Bool-cases (hits ip x)) [
  | inl t ↦ absurd (let z : ⊥ = ground arith in z)
  | inr f ↦ rw f (lookup-set_self ip es (i + 1) j e h (omega arith) (ground arith))
]

-- Writing an entry for another address, over one that is not `q`'s.
lookup-set_other :
    (q : ℕ) (es : List Entry) (j : ℕ) (e : Entry)
    → hits q e ≡ false
    → hits q (get_or es j no_entry) ≡ false
    → lookup q (set es j e) ≡ lookup q es
unfolding lookup
lookup-set_other q [] j e h o = refl
lookup-set_other q (x ∷ es) zero e h o = ground arith
lookup-set_other q (x ∷ es) (suc j) e h o = ground (arith, lookup-set_other q es j e h o)

-- The place of an entry that ArpAllocEntry gives up: every entry is valid, and none is older.
pub record Evicted (q : ℕ) (es : List Entry) : Type 0 where
  pub place : ℕ
  pub within : place < cache_size
  pub of_q : hits q (get_or es place no_entry) ≡ true
  pub full : (k : ℕ) → k < cache_size → (get_or es k no_entry).valid ≡ true
  pub least : (k : ℕ) → k < cache_size → stamp es place ≤ stamp es k

alloc_entry_place :
    (es : List Entry)
    → length es ≡ cache_size
    → (alloc_entry es < cache_size)
      × (((get_or es (alloc_entry es) no_entry).valid ≡ false)
          ⊎ (((k : ℕ) → k < cache_size → (get_or es k no_entry).valid ≡ true)
              × ((k : ℕ) → k < cache_size → stamp es (alloc_entry es) ≤ stamp es k)))
unfolding alloc_entry
alloc_entry_place es l = elim (Option-cases (find_invalid es 0)) [
  | inr (i, e) ↦
      let r = find_invalid-some es 0 e in
      let lt = r.1 in
      let z : i - 0 ≡ i = omega arith in rw (e, alloc_entry) (omega arith, inl (rw z at r.2))
  | inl e ↦
      let r = oldest_least es (cache_size - 1) 1 0 (omega arith) in
      let a = r.0 in
      rw (e, alloc_entry)
        (
          omega arith,
          inr (
            λ k lt. find_invalid-none es 0 k e (omega arith),
            λ k lt. elim (Bool-cases (k == 0)) [
              | inl z ↦ let z' : k ≡ 0 = ground arith in rw z' (r.1)
              | inr nz ↦ r.2 k (ground arith) (omega arith)
            ],
          ),
        )
]

module _ (ip : ℕ) (mac : List ℕ) (tick : ℕ) (es : List Entry) (l : length es ≡ cache_size) where
  new_entry : Entry
  new_entry = record { ip = ip; mac = mac; timestamp = tick; valid = true }

  new_hits : hits ip new_entry ≡ true
  unfolding new_entry
  new_hits = ground arith

  new_misses : (q : ℕ) → q ≢ ip → hits q new_entry ≡ false
  unfolding new_entry
  new_misses q ne = ground arith

  other_misses : (q : ℕ) (e : Entry) → q ≢ ip → hits ip e ≡ true → hits q e ≡ false
  other_misses q e ne h = ground arith

  -- After ArpUpdateCache the cache says `mac` of `ip`. Of every other address it says what it said
  -- before, but where all eight entries are valid and none is for `ip`: then one entry is given up,
  -- the address of which it may forget, and no entry is older than that one.
  pub update_cache_lem :
      (lookup ip (update_cache ip mac tick es) ≡ some mac)
      × ((q : ℕ)
          → q ≢ ip
          → (lookup q (update_cache ip mac tick es) ≡ lookup q es)
            ⊎ ((lookup ip es ≡ none) × Evicted q es))
  unfolding update_cache new_entry
  update_cache_lem = elim (Option-cases (find_entry ip es 0)) [
    | inr (i, e) ↦
        let r = find_entry-some ip es 0 e in
        let lt = r.1 in
        let z : i - 0 ≡ i = omega arith in
        let z0 : 0 + i ≡ i = omega arith in
        rw e (
          lookup-set_self ip es 0 i new_entry new_hits (omega arith) (inr (rw z0 e)),
          λ q ne. inl (
              lookup-set_other q es i new_entry (new_misses q ne)
                (other_misses q (get_or es i no_entry) ne (rw z at r.2))),
        )
    | inl e ↦
        let p = alloc_entry_place es l in
        let lt = p.0 in
        rw e (
          lookup-set_self ip es 0 (alloc_entry es) new_entry new_hits (omega arith) (inl e),
          λ q ne. elim (Bool-cases (hits q (get_or es (alloc_entry es) no_entry))) [
            | inr f ↦ inl (lookup-set_other q es (alloc_entry es) new_entry (new_misses q ne) f)
            | inl t ↦ elim (p.1) [
              | inl free ↦ absurd (let z : ⊥ = ground arith in z)
              | inr (full, least) ↦ inr (
                find_entry-none ip es 0 e,
                record {
                  place = alloc_entry es;
                  within = lt;
                  of_q = t;
                  full = full;
                  least = least;
                },
              )
            ]
          ],
        )
  ]
