-- ===== src/Fs/Fat/Writing/Reserve.antt =====
-- The clusters that Fat32WriteFile of fat32.c reserves for a file form a chain of clusters that were
-- free before.
use vibecoded_os.Prelude.{
  ℕ, zero, suc, ◌+◌, ◌≤◌, ◌<◌, ◌≡◌, ◌≢◌, refl, sym, ap, ◌∙◌, true, false, List, [], ◌∷◌, ◌++◌, ◌||◌,
  ◌==◌, if◌then◌else◌, length, length-append, arith, inl, inr, Bool-cases,
}
use vibecoded_os.Fs.Fat.{
  FatType, fat12, fat16, fat32, FatInfo, Disk, get_fat_entry, set_fat_entry, eof_marker,
}
use vibecoded_os.Fs.Fat.Table.{IsVolume, IsHealthy, InFat}
use vibecoded_os.Fs.Fat.Packing.{entry_value}
use vibecoded_os.Fs.Fat.Entries.{entry_after_set, set_fat_entry-IsSpread}
use vibecoded_os.Fs.Fat.Clusters.{max_cluster, allocate_cluster}
use vibecoded_os.Fs.Fat.Clusters.Allocate.{IsCovered, IsTaken, allocate_cluster_lem}
use vibecoded_os.Fs.Fat.Clusters.Free.{elem, elem_ne, IsChain, ends, link}
use vibecoded_os.Fs.Fat.Writing.{Reserved, reserve_step, reserve_loop}

-- The state of the loop on the drive `d` after it has reserved the clusters `cs`, from the first to
-- the last, and none of them twice. The entries of all other clusters are those of the start.
pub record IsReserved (g : FatInfo) (d : Disk) (cs : List ℕ) (r : Reserved) : Type 0 where
  pub chain : IsChain (eof_marker g) (get_fat_entry g r.disk) r.first cs
  pub tail : elem r.prev cs ≡ true
  pub at_end : get_fat_entry g r.disk r.prev ≡ eof_marker g
  pub room : r.full ≡ false
  pub healthy : IsHealthy r.disk
  pub inside : (x : ℕ) → elem x cs ≡ true → (2 ≤ x) × (x < max_cluster g)
  pub were_free : (x : ℕ) → elem x cs ≡ true → get_fat_entry g d x ≡ 0
  pub used : (x : ℕ) → elem x cs ≡ true → get_fat_entry g r.disk x ≢ 0
  pub others :
      (x : ℕ) → InFat g x → elem x cs ≡ false → get_fat_entry g r.disk x ≡ get_fat_entry g d x

-- A chain with one more cluster at its end: the entry of its last cluster names the new one.
elem-append : (x y : ℕ) (cs : List ℕ) → elem x (cs ++ (y ∷ [])) ≡ (x == y || elem x cs)
elem-append x y [] = ground arith
elem-append x y (c ∷ cs) = let r = elem-append x y cs in ground (arith, r)

IsChain-last :
    (eof : ℕ) (next next' : ℕ → ℕ) (c last new : ℕ) (cs : List ℕ)
    → IsChain eof next c cs
    → 2 ≤ new
    → new < eof
    → elem new cs ≡ false
    → elem last cs ≡ true
    → eof ≤ next last
    → next' last ≡ new
    → eof ≤ next' new
    → ((x : ℕ) → elem x cs ≡ true → x ≢ last → next' x ≡ next x)
    → IsChain eof next' c (cs ++ (new ∷ []))
IsChain-last eof next next' c last new cs (ends a a' e) h h' n l f q z same =
    let e' : c ≡ last = ground (arith, l) in
    let k : next' c ≡ new = rw e' q in
    let o : elem c (new ∷ []) ≡ false = ground (arith, n) in
    let end : IsChain eof next' new (new ∷ []) = ends h h' (inr z) in
    link a a' (omega (arith, k, h)) (omega (arith, k, h')) o (rw k end)
IsChain-last eof next next' c last new cs (link {cs = rest} a a' b b' o chain) h h' n l f q z same =
    let ne : c ≢ last =
      λ w. (let w' : next c ≡ next last = ap next w in omega (arith, w', f, b')) in
    let k : next' c ≡ next c = same c (ground arith) ne in
    let l' : elem last rest ≡ true = ground (arith, l, ne) in
    let n' : elem new rest ≡ false = ground (arith, n) in
    let o' : elem c (rest ++ (new ∷ [])) ≡ false =
      let r = elem-append c new rest in ground (arith, r, n, o) in
    let rec =
      IsChain-last eof next next' (next c) last new rest chain h h' n' l' f q z
        (λ x m w. same x (ground (arith, m)) w) in
    link a a' (omega (arith, k, b)) (omega (arith, k, b')) o' (rw k rec)

-- An entry keeps the number of a cluster below the end marker.
entry_value-below : (g : FatInfo) (c : ℕ) → c < eof_marker g → entry_value g.type c ≡ c
unfolding entry_value eof_marker
entry_value-below g c h = go g.type h
  where
    go :
        (t : FatType)
        → c < (elim t [ fat12 ↦ 0xff8 | fat16 ↦ 0xfff8 | fat32 ↦ 0xffffff8 ])
        → entry_value t c ≡ c
    go fat12 k = omega (arith, k)
    go fat16 k = omega (arith, k)
    go fat32 k = omega (arith, k)

eof_marker-pos : (g : FatInfo) → 2 < eof_marker g
unfolding eof_marker
eof_marker-pos g = go g.type
  where
    go : (t : FatType) → 2 < (elim t [ fat12 ↦ 0xff8 | fat16 ↦ 0xfff8 | fat32 ↦ 0xffffff8 ])
    go fat12 = omega arith
    go fat16 = omega arith
    go fat32 = omega arith

module _ (g : FatInfo) (vol : IsVolume g) (cov : IsCovered g)
    (top : max_cluster g ≤ eof_marker g) where
  -- The first cluster.
  IsReserved-first :
      (d : Disk) (last : ℕ)
      → IsHealthy d
      → IsTaken g d (allocate_cluster g last d)
      → (let a = allocate_cluster g last d in
          IsReserved g d (a.cluster ∷ []) (record {
            first = a.cluster;
            prev = a.cluster;
            last = a.last;
            disk = a.disk;
            full = false;
          }))
  IsReserved-first d last ok t =
      let a = allocate_cluster g last d in
      let f = cov.covered a.cluster t.from t.below in
      let e = t.entries a.cluster f in
      let big = eof_marker-pos g in
      let own : get_fat_entry g a.disk a.cluster ≡ eof_marker g = ground (arith, e) in
      record {
        chain = ends t.from (omega (arith, t.below, top)) (inr (omega (arith, own)));
        tail = ground arith;
        at_end = own;
        room = refl;
        healthy = t.healthy;
        inside = λ x m. let q : x ≡ a.cluster = ground (arith, m) in rw q (t.from, t.below);
        were_free = λ x m. let q : x ≡ a.cluster = ground (arith, m) in rw q t.was_free;
        used = λ x m z.
            let q : x ≡ a.cluster = ground (arith, m) in
            let z' : get_fat_entry g a.disk a.cluster ≡ 0 = rw (sym q) z in
            omega (arith, z', own, big);
        others = λ x f' m. t.entries x f' ∙ ground (arith, m);
      }

  -- The drive after a cluster is taken and the last one is linked to it.
  linked :
      (d1 : Disk) (last prev : ℕ)
      → IsHealthy d1
      → InFat g prev
      → 2 ≤ prev
      → IsTaken g d1 (allocate_cluster g last d1)
      → (let a = allocate_cluster g last d1 in
          let d2 = (set_fat_entry g prev a.cluster a.disk).0 in
          IsHealthy d2
          × ((x : ℕ)
              → InFat g x
              → get_fat_entry g d2 x ≡ (
                  if x == prev
                  then a.cluster
                  else if x == a.cluster
                  then eof_marker g
                  else get_fat_entry g d1 x)))
  linked d1 last prev ok f h t =
      let a = allocate_cluster g last d1 in
      let s = set_fat_entry-IsSpread g vol prev a.cluster f a.disk t.healthy h in
      let v = entry_value-below g a.cluster (omega (arith, t.below, top)) in
      (
        s.healthy,
        λ x fx.
            (entry_after_set g vol a.disk t.healthy prev x a.cluster h f fx).1
            ∙ rw (v, t.entries x fx) refl,
      )

  -- One more cluster.
  IsReserved-next :
      (d : Disk) (cs : List ℕ) (r : Reserved)
      → IsReserved g d cs r
      → IsTaken g r.disk (allocate_cluster g r.last r.disk)
      → (let a = allocate_cluster g r.last r.disk in
          IsReserved g d (cs ++ (a.cluster ∷ [])) (record {
            first = r.first;
            prev = a.cluster;
            last = a.last;
            disk = (set_fat_entry g r.prev a.cluster a.disk).0;
            full = false;
          }))
  IsReserved-next d cs r i t =
      let a = allocate_cluster g r.last r.disk in
      let new = a.cluster in
      let d2 = (set_fat_entry g r.prev new a.disk).0 in
      let at = i.inside r.prev i.tail in
      let fp = cov.covered r.prev at.0 at.1 in
      let fn = cov.covered new t.from t.below in
      let k = linked r.disk r.last r.prev i.healthy fp at.0 t in
      let fresh : elem new cs ≡ false = elim (Bool-cases (elem new cs)) [
        | inl m ↦ absurd (i.used new m t.was_free)
        | inr m ↦ m
      ] in
      let mem = λ (x : ℕ). elem-append x new cs in
      let ne : r.prev ≢ new =
        λ z. (let m : elem new cs ≡ true = rw (sym z) i.tail in ground (arith, m, fresh)) in
      let kp = k.1 r.prev fp in
      let kn = k.1 new fn in
      let big = eof_marker-pos g in
      let own : get_fat_entry g d2 new ≡ eof_marker g = ground (arith, kn, ne) in
      let back : get_fat_entry g d2 r.prev ≡ new = ground (arith, kp) in
      let same : (x : ℕ)
          → elem x cs ≡ true
          → x ≢ r.prev
          → get_fat_entry g d2 x ≡ get_fat_entry g r.disk x =
        λ x m w.
          let b = i.inside x m in
          let e = k.1 x (cov.covered x b.0 b.1) in
          let nx = elem_ne new x cs fresh m in ground (arith, e, w, nx) in
      record {
        chain =
            IsChain-last (eof_marker g) (get_fat_entry g r.disk) (get_fat_entry g d2) r.first r.prev
              new cs i.chain t.from (omega (arith, t.below, top)) fresh i.tail
              (omega (arith, i.at_end)) back (omega (arith, own)) same;
        tail = let q = mem new in ground (arith, q);
        at_end = own;
        room = refl;
        healthy = k.0;
        inside = λ x m. elim (Bool-cases (x == new)) [
          | inl e ↦ let q : x ≡ new = ground (arith, e) in rw q (t.from, t.below)
          | inr e ↦ i.inside x (let q = mem x in ground (arith, q, m, e))
        ];
        were_free = λ x m. elim (Bool-cases (x == new)) [
          | inl e ↦
              let q : x ≡ new = ground (arith, e) in rw q (sym (i.others new fn fresh) ∙ t.was_free)
          | inr e ↦ i.were_free x (let q = mem x in ground (arith, q, m, e))
        ];
        used = λ x m z. elim (Bool-cases (x == new)) [
          | inl e ↦
              let q : new ≡ x = ground (arith, e) in
              let z' : get_fat_entry g d2 new ≡ 0 = ap (get_fat_entry g d2) q ∙ z in
              omega (arith, z', own, big)
          | inr e ↦ elim (Bool-cases (x == r.prev)) [
            | inl e' ↦
                let q : r.prev ≡ x = ground (arith, e') in
                let z' : get_fat_entry g d2 r.prev ≡ 0 = ap (get_fat_entry g d2) q ∙ z in
                let from = t.from in omega (arith, z', back, from)
            | inr e' ↦
                let m' : elem x cs ≡ true = let q = mem x in ground (arith, q, m, e) in
                i.used x m' (sym (same x m' (ground (arith, e'))) ∙ z)
          ]
        ];
        others = λ x f m.
            let q = mem x in
            let nx : elem x cs ≡ false = ground (arith, q, m) in
            let np = elem_ne x r.prev cs nx i.tail in
            let e = k.1 x f in
            let old : get_fat_entry g d2 x ≡ get_fat_entry g r.disk x =
              ground (arith, e, np, q, m) in
            old ∙ i.others x f nx;
      }

-- The outcome of the loop: a chain of `n` clusters, or no cluster of the volume is free any more.
pub data Outcome (g : FatInfo) (d : Disk) (n : ℕ) (r : Reserved) : Type 0 where
  complete : (cs : List ℕ) → length cs ≡ n → IsReserved g d cs r → Outcome g d n r
  out_of_space :
      r.full ≡ true
      → ((c : ℕ) → 2 ≤ c → c < max_cluster g → get_fat_entry g r.disk c ≢ 0)
      → Outcome g d n r

module _ (g : FatInfo) (vol : IsVolume g) (cov : IsCovered g) (top : max_cluster g ≤ eof_marker g)
    (d : Disk) where
  reserve_step_lem :
      (cs : List ℕ) (r : Reserved)
      → IsReserved g d cs r
      → Outcome g d (suc (length cs)) (reserve_step g r)
  unfolding reserve_step
  reserve_step_lem cs r i = elim (allocate_cluster_lem g vol cov r.disk i.healthy r.last) [
    | inl full ↦ rw full.failed (out_of_space refl full.none_free)
    | inr t ↦
        let zero_new : ((allocate_cluster g r.last r.disk).cluster == 0) ≡ false =
          let f = t.from in ground (arith, f) in
        let zero_prev : (r.prev == 0) ≡ false =
          let f = (i.inside r.prev i.tail).0 in ground (arith, f) in
        rw (zero_new, zero_prev)
          (complete (cs ++ ((allocate_cluster g r.last r.disk).cluster ∷ []))
            (let l = length-append cs ((allocate_cluster g r.last r.disk).cluster ∷ []) in
              omega (arith, l))
            (IsReserved-next g vol cov top d cs r i t))
  ]

  reserve_loop_lem :
      (n : ℕ) (cs : List ℕ) (r : Reserved)
      → IsReserved g d cs r
      → Outcome g d (length cs + n) (reserve_loop n g r)
  unfolding reserve_loop reserve_step
  reserve_loop_lem zero cs r i = complete cs (omega arith) i
  reserve_loop_lem (suc n) cs r i = elim (reserve_step_lem cs r i) [
    | complete cs' l i' ↦
        let e : length cs + suc n ≡ length cs' + n = omega (arith, l) in
        rw (i'.room, e) (reserve_loop_lem n cs' (reserve_step g r) i')
    | out_of_space full used ↦ rw full (out_of_space full used)
  ]

  -- On a drive without errors, the loop of Fat32WriteFile that reserves `n` clusters, at least one,
  -- leaves a chain of `n` different clusters of the volume that were free before, with the first one in
  -- `first_cluster`, and the entries of all other clusters as they were; or it reports a full disk, and
  -- then no cluster of the volume is free any more.
  pub reserve_loop-first :
      (n last : ℕ)
      → IsHealthy d
      → 1 ≤ n
      → Outcome g d n
          (reserve_loop n g (record { first = 0; prev = 0; last = last; disk = d; full = false }))
  unfolding reserve_loop reserve_step
  reserve_loop-first zero last ok h = absurd (omega (arith, h))
  reserve_loop-first (suc n) last ok h = elim (allocate_cluster_lem g vol cov d ok last) [
    | inl full ↦ rw full.failed (out_of_space refl full.none_free)
    | inr t ↦
        let a = allocate_cluster g last d in
        let zero_new : (a.cluster == 0) ≡ false = let f = t.from in ground (arith, f) in
        let r : Reserved = record {
          first = a.cluster;
          prev = a.cluster;
          last = a.last;
          disk = a.disk;
          full = false;
        } in
        let e : suc n ≡ 1 + n = omega arith in
        rw (zero_new, e)
          (reserve_loop_lem n (a.cluster ∷ []) r (IsReserved-first g vol cov top d last ok t))
  ]
