-- ===== src/Net/Dns/Names.antt =====
-- Names in queries: Kernel/net/udp.c skips what it encodes.
use vibecoded_os.Prelude.{
  ℕ, zero, suc, ◌+◌, ◌-◌, ◌/◌, ◌≤◌, ◌<◌, ◌≡◌, ◌≢◌, refl, sym, ap, ◌∙◌, true, false, List, [], ◌∷◌,
  ◌++◌, arith, ◌||◌, ltb, leb, ◌==◌, get_or, length, length-append, Bool-cases, inl, inr,
}
use mathlib.Core.List.{append_assoc}
use vibecoded_os.Net.Dns.{
  cut_label, skip_dot, Encoded, encoded, bad_label, out_of_fuel, put_label, encode_loop,
  encode_name, skip_loop, skip_name,
}

get_or-append :
    (pre : List ℕ) (c : ℕ) (rest : List ℕ) → get_or (pre ++ (c ∷ rest)) (length pre) 0 ≡ c
get_or-append [] c rest = refl
get_or-append (x ∷ pre) c rest = get_or-append pre c rest

length-cut_label : (cs : List ℕ) → length (cut_label cs).0 + length (cut_label cs).1 ≡ length cs
unfolding cut_label
length-cut_label [] = refl
length-cut_label (c ∷ cs) = ground (arith, length-cut_label cs)

length-skip_dot : (cs : List ℕ) → length (skip_dot cs) ≤ length cs
length-skip_dot [] = omega arith
length-skip_dot (c ∷ cs) = ground arith

-- The fuel of `encode_loop` is enough: each round takes at least one character.
pub encode_loop_fuel :
    (fuel : ℕ) (name : List ℕ) → length name < fuel → encode_loop fuel name ≢ out_of_fuel
unfolding encode_loop
encode_loop_fuel zero name h = absurd (omega arith)
encode_loop_fuel (suc fuel) [] h = λ e. cc
encode_loop_fuel (suc fuel) (c ∷ cs) h =
    let r = cut_label (c ∷ cs) in
    let l = length-cut_label (c ∷ cs) in
    let s = length-skip_dot r.1 in
    elim (Bool-cases (length r.0 == 0 || ltb 63 (length r.0))) [
      | inl b ↦ rw b (λ e. cc)
      | inr g ↦ rw g (
          not_out r.0 (encode_loop fuel (skip_dot r.1))
            (encode_loop_fuel fuel (skip_dot r.1) (ground arith)))
    ]
  where
    not_out : (label : List ℕ) (m : Encoded) → m ≢ out_of_fuel → put_label label m ≢ out_of_fuel
    not_out label (encoded out) h = λ e. cc
    not_out label bad_label h = λ e. cc
    not_out label out_of_fuel h = h

put_label-encoded :
    (label : List ℕ) (m : Encoded) {out : List ℕ}
    → put_label label m ≡ encoded out
    → (more : List ℕ) × (m ≡ encoded more) × (out ≡ length label ∷ (label ++ more))
put_label-encoded label (encoded more) h = (more, refl, ground arith)
put_label-encoded label bad_label h = absurd (let z : ⊥ = ground arith in z)
put_label-encoded label out_of_fuel h = absurd (let z : ⊥ = ground arith in z)

skip_step :
    (k n len : ℕ) (pre tail : List ℕ)
    → length pre < len
    → n ≢ 0
    → n < 64
    → skip_loop (suc k) (pre ++ (n ∷ tail)) (length pre) len
      ≡ skip_loop k (pre ++ (n ∷ tail)) (length pre + n + 1) len
unfolding skip_loop
skip_step k n len pre tail a nz small =
    let t : ltb (length pre) len ≡ true = ground arith in
    let z : (n == 0) ≡ false = ground arith in
    let p : (n / 64 == 3) ≡ false = ground arith in rw (get_or-append pre n tail, t, z, p) refl

-- The walk of DnsSkipName over an encoded name that stands behind `pre`.
skip_encoded :
    (fuel k : ℕ) (name out pre rest : List ℕ) (len : ℕ)
    → encode_loop fuel name ≡ encoded out
    → length pre + length out ≤ len
    → len ≤ length pre + k
    → skip_loop k (pre ++ (out ++ rest)) (length pre) len ≡ length pre + length out
unfolding encode_loop skip_loop
skip_encoded zero k name out pre rest len h a b = absurd (let z : ⊥ = ground arith in z)
skip_encoded (suc fuel) zero [] out pre rest len h a b =
    absurd
      (let e : out ≡ 0 ∷ [] = ground arith in let l : length out ≡ 1 = rw e refl in omega arith)
skip_encoded (suc fuel) (suc k) [] out pre rest len h a b =
    let e : out ≡ 0 ∷ [] = ground arith in
    let l : length out ≡ 1 = rw e refl in
    let t : ltb (length pre) len ≡ true = ground arith in
    rw e (rw (get_or-append pre 0 rest, t) refl)
skip_encoded (suc fuel) k (c ∷ cs) out pre rest len h a b =
    elim (Bool-cases
      (length (cut_label (c ∷ cs)).0 == 0 || ltb 63 (length (cut_label (c ∷ cs)).0))) [
        | inl bad ↦ absurd (let z : ⊥ = ground arith in z)
        | inr good ↦
            let p =
              put_label-encoded (cut_label (c ∷ cs)).0
                (encode_loop fuel (skip_dot (cut_label (c ∷ cs)).1)) (rw good at h) in
            let (more, em, eo) = p in
            one_label (cut_label (c ∷ cs)).0 more k eo (ground arith) (ground arith) a b (λ k' pre'.
              skip_encoded fuel k' (skip_dot (cut_label (c ∷ cs)).1) more pre' rest len em)
      ]
  where
    one_label :
        (label more : List ℕ) (k : ℕ)
        → out ≡ length label ∷ (label ++ more)
        → length label ≢ 0
        → length label < 64
        → length pre + length out ≤ len
        → len ≤ length pre + k
        → ((k' : ℕ) (pre' : List ℕ)
            → length pre' + length more ≤ len
            → len ≤ length pre' + k'
            → skip_loop k' (pre' ++ (more ++ rest)) (length pre') len ≡ length pre' + length more)
        → skip_loop k (pre ++ (out ++ rest)) (length pre) len ≡ length pre + length out
    one_label label more zero eo nz small a b hyp =
        absurd (let l : length out ≡ suc (length (label ++ more)) = rw eo refl in omega arith)
    one_label label more (suc k) eo nz small a b hyp =
        let n = length label in
        let l : length out ≡ suc (length (label ++ more)) = rw eo refl in
        let la = length-append label more in
        let lp : length (pre ++ (n ∷ label)) ≡ length pre + n + 1 =
          omega (arith, length-append pre (n ∷ label)) in
        let eb : (pre ++ (n ∷ label)) ++ (more ++ rest) ≡ pre ++ (n ∷ ((label ++ more) ++ rest)) =
          append_assoc pre (n ∷ label) (more ++ rest)
          ∙ ap (λ z. pre ++ (n ∷ z)) (sym (append_assoc label more rest)) in
        let r = hyp k (pre ++ (n ∷ label)) (omega arith) (omega arith) in
        let r' : skip_loop k (pre ++ (n ∷ ((label ++ more) ++ rest))) (length pre + n + 1) len
            ≡ length pre + n + 1 + length more =
          rw (eb, lp) at r in
        rw eo (
          skip_step k n len pre ((label ++ more) ++ rest) (omega arith) nz small
          ∙ (r' ∙ omega arith))

-- DnsSkipName, put at the place where DnsEncodeName has written a name, stops exactly behind it,
-- whatever stands around it, if the buffer reaches so far.
pub skip_name-encode_name :
    (name out pre rest : List ℕ) (len : ℕ)
    → encode_name name ≡ encoded out
    → length pre + length out ≤ len
    → skip_name (pre ++ (out ++ rest)) (length pre) len ≡ length pre + length out
unfolding encode_name skip_name
skip_name-encode_name name out pre rest len h a =
    skip_encoded (suc (length name)) (len - length pre) name out pre rest len h a (omega arith)

skip_done : (k offset len : ℕ) (buf : List ℕ) → len ≤ offset → skip_loop k buf offset len ≡ offset
unfolding skip_loop
skip_done zero offset len buf h = refl
skip_done (suc k) offset len buf h = let t : ltb offset len ≡ false = ground arith in rw t refl

-- DnsSkipName on a buffer of bytes ends within the bound of its rounds: with any more rounds it gives
-- the same. It never goes back, and from inside the buffer it ends less than 192 bytes behind its
-- end.
pub skip_loop_lem :
    (k extra offset len : ℕ) (buf : List ℕ)
    → ((i : ℕ) → get_or buf i 0 < 256)
    → len ≤ offset + k
    → (skip_loop (k + extra) buf offset len ≡ skip_loop k buf offset len)
      × (offset ≤ skip_loop k buf offset len)
      × (offset ≤ len → skip_loop k buf offset len < len + 192)
unfolding skip_loop
skip_loop_lem zero extra offset len buf bytes b =
    (skip_done (zero + extra) offset len buf (omega arith), omega arith, λ h. omega arith)
skip_loop_lem (suc k) extra offset len buf bytes b =
    let e : suc k + extra ≡ suc (k + extra) = omega arith in
    let c = get_or buf offset 0 in
    let cb = bytes offset in
    rw e (elim (Bool-cases (ltb offset len)) [
      | inr f ↦ rw f (refl, omega arith, λ h. ground arith)
      | inl t ↦ rw t (elim (Bool-cases (c == 0)) [
        | inl z ↦ rw z (refl, omega arith, λ h. ground arith)
        | inr z ↦ rw z (elim (Bool-cases (c / 64 == 3)) [
          | inl p ↦ rw p (refl, omega arith, λ h. ground arith)
          | inr p ↦ rw p (
              let r = skip_loop_lem k extra (offset + c + 1) len buf bytes (ground arith) in
              (
                r.0,
                (let q = r.1 in omega arith),
                λ h. elim (Bool-cases (leb (offset + c + 1) len)) [
                  | inl i ↦ r.2 (ground arith)
                  | inr o ↦ rw (skip_done k (offset + c + 1) len buf (ground arith)) (ground arith)
                ],
              ))
        ])
      ])
    ])
