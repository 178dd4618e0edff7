-- ===== src/Fs/Fat/Directory/Groups.antt =====
-- FatFindFreeSlots of fat32.c on one group of sectors, a cluster or the root directory: its entries are
-- numbered from 0 on, sixteen in a sector.
use vibecoded_os.Prelude.{
  ℕ, ◌+◌, ◌-◌, ◌*◌, ◌/◌, ◌%◌, ◌^◌, ◌≤◌, ◌<◌, ◌≡◌, ◌≢◌, ◌⊎◌, refl, sym, ap, ◌∙◌, true, false, leb,
  ◌==◌, u32_mod, arith, inl, inr, Bool-cases,
}
use vibecoded_os.Fs.Fat.{FatInfo, Disk, lba_of}
use vibecoded_os.Fs.Fat.Table.{IsVolume}
use vibecoded_os.Fs.Fat.Directory.{
  Run, Slots, slots_at, group_done, going, unreadable, started, slots_remaining, slot_step, go_on,
}

-- The first byte of the entry `j` of the group that starts with the sector `base`: 0xE5 for a deleted
-- entry, 0 for the end of the directory.
abbrev pub first_byte : FatInfo → Disk → (base j : ℕ) → ℕ
first_byte g d base j = d.sector (lba_of g (base + j / 16)) (j % 16 * 32)

-- The entries from the one at the offset `o` of the sector `s` on are `needed` free ones in the group of
-- `size` sectors: deleted entries, up to the end of the directory if that comes first.
pub record IsSlots (e : ℕ → ℕ) (base size needed s o : ℕ) : Type 0 where
  pub index : ℕ
  pub place : s * 512 + o ≡ base * 512 + index * 32
  pub in_sector : o < 512
  pub room : index + needed ≤ size * 16
  pub count : ℕ
  pub upto : count ≤ needed
  pub deleted : (j : ℕ) → index ≤ j → j < index + count → e j ≡ 0xe5
  pub rest : (count ≡ needed) ⊎ (e (index + count) ≡ 0)

-- Among `needed` entries from `q` on, one is not deleted.
abbrev pub IsBroken : (ℕ → ℕ) → (needed q : ℕ) → Type 0
IsBroken e needed q = (j : ℕ) × (q ≤ j) × (j < q + needed) × (e j ≢ 0xe5)

-- The group has no room: before its end or the end of the directory, which leaves too few entries
-- behind it, no `needed` entries one behind the other are deleted.
pub record IsFull (e : ℕ → ℕ) (size needed : ℕ) : Type 0 where
  pub upto : ℕ
  pub inside : upto ≤ size * 16
  pub in_use : (j : ℕ) → j < upto → e j ≢ 0
  pub broken : (q : ℕ) → q + needed ≤ upto → IsBroken e needed q
  pub stop : (upto ≡ size * 16) ⊎ ((e upto ≡ 0) × (size * 16 < upto + needed))

-- The run in front of the entry `i`: all deleted entries that end there.
pub record IsRun (e : ℕ → ℕ) (base needed i : ℕ) (r : Run) : Type 0 where
  pub short : r.length < needed
  pub inside : r.length ≤ i
  pub start :
      (r.length ≡ 0)
      ⊎ ((r.sector * 512 + r.offset ≡ base * 512 + (i - r.length) * 32) × (r.offset < 512))
  pub deleted : (j : ℕ) → i ≤ j + r.length → j < i → e j ≡ 0xe5
  pub in_use : (j : ℕ) → j < i → e j ≢ 0
  pub edge : (j : ℕ) → j + 1 + r.length ≡ i → e j ≢ 0xe5
  pub broken : (q : ℕ) → q + needed ≤ i → IsBroken e needed q

-- What an answer of the search says; `P` is about a search that goes on.
unfoldable pub IsGood :
    (e : ℕ → ℕ) (base size needed : ℕ) (bad : Type 0) (P : Run → Type 0) → Slots → Type 0
IsGood e base size needed bad P (slots_at s o) = IsSlots e base size needed s o
IsGood e base size needed bad P group_done = IsFull e size needed
IsGood e base size needed bad P (going r) = P r
IsGood e base size needed bad P unreadable = bad

pub go_on-IsGood :
    (e : ℕ → ℕ) (base size needed : ℕ) (bad : Type 0) (P Q : Run → Type 0) (x : Slots)
    (f : Run → Slots)
    → IsGood e base size needed bad P x
    → ((r : Run) → P r → IsGood e base size needed bad Q (f r))
    → IsGood e base size needed bad Q (go_on x f)
unfolding go_on IsGood
go_on-IsGood e base size needed bad P Q (slots_at s o) f h k = h
go_on-IsGood e base size needed bad P Q group_done f h k = h
go_on-IsGood e base size needed bad P Q (going r) f h k = k r h
go_on-IsGood e base size needed bad P Q unreadable f h k = h

-- Where the run with the entry `i` starts
started_lem :
    (e : ℕ → ℕ) (base needed i sec at : ℕ) (r : Run)
    → IsRun e base needed i r
    → sec * 512 + at ≡ base * 512 + i * 32
    → at < 512
    → ((started sec at r).length ≡ r.length)
      × ((started sec at r).sector * 512 + (started sec at r).offset
          ≡ base * 512 + (i - r.length) * 32)
      × ((started sec at r).offset < 512)
started_lem e base needed i sec at r h p b = elim (Bool-cases (r.length == 0)) [
  | inl z ↦ let z' : r.length ≡ 0 = ground (arith, z) in rw z (sym z', omega (arith, p, z'), b)
  | inr z ↦ elim h.start [
    | inl z' ↦ absurd (let w : ⊥ = ground (arith, z, z') in w)
    | inr (q, b') ↦ rw z (refl, q, b')
  ]
]

module _ (g : FatInfo) (vol : IsVolume g) (needed : ℕ) (some_slot : 1 ≤ needed) where
  slots_remaining_lem :
      (n at : ℕ) → 1 ≤ n → n < 2 ^ 23 → at < 512 → slots_remaining g n at ≡ (n * 512 - at) / 32
  slots_remaining_lem n at h h' h2 =
      let s = vol.sector_size in
      rw s (
        let m : (n * 512 % u32_mod + u32_mod - at) % u32_mod / 32 ≡ (n * 512 - at) / 32 =
          omega (arith, h, h', h2) in
        m)

  module _ (e : ℕ → ℕ) (base size : ℕ) (bad : Type 0) where
    deleted_more :
        (i : ℕ) (r : Run)
        → IsRun e base needed i r
        → e i ≡ 0xe5
        → (j : ℕ) → i ≤ j + r.length
        → j < i + 1
        → e j ≡ 0xe5
    deleted_more i r h z j a b = elim (Bool-cases (j == i)) [
      | inl q ↦ let q' : j ≡ i = ground (arith, q) in ap e q' ∙ z
      | inr q ↦ h.deleted j a (ground (arith, q, b))
    ]

    in_use_more :
        (i : ℕ) (r : Run) → IsRun e base needed i r → e i ≢ 0 → (j : ℕ) → j < i + 1 → e j ≢ 0
    in_use_more i r h z j b = elim (Bool-cases (j == i)) [
      | inl q ↦ let q' : j ≡ i = ground (arith, q) in λ w. z (sym (ap e q') ∙ w)
      | inr q ↦ h.in_use j (ground (arith, q, b))
    ]

    longer-IsRun :
        (i : ℕ) (r s : Run)
        → IsRun e base needed i r
        → e i ≡ 0xe5
        → r.length + 1 < needed
        → s.length ≡ r.length
        → s.sector * 512 + s.offset ≡ base * 512 + (i - r.length) * 32
        → s.offset < 512
        → IsRun e base needed (i + 1) (record s { length = s.length + 1 })
    longer-IsRun i r s h z l same p b =
        let k = h.inside in
        record {
          short = omega (arith, l, same);
          inside = omega (arith, k, same);
          start = inr (omega (arith, p, same, k), b);
          deleted = λ j a c. deleted_more i r h z j (omega (arith, a, same)) c;
          in_use =
              in_use_more i r h
                (λ w. let q : 0xe5 ≡ 0 = sym z ∙ w in let y : ⊥ = omega (arith, q) in y);
          edge = λ j q. h.edge j (omega (arith, q, same));
          broken = λ q a. elim (Bool-cases (leb (q + needed) i)) [
            | inl c ↦ h.broken q (ground (arith, c))
            | inr c ↦
                let c' : i < q + needed = ground (arith, c) in
                (
                  i - r.length - 1,
                  omega (arith, a, c', l, k),
                  omega (arith, a, c', l, k, some_slot),
                  h.edge (i - r.length - 1) (omega (arith, a, c', l, k)),
                )
          ];
        }

    empty-IsRun :
        (i : ℕ) (r : Run)
        → IsRun e base needed i r
        → e i ≢ 0
        → e i ≢ 0xe5
        → IsRun e base needed (i + 1) (record r { length = 0 })
    empty-IsRun i r h z z' = record {
      short = omega (arith, some_slot);
      inside = omega arith;
      start = inl refl;
      deleted = λ j a c. absurd (let y : ⊥ = omega (arith, a, c) in y);
      in_use = in_use_more i r h z;
      edge = λ j q. let q' : j ≡ i = omega (arith, q) in λ w. z' (sym (ap e q') ∙ w);
      broken = λ q a. elim (Bool-cases (leb (q + needed) i)) [
        | inl c ↦ h.broken q (ground (arith, c))
        | inr c ↦
            let c' : i < q + needed = ground (arith, c) in (i, omega (arith, a, some_slot), c', z')
      ];
    }

    pub slot_step_lem :
        (i n sec at first : ℕ) (r : Run)
        → 1 ≤ n
        → n < 2 ^ 23
        → at + 32 ≤ 512
        → sec * 512 + at ≡ base * 512 + i * 32
        → n * 512 + i * 32 ≡ size * 512 + at
        → first ≡ e i
        → IsRun e base needed i r
        → IsGood e base size needed bad
            (IsRun e base needed (i + 1))
            (slot_step g needed n sec at first r)
    unfolding slot_step IsGood
    slot_step_lem i n sec at first r pos small fit p left fe h =
        let st = started_lem e base needed i sec at r h p (omega (arith, fit)) in
        let same = st.0 in
        let q = slots_remaining_lem n at pos small (omega (arith, fit)) in
        let k = h.inside in
        let l = h.short in
        elim (Bool-cases (first == 0)) [
          | inl z ↦
              let z' : e i ≡ 0 = sym fe ∙ (let y : first ≡ 0 = ground (arith, z) in y) in
              elim (Bool-cases (leb needed (slots_remaining g n at))) [
                | inl m ↦
                    let m' : leb needed ((n * 512 - at) / 32) ≡ true =
                      ap (leb needed) (sym q) ∙ m in
                    let m2 : needed ≤ (n * 512 - at) / 32 = ground (arith, m') in
                    rw (z, m)
                      (record {
                        index = i - r.length;
                        place = st.1;
                        in_sector = st.2;
                        room = omega (arith, m2, left, k, fit);
                        count = r.length;
                        upto = omega (arith, l);
                        deleted = λ j a b. h.deleted j (omega (arith, a)) (omega (arith, b, k));
                        rest =
                            inr (
                              let y : i - r.length + r.length ≡ i = omega (arith, k) in
                              ap e y ∙ z');
                      })
                | inr m ↦
                    let m' : leb needed ((n * 512 - at) / 32) ≡ false =
                      ap (leb needed) (sym q) ∙ m in
                    let m2 : (n * 512 - at) / 32 < needed = ground (arith, m') in
                    rw (z, m)
                      (record {
                        upto = i;
                        inside = omega (arith, left, fit, pos);
                        in_use = h.in_use;
                        broken = h.broken;
                        stop = inr (z', omega (arith, m2, left, fit, pos));
                      })
              ]
          | inr z ↦
              let nz : e i ≢ 0 =
                λ w. let y : first ≡ 0 = fe ∙ w in let x : ⊥ = ground (arith, z, y) in x in
              elim (Bool-cases (first == 0xe5)) [
                | inr f ↦
                    let nf : e i ≢ 0xe5 =
                      λ w. let y : first ≡ 0xe5 = fe ∙ w in let x : ⊥ = ground (arith, f, y) in x in
                    rw (z, f) (empty-IsRun i r h nz nf)
                | inl f ↦
                    let f' : e i ≡ 0xe5 =
                      sym fe ∙ (let y : first ≡ 0xe5 = ground (arith, f) in y) in
                    elim (Bool-cases ((started sec at r).length + 1 == needed)) [
                      | inl m ↦
                          let m' : (started sec at r).length + 1 ≡ needed = ground (arith, m) in
                          rw (z, f, m)
                            (record {
                              index = i - r.length;
                              place = st.1;
                              in_sector = st.2;
                              room = omega (arith, m', same, left, k, fit, pos);
                              count = needed;
                              upto = omega arith;
                              deleted = λ j a b.
                                  deleted_more i r h f' j (omega (arith, a))
                                    (omega (arith, b, k, m', same));
                              rest = inl refl;
                            })
                      | inr m ↦
                          let m' : (started sec at r).length + 1 ≢ needed = ground (arith, m) in
                          rw (z, f, m)
                            (longer-IsRun i r (started sec at r) h f' (omega (arith, m', same, l))
                              same st.1 st.2)
                    ]
              ]
        ]
