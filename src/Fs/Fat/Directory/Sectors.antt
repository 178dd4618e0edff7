-- ===== src/Fs/Fat/Directory/Sectors.antt =====
-- The loops of FatFindFreeSlots of fat32.c over the sectors of a group and the entries of a sector.
use vibecoded_os.Prelude.{
  ℕ, zero, suc, ◌+◌, ◌*◌, ◌/◌, ◌%◌, ◌^◌, ◌≤◌, ◌<◌, ◌≡◌, refl, sym, ap, ◌∙◌, true, u32_mod, arith,
  inl, inr, Bool-cases,
}
use vibecoded_os.Fs.Fat.{FatInfo, Disk, lba_of, read_sector}
use vibecoded_os.Fs.Fat.Table.{IsVolume}
use vibecoded_os.Fs.Fat.Directory.{Run, slot_step, slot_loop, read_slots, group_loop, no_run}
use vibecoded_os.Fs.Fat.Directory.Groups.{first_byte, IsRun, IsGood, go_on-IsGood, slot_step_lem}

-- A sector of the group cannot be read.
abbrev pub HasBad : FatInfo → Disk → (base size : ℕ) → Type 0
HasBad g d base size = (s : ℕ) × (s < size) × (d.bad (lba_of g (base + s)) ≡ true)

module _ (g : FatInfo) (vol : IsVolume g) (needed : ℕ) (some_slot : 1 ≤ needed) (d : Disk)
    (base size : ℕ) where
  abbrev E : ℕ → ℕ
  E j = first_byte g d base j

  same_entry :
      (s a p q : ℕ)
      → p ≡ s
      → q ≡ a
      → d.sector (lba_of g (base + s)) (a * 32) ≡ d.sector (lba_of g (base + p)) (q * 32)
  same_entry s a p q x y = rw (x, y) refl

  module _ (s n : ℕ) (at_s : n + s ≡ size) (pos : 1 ≤ n) (small : n < 2 ^ 23) where
    slot_loop_lem :
        (k a at : ℕ) (r : Run)
        → k + a ≡ 16
        → at ≡ a * 32
        → IsRun E base needed (s * 16 + a) r
        → IsGood E base size needed
            (HasBad g d base size)
            (IsRun E base needed ((s + 1) * 16))
            (slot_loop k g needed n (base + s) at (d.sector (lba_of g (base + s))) r)
    unfolding slot_loop IsGood
    slot_loop_lem zero a at r e q h = let z : (s + 1) * 16 ≡ s * 16 + a = omega (arith, e) in rw z h
    slot_loop_lem (suc k) a at r e q h =
        let buf = d.sector (lba_of g (base + s)) in
        let x : (s * 16 + a) / 16 ≡ s = omega (arith, e) in
        let y : (s * 16 + a) % 16 ≡ a = omega (arith, e) in
        let byte : buf at ≡ E (s * 16 + a) =
          ap buf q ∙ same_entry s a ((s * 16 + a) / 16) ((s * 16 + a) % 16) x y in
        go_on-IsGood E base size needed (HasBad g d base size)
          (IsRun E base needed (s * 16 + a + 1)) (IsRun E base needed ((s + 1) * 16))
          (slot_step g needed n (base + s) at (buf at) r)
          (λ r'. slot_loop k g needed n (base + s) (at + 32) buf r')
          (slot_step_lem g vol needed some_slot E base size (HasBad g d base size) (s * 16 + a) n
            (base + s) at (buf at) r pos small (omega (arith, e, q)) (omega (arith, q))
            (omega (arith, q, at_s)) byte h)
          (λ r' h'.
            let z : s * 16 + a + 1 ≡ s * 16 + (a + 1) = omega arith in
            slot_loop_lem k (a + 1) (at + 32) r' (omega (arith, e)) (omega (arith, q))
              (rw (sym z) h'))

    read_slots_lem :
        (r : Run)
        → IsRun E base needed (s * 16) r
        → IsGood E base size needed
            (HasBad g d base size)
            (IsRun E base needed ((s + 1) * 16))
            (read_slots g needed n (base + s) (read_sector g (base + s) d) r)
    unfolding read_slots read_sector IsGood
    read_slots_lem r h = elim (Bool-cases (d.bad (lba_of g (base + s)))) [
      | inl b ↦ rw b (s, omega (arith, at_s, pos), b)
      | inr b ↦
          let k : (g.bytes_per_sector + 31) / 32 ≡ 16 =
            let v = vol.sector_size in omega (arith, v) in
          let z : s * 16 ≡ s * 16 + 0 = omega arith in
          let h' : IsRun E base needed (s * 16 + 0) r = rw (sym z) h in
          rw (b, k) (slot_loop_lem 16 0 0 r refl refl h')
    ]

  group_loop_all :
      (n s sec : ℕ) (r : Run)
      → n + s ≡ size
      → size < 2 ^ 23
      → base + size < u32_mod
      → sec ≡ base + s
      → IsRun E base needed (s * 16) r
      → IsGood E base size needed (HasBad g d base size) (λ r'. ⊥) (group_loop n g needed sec r d)
  unfolding group_loop IsGood
  group_loop_all zero s sec r e small fit q h =
      let z : s ≡ size = omega (arith, e) in
      record {
        upto = s * 16;
        inside = omega (arith, z);
        in_use = h.in_use;
        broken = h.broken;
        stop = inl (omega (arith, z));
      }
  group_loop_all (suc n) s sec r e small fit q h =
      go_on-IsGood E base size needed (HasBad g d base size) (IsRun E base needed ((s + 1) * 16))
        (λ r'. ⊥) (read_slots g needed (suc n) sec (read_sector g sec d) r)
        (λ r'. group_loop n g needed ((sec + 1) % u32_mod) r' d)
        (rw q (read_slots_lem s (suc n) e (omega arith) (omega (arith, e, small)) r h))
        (λ r' h'.
          group_loop_all n (s + 1) ((sec + 1) % u32_mod) r' (omega (arith, e)) small fit
            (omega (arith, q, e, fit)) h')

  -- The whole group, from an empty run on
  pub group_loop_lem :
      size < 2 ^ 23
      → base + size < u32_mod
      → IsGood E base size needed
          (HasBad g d base size)
          (λ r'. ⊥)
          (group_loop size g needed base no_run d)
  group_loop_lem small fit =
      group_loop_all size 0 base no_run (omega arith) small fit (omega arith) (record {
        short = omega (arith, some_slot);
        inside = omega arith;
        start = inl refl;
        deleted = λ j a b. absurd (let y : ⊥ = omega (arith, b) in y);
        in_use = λ j b. absurd (let y : ⊥ = omega (arith, b) in y);
        edge = λ j b. absurd (let y : ⊥ = omega (arith, b) in y);
        broken = λ q b. absurd (let y : ⊥ = omega (arith, b, some_slot) in y);
      })
