-- ===== src/Net/Ethernet/Frames.antt =====
-- A frame that Kernel/net/ethernet.c sends is one that it receives.
use vibecoded_os.Prelude.{
  ℕ, suc, ◌+◌, ◌-◌, ◌*◌, ◌/◌, ◌%◌, ◌≤◌, ◌<◌, ◌≡◌, refl, ap, true, false, some, List, [], ◌∷◌, ◌++◌,
  arith, ltb, if◌then◌else◌, length, take, u16_mod,
}
use mathlib.Core.List.{append-nil}
use vibecoded_os.Net.Bytes.{swap16, load16, bytes16}
use vibecoded_os.Net.Ethernet.{eth_send, eth_receive}

-- The frame with its addresses written out.
abbrev frame_of : (d0 d1 d2 d3 d4 d5 s0 s1 s2 s3 s4 s5 type : ℕ) → List ℕ → List ℕ
frame_of d0 d1 d2 d3 d4 d5 s0 s1 s2 s3 s4 s5 type rest =
    (d0 ∷ d1 ∷ d2 ∷ d3 ∷ d4 ∷ d5 ∷ [])
    ++ ((s0 ∷ s1 ∷ s2 ∷ s3 ∷ s4 ∷ s5 ∷ []) ++ (bytes16 (swap16 type) ++ rest))

take-append : (xs ys : List ℕ) → take (length xs) (xs ++ ys) ≡ xs
take-append [] ys = refl
take-append (x ∷ xs) ys = ap (λ r. x ∷ r) (take-append xs ys)

-- A payload of 46 to 1500 bytes, sent to an address of six bytes from another, comes out of
-- EthReceive with the type and the sender, whatever the stack holds, if the receiver has room.
pub eth_receive-eth_send :
    (d0 d1 d2 d3 d4 d5 s0 s1 s2 s3 s4 s5 type max_len : ℕ) (payload stack : List ℕ)
    → 46 ≤ length payload
    → length payload ≤ 1500
    → length payload ≤ max_len
    → type < u16_mod
    → (frame : List ℕ) × (eth_send true
          (d0 ∷ d1 ∷ d2 ∷ d3 ∷ d4 ∷ d5 ∷ [])
          (s0 ∷ s1 ∷ s2 ∷ s3 ∷ s4 ∷ s5 ∷ [])
          type
          payload
          stack
        ≡ some frame)
      × (eth_receive max_len frame ≡ some (type, ((s0 ∷ s1 ∷ s2 ∷ s3 ∷ s4 ∷ s5 ∷ []), payload)))
unfolding eth_send eth_receive bytes16 swap16 load16
eth_receive-eth_send d0 d1 d2 d3 d4 d5 s0 s1 s2 s3 s4 s5 type max_len payload stack lo hi room ty =
    let e : 14 + length payload
        ≡ suc (
            suc (
              suc (
                suc
                  (suc (suc (suc (suc (suc (suc (suc (suc (suc (suc (length payload)))))))))))))) =
      omega arith in
    let t0 : ltb (14 + length payload) 60 ≡ false = ground arith in
    let t1 : ltb 1500 (length payload) ≡ false = ground arith in
    let frame = frame_of d0 d1 d2 d3 d4 d5 s0 s1 s2 s3 s4 s5 type payload in
    let t2 : ltb (length frame) 14 ≡ false = ground arith in
    let l : length frame - 14 ≡ length payload = omega arith in
    let t3 : (if ltb max_len (length payload) then max_len else length payload) ≡ length payload =
      ground arith in
    let sw : type / 256 + type % 256 * 256 < u16_mod = omega arith in
    let back : swap16 (load16 frame 12) ≡ type = omega arith in
    let all : take (length payload) payload ≡ payload =
      rw (append-nil payload) at (take-append payload []) in
    (frame, rw (t0, t1, e, take-append payload stack) refl, rw (t2, l, t3, back, all) refl)
