-- ===== src/Net/Udp/Slot.antt =====
-- What goes through the slot of Kernel/net/udp.c.
use vibecoded_os.Prelude.{
  ℕ, zero, suc, ◌+◌, ◌-◌, ◌%◌, ◌≤◌, ◌<◌, ◌≡◌, refl, ap, true, false, some, List, [], ◌∷◌, ◌++◌,
  arith, ltb, ◌==◌, min, if◌then◌else◌, length, take, drop, u16_mod,
}
use vibecoded_os.Net.Bytes.{swap16, load16, bytes16, store}
use vibecoded_os.Net.Udp.{Udp, recv_buf_size, datagram, handle_packet, recv_ready}

-- The bytes of a datagram, where there is one.
abbrev bytes_of : (dst_port src_port : ℕ) → List ℕ → List ℕ
bytes_of dst_port src_port payload =
    bytes16 (swap16 src_port)
    ++ (bytes16 (swap16 dst_port)
        ++ (bytes16 (swap16 ((8 + length payload) % u16_mod)) ++ (0 ∷ 0 ∷ payload)))

datagram-some :
    (dst_port src_port : ℕ) (payload : List ℕ) {d : List ℕ}
    → datagram dst_port src_port payload ≡ some d
    → (length payload ≤ 512) × (d ≡ bytes_of dst_port src_port payload)
unfolding datagram
datagram-some dst_port src_port payload h = ground arith

fields :
    (dst_port src_port : ℕ) (payload behind : List ℕ)
    → length payload ≤ 512
    → dst_port < u16_mod
    → let m = bytes_of dst_port src_port payload ++ behind in
      (swap16 (load16 m 2) ≡ dst_port)
      × (swap16 (load16 m 4) ≡ 8 + length payload)
      × (drop 8 m ≡ payload ++ behind)
unfolding load16 bytes16 swap16
fields dst_port src_port payload behind l a = (omega arith, omega arith, refl)

length-bytes_of :
    (dst_port src_port : ℕ) (payload : List ℕ)
    → length (bytes_of dst_port src_port payload) ≡ 8 + length payload
unfolding bytes16
length-bytes_of dst_port src_port payload = omega arith

pub length-datagram :
    (dst_port src_port : ℕ) (payload : List ℕ) {d : List ℕ}
    → datagram dst_port src_port payload ≡ some d
    → (length d ≡ 8 + length payload) × (length payload ≤ 512)
length-datagram dst_port src_port payload h =
    let s = datagram-some dst_port src_port payload h in
    (rw (s.1) (length-bytes_of dst_port src_port payload), s.0)

take-append : (xs ys : List ℕ) → take (length xs) (xs ++ ys) ≡ xs
take-append [] ys = refl
take-append (x ∷ xs) ys = ap (λ r. x ∷ r) (take-append xs ys)

take_front :
    (n : ℕ) (xs ys : List ℕ)
    → take (if ltb (length xs) n then length xs else n) (xs ++ ys) ≡ take n xs
take_front zero [] ys = refl
take_front (suc n) [] ys = let e : ltb zero (suc n) ≡ true = ground arith in rw e refl
take_front zero (x ∷ xs) ys = let e : ltb (suc (length xs)) zero ≡ false = ground arith in rw e refl
take_front (suc n) (x ∷ xs) ys =
    let e : (if ltb (suc (length xs)) (suc n) then suc (length xs) else suc n)
        ≡ suc (if ltb (length xs) n then length xs else n) =
      ground arith in
    rw e (ap (λ r. x ∷ r) (take_front n xs ys))

-- A datagram that UdpSend builds, of at least one byte, is handed out by UdpRecv on its destination
-- port as the same bytes, cut to the room of the caller, with the sender's address; what lies in
-- memory behind the datagram does not matter. The slot is then empty.
pub datagram_round_trip :
    (dst_port src_port src_ip max_len : ℕ) (payload behind : List ℕ) (u : Udp) {d : List ℕ}
    → datagram dst_port src_port payload ≡ some d
    → 0 < length payload
    → dst_port < u16_mod
    → let (got, u') =
        recv_ready dst_port max_len (handle_packet src_ip (d ++ behind) (length d) u) in
      (got ≡ some (take max_len payload, src_ip)) × (u'.len ≡ 0)
unfolding handle_packet recv_ready store
datagram_round_trip dst_port src_port src_ip max_len payload behind u h pos a =
    let s = datagram-some dst_port src_port payload h in
    let l = s.0 in
    let f = fields dst_port src_port payload behind l a in
    let t0 : ltb (8 + length payload) 8 ≡ false = ground arith in
    let n : min (8 + length payload - 8) recv_buf_size ≡ length payload = omega arith in
    let p0 : ltb 0 (length payload) ≡ true = ground arith in
    let p1 : (dst_port == dst_port) ≡ true = ground arith in
    rw (s.1) (
      rw
        (
          length-bytes_of dst_port src_port payload,
          f.0,
          f.1,
          f.2,
          t0,
          n,
          p0,
          p1,
          take-append payload behind,
        )
        (ap (λ t. some (t, src_ip)) (take_front max_len payload _), refl))

-- UdpHandlePacket uses the length of the datagram that it is given only to ask for a whole header:
-- what it puts into the slot is the same for every such length, so that a header that claims more
-- bytes than there are makes it copy memory from behind the datagram.
pub handle_packet_any_len :
    (src_ip len len' : ℕ) (memory : List ℕ) (u : Udp)
    → 8 ≤ len
    → 8 ≤ len'
    → 8 ≤ swap16 (load16 memory 4)
    → (handle_packet src_ip memory len u ≡ handle_packet src_ip memory len' u)
      × ((handle_packet src_ip memory len u).len ≡ min (swap16 (load16 memory 4) - 8) recv_buf_size)
unfolding handle_packet
handle_packet_any_len src_ip len len' memory u a b c =
    let t : ltb len 8 ≡ false = ground arith in
    let t' : ltb len' 8 ≡ false = ground arith in
    let z : ltb (swap16 (load16 memory 4)) 8 ≡ false = ground arith in rw (t, t', z) (refl, refl)
