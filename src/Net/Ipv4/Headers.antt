-- ===== src/Net/Ipv4/Headers.antt =====
-- A packet that Kernel/net/ipv4.c sends is one that it accepts.
use vibecoded_os.Prelude.{
  ℕ, ◌+◌, ◌-◌, ◌%◌, ◌<◌, ◌≡◌, refl, sym, ap, ◌∙◌, ◌⊎◌, inl, inr, true, false, Option, none, some,
  List, [], ◌∷◌, ◌++◌, arith, ltb, ◌==◌, ◌||◌, if◌then◌else◌, get_or, length, take, drop,
  length-append, Bool-cases, Option-cases, u16_mod, u32_mod,
}
use mathlib.Core.List.{append_assoc}
use vibecoded_os.Net.Bytes.{swap16, bytes16, bytes32, load16, load32}
use vibecoded_os.Net.Arp.{Arp, resolve}
use vibecoded_os.Net.Arp.Cache.{lookup}
use vibecoded_os.Net.Arp.Packets.{resolve_lem}
use vibecoded_os.Net.Ipv4.Sums.{checksum-header}
use vibecoded_os.Net.Ipv4.{header, accept, Ipv4, send, next_hop, checksum}

length-header :
    (total id proto sum src dst : ℕ) (rest : List ℕ)
    → length (header total id proto sum src dst ++ rest) ≡ 20 + length rest
unfolding header bytes16 bytes32
length-header total id proto sum src dst rest = omega arith

pub drop-header :
    (total id proto sum src dst : ℕ) (rest : List ℕ)
    → drop 20 (header total id proto sum src dst ++ rest) ≡ rest
unfolding header bytes16 bytes32
drop-header total id proto sum src dst rest = refl

fields :
    (total id proto sum src dst : ℕ) (rest : List ℕ)
    → total < u16_mod
    → src < u32_mod
    → dst < u32_mod
    → let bytes = header total id proto sum src dst ++ rest in
      (swap16 (load16 bytes 2) ≡ total)
      × (get_or bytes 0 0 ≡ 0x45)
      × (get_or bytes 9 0 ≡ proto)
      × (load32 bytes 12 ≡ src)
      × (load32 bytes 16 ≡ dst)
unfolding header bytes16 bytes32 load16 load32 swap16
fields total id proto sum src dst rest a b c = (omega arith, refl, refl, omega arith, omega arith)

take-append : (xs ys : List ℕ) → take (length xs) (xs ++ ys) ≡ xs
take-append [] ys = refl
take-append (x ∷ xs) ys = ap (λ r. x ∷ r) (take-append xs ys)

-- A packet of the form that Ipv4Send builds, with padding behind it as the minimum size of a frame
-- asks for it, is accepted by Ipv4HandlePacket exactly if it is for the receiver's address, or if the
-- receiver has none; what is handed on are the protocol, the sender and the payload without padding.
pub accept-header :
    (our_ip id proto sum src dst : ℕ) (payload pad : List ℕ)
    → 20 + length payload < u16_mod
    → src < u32_mod
    → dst < u32_mod
    → accept our_ip (header (20 + length payload) id proto sum src dst ++ (payload ++ pad)) ≡ (
        if dst == our_ip || our_ip == 0
        then some (record { proto = proto; src_ip = src; payload = payload })
        else none)
unfolding accept
accept-header our_ip id proto sum src dst payload pad a b c =
    let f = fields (20 + length payload) id proto sum src dst (payload ++ pad) a b c in
    let l = length-header (20 + length payload) id proto sum src dst (payload ++ pad) in
    let d = drop-header (20 + length payload) id proto sum src dst (payload ++ pad) in
    let la = length-append payload pad in
    let e : 20 + length payload - 20 ≡ length payload = omega arith in
    let t0 : ltb (20 + length (payload ++ pad)) 20 ≡ false = ground arith in
    let t1 : (ltb (20 + length payload) 20
          || ltb (20 + length (payload ++ pad)) (20 + length payload))
        ≡ false =
      ground arith in
    rw (f.0, f.1, f.2, f.3, f.4, l, d, t0, t1, e, take-append payload pad)
      (elim (Bool-cases (dst == our_ip)) [
        | inl u ↦ rw u refl
        | inr u ↦ elim (Bool-cases (our_ip == 0)) [
          | inl w ↦ rw (u, w) refl
          | inr w ↦ rw (u, w) refl
        ]
      ])

-- The packet that Ipv4Send builds.
abbrev pub packet_of : (dst proto : ℕ) → List ℕ → Ipv4 → List ℕ
packet_of dst proto payload ip =
    header (20 + length payload) ip.ip_id proto
      (checksum (header (20 + length payload) ip.ip_id proto 0 ip.our_ip dst)) ip.our_ip dst
    ++ payload

pub send_resolved :
    (our_mac : List ℕ) (dst proto : ℕ) (payload : List ℕ) (arp : Arp) (ip : Ipv4) {m : List ℕ}
    → (ip.our_ip == 0) ≡ false
    → lookup (next_hop ip dst) arp.cache ≡ some m
    → 20 + length payload < u16_mod
    → send our_mac dst proto payload arp ip ≡ record {
      ip = record ip { ip_id = (ip.ip_id + 1) % u16_mod };
      requests = [];
      sent = some (m, packet_of dst proto payload ip);
    }
unfolding send
send_resolved our_mac dst proto payload arp ip {m} nz k a =
    let r : resolve our_mac (next_hop ip dst) arp ≡ (some m, []) =
      resolve_lem our_mac (next_hop ip dst) arp ∙ rw k refl in
    let t : (20 + length payload) % u16_mod ≡ 20 + length payload = omega arith in
    rw (nz, r, t) refl

send_unresolved :
    (our_mac : List ℕ) (dst proto : ℕ) (payload : List ℕ) (arp : Arp) (ip : Ipv4)
    → (ip.our_ip == 0 ≡ true) ⊎ (lookup (next_hop ip dst) arp.cache ≡ none)
    → (send our_mac dst proto payload arp ip).sent ≡ none
unfolding send
send_unresolved our_mac dst proto payload arp ip (inl z) = rw z refl
send_unresolved our_mac dst proto payload arp ip (inr n) =
    let r : (resolve our_mac (next_hop ip dst) arp).0 ≡ none =
      rw (resolve_lem our_mac (next_hop ip dst) arp, n) refl in
    elim (Bool-cases (ip.our_ip == 0)) [ inl z ↦ rw z refl | inr z ↦ rw (z, r) refl ]

take-header :
    (total id proto sum src dst : ℕ) (rest : List ℕ)
    → take 20 (header total id proto sum src dst ++ rest) ≡ header total id proto sum src dst
unfolding header bytes16 bytes32
take-header total id proto sum src dst rest = refl

-- Whatever Ipv4Send hands to EthSend goes to the hardware address that the cache has for the next
-- hop, carries a header whose checksum verifies, and is accepted with the same payload by the kernel
-- whose address it is sent to, also with padding behind it. Ipv4Send has then used up one packet
-- identifier and asked for no address.
pub send-accept :
    (our_mac : List ℕ) (dst proto : ℕ) (payload pad : List ℕ) (arp : Arp) (ip : Ipv4)
    {mac packet : List ℕ}
    → (send our_mac dst proto payload arp ip).sent ≡ some (mac, packet)
    → 20 + length payload < u16_mod
    → proto < 256
    → ip.ip_id < u16_mod
    → ip.our_ip < u32_mod
    → dst < u32_mod
    → (lookup (next_hop ip dst) arp.cache ≡ some mac)
      × (checksum (take 20 packet) ≡ 0)
      × (accept dst (packet ++ pad)
          ≡ some (record { proto = proto; src_ip = ip.our_ip; payload = payload }))
      × ((send our_mac dst proto payload arp ip).ip
          ≡ record ip { ip_id = (ip.ip_id + 1) % u16_mod })
      × ((send our_mac dst proto payload arp ip).requests ≡ [])
send-accept our_mac dst proto payload pad arp ip {mac} {packet} h a b c d e =
    elim (Bool-cases (ip.our_ip == 0)) [
      | inl z ↦
          absurd (
            let n = send_unresolved our_mac dst proto payload arp ip (inl z) in let q : ⊥ = cc in q)
      | inr nz ↦ elim (Option-cases (lookup (next_hop ip dst) arp.cache)) [
        | inl k ↦ absurd (
            let n = send_unresolved our_mac dst proto payload arp ip (inr k) in let q : ⊥ = cc in q)
        | inr (m, k) ↦
            let s = send_resolved our_mac dst proto payload arp ip nz k a in
            let h' : ◌≡◌ {A = Option (List ℕ × List ℕ)} (some (m, packet_of dst proto payload ip))
                (some (mac, packet)) =
              rw s at h in
            let em : m ≡ mac = cc in
            let ep : packet_of dst proto payload ip ≡ packet = cc in
            rw (sym ep) (
              k ∙ ap some em,
              checked dst proto payload ip a b c,
              accepted dst proto payload pad ip a d e,
              rw s refl,
              rw s refl,
            )
      ]
    ]
  where
    checked :
        (dst proto : ℕ) (payload : List ℕ) (ip : Ipv4)
        → 20 + length payload < u16_mod
        → proto < 256
        → ip.ip_id < u16_mod
        → checksum (take 20 (packet_of dst proto payload ip)) ≡ 0
    checked dst proto payload ip a b c =
        rw
          (take-header (20 + length payload) ip.ip_id proto
            (checksum (header (20 + length payload) ip.ip_id proto 0 ip.our_ip dst)) ip.our_ip dst
            payload)
          (checksum-header (20 + length payload) ip.ip_id proto ip.our_ip dst a c b).1

    accepted :
        (dst proto : ℕ) (payload pad : List ℕ) (ip : Ipv4)
        → 20 + length payload < u16_mod
        → ip.our_ip < u32_mod
        → dst < u32_mod
        → accept dst (packet_of dst proto payload ip ++ pad)
          ≡ some (record { proto = proto; src_ip = ip.our_ip; payload = payload })
    accepted dst proto payload pad ip a d e =
        let sum = checksum (header (20 + length payload) ip.ip_id proto 0 ip.our_ip dst) in
        let t : (dst == dst) ≡ true = ground arith in
        rw
          (
            append_assoc (header (20 + length payload) ip.ip_id proto sum ip.our_ip dst) payload
                pad,
            accept-header dst ip.ip_id proto sum ip.our_ip dst payload pad a d e,
            t,
          )
          refl

-- The packet that Ipv4Send hands on is its header followed by the payload.
pub send-packet_of :
    (our_mac : List ℕ) (dst proto : ℕ) (payload : List ℕ) (arp : Arp) (ip : Ipv4)
    {mac packet : List ℕ}
    → (send our_mac dst proto payload arp ip).sent ≡ some (mac, packet)
    → 20 + length payload < u16_mod
    → packet ≡ packet_of dst proto payload ip
send-packet_of our_mac dst proto payload arp ip {mac} {packet} h a =
    elim (Bool-cases (ip.our_ip == 0)) [
      | inl z ↦
          absurd (
            let n = send_unresolved our_mac dst proto payload arp ip (inl z) in let q : ⊥ = cc in q)
      | inr nz ↦ elim (Option-cases (lookup (next_hop ip dst) arp.cache)) [
        | inl k ↦ absurd (
            let n = send_unresolved our_mac dst proto payload arp ip (inr k) in let q : ⊥ = cc in q)
        | inr (m, k) ↦
            let s = send_resolved our_mac dst proto payload arp ip nz k a in
            let h' : ◌≡◌ {A = Option (List ℕ × List ℕ)} (some (m, packet_of dst proto payload ip))
                (some (mac, packet)) =
              rw s at h in
            let e : packet ≡ packet_of dst proto payload ip = cc in e
      ]
    ]
