-- ===== src/Net/Ipv4.antt =====
-- Kernel/net/ipv4.c: the checksum of the internet protocols, the header of a sent packet and its way
-- to a neighbour, and the checks on a received one. A packet is the list of its bytes.
pub mod Sums
pub mod Headers
use vibecoded_os.Prelude.{
  ℕ, zero, suc, ◌+◌, ◌-◌, ◌*◌, ◌/◌, ◌%◌, ◌^◌, Bool, true, false, Option, none, some, List, [], ◌∷◌,
  ◌++◌, ◌&&◌, ◌||◌, not, ltb, ◌==◌, if◌then◌else◌, get_or, length, take, drop, u16_mod, u32_mod,
}
use vibecoded_os.Prelude.Bits.{test_bit}
use vibecoded_os.Net.Bytes.{swap16, load16, load32, bytes16, bytes32}
use vibecoded_os.Net.Arp.{Arp, ArpFrame, resolve}

-- `g_our_ip`, `g_gateway`, `g_netmask` and `g_ip_id`
pub record Ipv4 : Type 0 where
  pub our_ip : ℕ
  pub gateway : ℕ
  pub netmask : ℕ
  pub ip_id : ℕ

-- The loop of `Ipv4Checksum` over the words of the data, with the odd byte at the end.
unfoldable pub sum_words : List ℕ → ℕ
sum_words [] = 0
sum_words (a ∷ []) = a
sum_words (a ∷ b ∷ rest) = a + b * 256 + sum_words rest

-- `while (sum >> 16) sum = (sum & 0xFFFF) + (sum >> 16);` on fuel.
unfoldable pub fold_carries : ℕ → ℕ → ℕ
fold_carries zero sum = sum
fold_carries (suc fuel) sum =
    let rest = fold_carries fuel (sum % 65536 + sum / 65536) in
    if sum / 65536 == 0 then sum else rest

-- `Ipv4Checksum`. The sum is a u32; three rounds are enough for one.
unfoldable pub checksum : List ℕ → ℕ
checksum bytes = 65535 - fold_carries 3 (sum_words bytes % u32_mod) % u16_mod

-- The header as `Ipv4Send` writes it.
unfoldable pub header : (total id proto sum src dst : ℕ) → List ℕ
header total id proto sum src dst =
    0x45
    ∷ 0
    ∷ (bytes16 (swap16 total)
        ++ (bytes16 (swap16 id)
            ++ (bytes16 (swap16 0x4000)
                ++ (64 ∷ proto ∷ (bytes16 sum ++ (bytes32 src ++ bytes32 dst))))))

-- `a & b` of two u32
unfoldable pub band : (bits a b : ℕ) → ℕ
band zero a b = 0
band (suc n) a b = band n a b + (if test_bit a n && test_bit b n then 2 ^ n else 0)

-- The next hop: the gateway for an address of another network.
unfoldable pub next_hop : Ipv4 → ℕ → ℕ
unfolding band
next_hop ip dst = if band 32 dst ip.netmask == band 32 ip.our_ip ip.netmask then dst else ip.gateway

-- What `Ipv4Send` does: `sent` is the packet that it hands to EthSend with the hardware address;
-- `none` is STATUS_UNSUCCESSFUL. A payload above 2028 bytes, which no caller has, overruns the array
-- `packet` of the code; the list here has no end.
pub record Sending : Type 0 where
  pub ip : Ipv4
  pub requests : List ArpFrame
  pub sent : Option (List ℕ × List ℕ)

unfoldable pub send : (our_mac : List ℕ) (dst proto : ℕ) → List ℕ → Arp → Ipv4 → Sending
send our_mac dst proto payload arp ip =
    let total = (20 + length payload) % u16_mod in
    let sum = checksum (header total ip.ip_id proto 0 ip.our_ip dst) in
    let packet = header total ip.ip_id proto sum ip.our_ip dst ++ payload in
    let ip' = record ip { ip_id = (ip.ip_id + 1) % u16_mod } in
    let (mac, requests) = resolve our_mac (next_hop ip dst) arp in
    if ip.our_ip == 0 then record { ip = ip; requests = []; sent = none } else record {
      ip = ip';
      requests = requests;
      sent = elim mac [ none ↦ none | some m ↦ some (m, packet) ];
    }

-- What `Ipv4HandlePacket` hands on.
pub record Delivery : Type 0 where
  pub proto : ℕ
  pub src_ip : ℕ
  pub payload : List ℕ

-- The checks of `Ipv4HandlePacket`; `none` is an early return. `hdr_len` is 20 behind the first one.
unfoldable pub accept : (our_ip : ℕ) → List ℕ → Option Delivery
accept our_ip bytes =
    let total = swap16 (load16 bytes 2) in
    if ltb (length bytes) 20
    then none
    else if not (get_or bytes 0 0 == 0x45)
    then none
    else if ltb total 20 || ltb (length bytes) total
    then none
    else if not (load32 bytes 16 == our_ip) && not (our_ip == 0)
    then none
    else some (record {
      proto = get_or bytes 9 0;
      src_ip = load32 bytes 12;
      payload = take (total - 20) (drop 20 bytes);
    })
