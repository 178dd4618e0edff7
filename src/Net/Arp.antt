-- ===== src/Net/Arp.antt =====
-- Kernel/net/arp.c: the cache of hardware addresses, and the packets that fill and ask it. A packet
-- is the record of its fields as they stand in memory; KeGetTickCount and EthGetMac are arguments. A
-- function that sends returns the frames that it hands to EthSend.
pub mod Cache
pub mod Packets
use vibecoded_os.Prelude.{
  ℕ, zero, suc, ◌+◌, ◌-◌, Bool, true, false, Option, none, some, List, [], ◌∷◌, ◌&&◌, ◌||◌, not,
  ltb, ◌==◌, if◌then◌else◌, get_or, set, replicate,
}
use vibecoded_os.Net.Bytes.{swap16}

abbrev pub cache_size : ℕ
cache_size = 8

-- `ArpEntry`; a hardware address is the list of its six bytes.
pub record Entry : Type 0 where
  pub ip : ℕ
  pub mac : List ℕ
  pub timestamp : ℕ
  pub valid : Bool

abbrev pub no_entry : Entry
no_entry = record { ip = 0; mac = replicate 6 0; timestamp = 0; valid = false }

pub record Arp : Type 0 where
  pub cache : List Entry
  pub our_ip : ℕ

-- `ArpPacket`
pub record ArpPacket : Type 0 where
  pub htype : ℕ
  pub ptype : ℕ
  pub hlen : ℕ
  pub plen : ℕ
  pub oper : ℕ
  pub sha : List ℕ
  pub spa : ℕ
  pub tha : List ℕ
  pub tpa : ℕ

-- A frame of type ETH_TYPE_ARP, with its destination.
pub record ArpFrame : Type 0 where
  pub dst : List ℕ
  pub body : ArpPacket

-- `ArpInit`
pub arp_init : Arp → Arp
arp_init a = record a { cache = replicate cache_size no_entry }

-- `g_arp_cache[i].valid && g_arp_cache[i].ip == ip`
abbrev pub hits : ℕ → Entry → Bool
hits ip e = e.valid && e.ip == ip

-- `ArpFindEntry`, from place `i` on; -1 is `none`.
unfoldable pub find_entry : ℕ → List Entry → ℕ → Option ℕ
find_entry ip [] i = none
find_entry ip (e ∷ es) i = let rest = find_entry ip es (i + 1) in if hits ip e then some i else rest

-- The first loop of `ArpAllocEntry`.
unfoldable pub find_invalid : List Entry → ℕ → Option ℕ
find_invalid [] i = none
find_invalid (e ∷ es) i = let rest = find_invalid es (i + 1) in if e.valid then rest else some i

abbrev pub stamp : List Entry → ℕ → ℕ
stamp es i = (get_or es i no_entry).timestamp

-- The second loop, `n` rounds from place `i` on: the place of the oldest entry.
unfoldable pub oldest : List Entry → (n i best : ℕ) → ℕ
oldest es zero i best = best
oldest es (suc n) i best =
    oldest es n (i + 1) (if ltb (stamp es i) (stamp es best) then i else best)

unfoldable pub alloc_entry : List Entry → ℕ
alloc_entry es = elim (find_invalid es 0) [ some i ↦ i | none ↦ oldest es (cache_size - 1) 1 0 ]

-- `ArpUpdateCache` at a tick
unfoldable pub update_cache : (ip : ℕ) (mac : List ℕ) (tick : ℕ) → List Entry → List Entry
update_cache ip mac tick es =
    let e : Entry = record { ip = ip; mac = mac; timestamp = tick; valid = true } in
    set es (elim (find_entry ip es 0) [ some i ↦ i | none ↦ alloc_entry es ]) e

abbrev pub reply_to : (our_mac : List ℕ) (our_ip : ℕ) → ArpPacket → ArpPacket
reply_to our_mac our_ip pkt = record {
  htype = swap16 1;
  ptype = swap16 0x0800;
  hlen = 6;
  plen = 4;
  oper = swap16 2;
  sha = our_mac;
  spa = our_ip;
  tha = pkt.sha;
  tpa = pkt.spa;
}

-- `ArpHandlePacket` of a packet that is there.
unfoldable pub handle_packet : (tick : ℕ) (our_mac : List ℕ) → ArpPacket → Arp → Arp × List ArpFrame
handle_packet tick our_mac pkt a =
    if not (swap16 pkt.htype == 1) || not (swap16 pkt.ptype == 0x0800)
    then (a, [])
    else if swap16 pkt.oper == 2
    then (record a { cache = update_cache pkt.spa pkt.sha tick a.cache }, [])
    else if swap16 pkt.oper == 1 && (pkt.tpa == a.our_ip && not (a.our_ip == 0))
    then (a, record { dst = pkt.sha; body = reply_to our_mac a.our_ip pkt } ∷ [])
    else (a, [])

-- `ArpSendRequest`
unfoldable pub request : (our_mac : List ℕ) (our_ip target_ip : ℕ) → ArpFrame
request our_mac our_ip target_ip = record {
  dst = replicate 6 0xFF;
  body = record {
    htype = swap16 1;
    ptype = swap16 0x0800;
    hlen = 6;
    plen = 4;
    oper = swap16 1;
    sha = our_mac;
    spa = our_ip;
    tha = replicate 6 0;
    tpa = target_ip;
  };
}

-- `ArpResolve`: the address, or -1 as `none`, and the request that it sends then.
unfoldable pub resolve : (our_mac : List ℕ) (ip : ℕ) → Arp → Option (List ℕ) × List ArpFrame
resolve our_mac ip a = elim (find_entry ip a.cache 0) [
  | some i ↦ (some (get_or a.cache i no_entry).mac, [])
  | none ↦ (none, request our_mac a.our_ip ip ∷ [])
]
