-- ===== src/Net/Arp/Packets.antt =====
-- The packets of Kernel/net/arp.c.
use vibecoded_os.Prelude.{
  ℕ, ◌-◌, ◌≡◌, ◌≢◌, refl, inl, inr, true, false, none, some, List, [], ◌∷◌, arith, ◌==◌, get_or,
  length, Option-cases,
}
use vibecoded_os.Net.Bytes.{swap16}
use vibecoded_os.Net.Arp.{
  Arp, cache_size, handle_packet, resolve, request, reply_to, find_entry, no_entry,
}
use vibecoded_os.Net.Arp.Cache.{lookup, update_cache_lem, find_entry-none, find_entry-some}

-- ArpResolve answers from the cache and sends nothing where the cache knows the address; where it
-- does not, it fails and sends one request for that address to all.
pub resolve_lem :
    (our_mac : List ℕ) (ip : ℕ) (a : Arp)
    → resolve our_mac ip a ≡ elim (lookup ip a.cache) [
      | some m ↦ (some m, [])
      | none ↦ (none, request our_mac a.our_ip ip ∷ [])
    ]
unfolding resolve
resolve_lem our_mac ip a = elim (Option-cases (find_entry ip a.cache 0)) [
  | inl e ↦ rw (e, resolve, find_entry-none ip a.cache 0 e) refl
  | inr (i, e) ↦
      let r = find_entry-some ip a.cache 0 e in
      let z : i - 0 ≡ i = omega arith in
      (let k : lookup ip a.cache ≡ some (get_or a.cache i no_entry).mac = rw z at r.3 in
        rw (e, resolve, k) refl)
]

-- Two kernels, of which the other has an address that is not 0: the request that one sends for the other is answered by
-- the other with one frame to the first, and the first, handling that frame, resolves the address
-- then, without a further frame.
pub resolve_round_trip :
    (tick : ℕ) (mac_a mac_b : List ℕ) (a b : Arp)
    → b.our_ip ≢ 0
    → length a.cache ≡ cache_size
    → let (b', answer) = handle_packet tick mac_b (request mac_a a.our_ip b.our_ip).body b in
      (b' ≡ b)
      × (answer
          ≡ record {
            dst = mac_a;
            body = reply_to mac_b b.our_ip (request mac_a a.our_ip b.our_ip).body;
          }
            ∷ [])
      × (resolve mac_a b.our_ip
            (handle_packet tick mac_a
              (reply_to mac_b b.our_ip (request mac_a a.our_ip b.our_ip).body)
              a).0
          ≡ (some mac_b, []))
unfolding handle_packet request swap16
resolve_round_trip tick mac_a mac_b a b nz l =
    let t : (b.our_ip == b.our_ip) ≡ true = ground arith in
    let z : (b.our_ip == 0) ≡ false = ground arith in
    let known = (update_cache_lem b.our_ip mac_b tick a.cache l).0 in
    (ground arith, ground arith, rw (resolve_lem mac_a b.our_ip _, known) refl)
