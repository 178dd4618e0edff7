-- ===== src/Net/PacketTests.antt =====
-- Runs of the protocols below and beside TCP: Kernel/net/arp.c, ipv4.c and udp.c.
use vibecoded_os.Prelude.{
  ℕ, zero, suc, ◌+◌, ◌*◌, ◌^◌, ◌%◌, ◌<◌, ◌≤◌, ◌≡◌, refl, ◌≢◌, true, none, some, List, [], ◌∷◌, ◌++◌,
  arith, length, replicate, ◌⊎◌, take, get_or, u16_mod,
}
use vibecoded_os.Prelude.Bits.{test_bit}
use vibecoded_os.Net.Bytes.{swap16, load16, bytes16}
use vibecoded_os.Net.Arp.{
  Arp, Entry, no_entry, handle_packet, resolve, request, reply_to, update_cache,
}
use vibecoded_os.Net.Arp.Cache.{lookup, Evicted, update_cache_lem}
use vibecoded_os.Net.Arp.Packets.{resolve_round_trip}
use vibecoded_os.Net.Ipv4.{Ipv4, accept, checksum, next_hop, send, band}
use vibecoded_os.Net.Ipv4.Headers.{send-accept, send_resolved, packet_of}
use vibecoded_os.Net.Udp.{Udp, datagram, recv_ready}
use vibecoded_os.Net.Dns.{
  encode_name, encode_loop, cut_label, encoded, skip_loop, skip_name, parse_address,
}
use vibecoded_os.Net.Ethernet.{eth_send, eth_receive}
use vibecoded_os.Net.Ethernet.Frames.{eth_receive-eth_send}
use vibecoded_os.Net.Stack.{Stack, handle_ipv4}
use vibecoded_os.Net.Stack.Delivery.{handle_ipv4-datagram}
use vibecoded_os.Net.Dns.Names.{skip_name-encode_name, skip_loop_lem}
use vibecoded_os.Net.Dns.Addresses.{dotted, parse_address-dotted}

abbrev mac_a : List ℕ
mac_a = 2 ∷ 0 ∷ 0 ∷ 0 ∷ 0 ∷ 1 ∷ []

abbrev mac_b : List ℕ
mac_b = 2 ∷ 0 ∷ 0 ∷ 0 ∷ 0 ∷ 2 ∷ []

abbrev cache : List Entry
cache = record { ip = 0x0302000A; mac = mac_b; timestamp = 5; valid = true } ∷ replicate 7 no_entry

abbrev arp_a : Arp
arp_a = record { cache = cache; our_ip = 0x0F02000A }

abbrev arp_b : Arp
arp_b = record { cache = replicate 8 no_entry; our_ip = 0x0202000A }

update_cache_lem_example :
    (lookup 7 (update_cache 7 mac_a 9 cache) ≡ some mac_a)
    × ((q : ℕ)
        → q ≢ 7
        → (lookup q (update_cache 7 mac_a 9 cache) ≡ lookup q cache)
          ⊎ ((lookup 7 cache ≡ none) × Evicted q cache))
update_cache_lem_example = update_cache_lem 7 mac_a 9 cache refl

resolve_round_trip_example :
    let (b', answer) = handle_packet 9 mac_b (request mac_a arp_a.our_ip arp_b.our_ip).body arp_b in
    (b' ≡ arp_b)
    × (answer
        ≡ record {
          dst = mac_a;
          body = reply_to mac_b arp_b.our_ip (request mac_a arp_a.our_ip arp_b.our_ip).body;
        }
          ∷ [])
    × (resolve mac_a arp_b.our_ip
          (handle_packet 9 mac_a
            (reply_to mac_b arp_b.our_ip (request mac_a arp_a.our_ip arp_b.our_ip).body)
            arp_a).0
        ≡ (some mac_b, []))
resolve_round_trip_example = resolve_round_trip 9 mac_a mac_b arp_a arp_b (omega arith) refl

abbrev ip_a : Ipv4
ip_a = record { our_ip = 0x0F02000A; gateway = 0x0202000A; netmask = 0x00FFFFFF; ip_id = 1 }

neighbour : lookup (next_hop ip_a 0x0302000A) cache ≡ some mac_b
unfolding lookup next_hop band test_bit
neighbour = refl

sent :
    (send mac_a 0x0302000A 17 (1 ∷ 2 ∷ []) arp_a ip_a).sent
    ≡ some (mac_b, packet_of 0x0302000A 17 (1 ∷ 2 ∷ []) ip_a)
sent =
    rw (send_resolved mac_a 0x0302000A 17 (1 ∷ 2 ∷ []) arp_a ip_a refl neighbour (omega arith)) refl

send-accept_example :
    (lookup (next_hop ip_a 0x0302000A) cache ≡ some mac_b)
    × (checksum (take 20 (packet_of 0x0302000A 17 (1 ∷ 2 ∷ []) ip_a)) ≡ 0)
    × (accept 0x0302000A (packet_of 0x0302000A 17 (1 ∷ 2 ∷ []) ip_a ++ (0 ∷ []))
        ≡ some (record { proto = 17; src_ip = 0x0F02000A; payload = 1 ∷ 2 ∷ [] }))
    × ((send mac_a 0x0302000A 17 (1 ∷ 2 ∷ []) arp_a ip_a).ip
        ≡ record ip_a { ip_id = (1 + 1) % u16_mod })
    × ((send mac_a 0x0302000A 17 (1 ∷ 2 ∷ []) arp_a ip_a).requests ≡ [])
send-accept_example =
    send-accept mac_a 0x0302000A 17 (1 ∷ 2 ∷ []) (0 ∷ []) arp_a ip_a sent (omega arith)
      (omega arith) (omega arith) (omega arith) (omega arith)

abbrev slot : Udp
slot = record { buf = replicate 512 0; len = 0; port = 0; src_ip = 0 }

abbrev three_bytes : List ℕ
three_bytes = 0x14 ∷ 0xE9 ∷ 0 ∷ 53 ∷ 0 ∷ 11 ∷ 0 ∷ 0 ∷ 7 ∷ 8 ∷ 9 ∷ []

built : datagram 53 5353 (7 ∷ 8 ∷ 9 ∷ []) ≡ some three_bytes
unfolding datagram bytes16 swap16
built = refl

length_field : 8 ≤ swap16 (load16 three_bytes 4)
unfolding swap16 load16
length_field = omega arith

abbrev name : List ℕ
name = b'a' ∷ b'b' ∷ b'.' ∷ b'c' ∷ []

abbrev name_bytes : List ℕ
name_bytes = 2 ∷ b'a' ∷ b'b' ∷ 1 ∷ b'c' ∷ 0 ∷ []

encodes : encode_name name ≡ encoded name_bytes
unfolding encode_name encode_loop cut_label
encodes = refl

skip_name-encode_name_example :
    skip_name ((9 ∷ []) ++ (name_bytes ++ (5 ∷ []))) (length {A = ℕ} (9 ∷ [])) 8 ≡ 1 + 6
skip_name-encode_name_example =
    skip_name-encode_name name name_bytes (9 ∷ []) (5 ∷ []) 8 encodes (omega arith)

small_bytes : (i : ℕ) → get_or (3 ∷ 0 ∷ []) i 0 < 256
small_bytes zero = omega arith
small_bytes (suc zero) = omega arith
small_bytes (suc (suc i)) = omega arith

skip_loop_lem_example :
    (skip_loop (2 + 5) (3 ∷ 0 ∷ []) 0 2 ≡ skip_loop 2 (3 ∷ 0 ∷ []) 0 2)
    × (0 ≤ skip_loop 2 (3 ∷ 0 ∷ []) 0 2)
    × (0 ≤ 2 → skip_loop 2 (3 ∷ 0 ∷ []) 0 2 < 2 + 192)
skip_loop_lem_example = skip_loop_lem 2 5 0 2 (3 ∷ 0 ∷ []) small_bytes (omega arith)

parse_address-dotted_example :
    parse_address (dotted 10 0 2 255) ≡ some (10 + 0 * 2 ^ 8 + 2 * 2 ^ 16 + 255 * 2 ^ 24)
parse_address-dotted_example =
    parse_address-dotted 10 0 2 255 (omega arith) (omega arith) (omega arith) (omega arith)

abbrev stack_b : Stack
stack_b = record {
  arp = record { cache = replicate 8 no_entry; our_ip = 0x0302000A };
  ip = record { our_ip = 0x0302000A; gateway = 0; netmask = 0; ip_id = 1 };
  tcp = record { sockets = []; next_local_port = 49152 };
  udp = slot;
}

sent_datagram :
    (send mac_a 0x0302000A 17 three_bytes arp_a ip_a).sent
    ≡ some (mac_b, packet_of 0x0302000A 17 three_bytes ip_a)
sent_datagram =
    rw (send_resolved mac_a 0x0302000A 17 three_bytes arp_a ip_a refl neighbour (omega arith)) refl

handle_ipv4-datagram_example :
    (recv_ready 53 2
      (handle_ipv4
        (packet_of 0x0302000A 17 three_bytes ip_a ++ (0 ∷ 0 ∷ []))
        (1 ∷ [])
        stack_b).0.udp).0
    ≡ some (take 2 (7 ∷ 8 ∷ 9 ∷ []), 0x0F02000A)
handle_ipv4-datagram_example =
    handle_ipv4-datagram mac_a 0x0302000A 53 5353 2 (7 ∷ 8 ∷ 9 ∷ []) (0 ∷ 0 ∷ []) (1 ∷ []) arp_a
      ip_a stack_b built (omega arith) (omega arith) sent_datagram (omega arith) (omega arith)
      (omega arith) refl

eth_receive-eth_send_example :
    (frame : List ℕ) × (eth_send true
        (255 ∷ 255 ∷ 255 ∷ 255 ∷ 255 ∷ 255 ∷ [])
        mac_a
        0x0806
        (replicate 46 7)
        (1 ∷ [])
      ≡ some frame)
    × (eth_receive 2048 frame ≡ some (0x0806, (mac_a, replicate 46 7)))
eth_receive-eth_send_example =
    eth_receive-eth_send 255 255 255 255 255 255 2 0 0 0 0 1 0x0806 2048 (replicate 46 7) (1 ∷ [])
      (omega arith) (omega arith) (omega arith) (omega arith)
