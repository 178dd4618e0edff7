-- ===== src/Net/Stack/Delivery.antt =====
-- A datagram's way through two kernels: UdpSend, Ipv4Send, Ipv4HandlePacket, UdpHandlePacket and
-- UdpRecv.
use vibecoded_os.Prelude.{
  ℕ, ◌+◌, ◌<◌, ◌≡◌, some, List, ◌++◌, arith, length, take, drop, u16_mod, u32_mod,
}
use mathlib.Core.List.{append_assoc}
use vibecoded_os.Net.Arp.{Arp}
use vibecoded_os.Net.Ipv4.{Ipv4, accept, send, header, checksum}
use vibecoded_os.Net.Ipv4.Headers.{send-accept, send-packet_of, packet_of, drop-header}
use vibecoded_os.Net.Udp.{datagram, recv_ready}
use vibecoded_os.Net.Udp.Slot.{datagram_round_trip, length-datagram}
use vibecoded_os.Net.Stack.{Stack, handle_ipv4}

-- What lies behind the header of a packet that Ipv4Send has built.
drop-packet_of :
    (dst proto : ℕ) (payload behind : List ℕ) (ip : Ipv4)
    → drop 20 (packet_of dst proto payload ip ++ behind) ≡ payload ++ behind
drop-packet_of dst proto payload behind ip =
    let sum = checksum (header (20 + length payload) ip.ip_id proto 0 ip.our_ip dst) in
    rw (append_assoc (header (20 + length payload) ip.ip_id proto sum ip.our_ip dst) payload behind)
      (drop-header (20 + length payload) ip.ip_id proto sum ip.our_ip dst (payload ++ behind))

-- Data of 1 to 512 bytes that one kernel sends by UdpSend, and that gets past its Ipv4Send, reaches
-- the kernel that has the destination address, whatever padding the frame has and whatever lies
-- behind it in memory: UdpRecv on the destination port then hands out the data, cut to the room of
-- the caller, with the sender's address.
pub handle_ipv4-datagram :
    (mac_a : List ℕ) (dst dst_port src_port max_len : ℕ) (payload pad beyond : List ℕ) (arp : Arp)
    (ip : Ipv4) (b : Stack) {d mac packet : List ℕ}
    → datagram dst_port src_port payload ≡ some d
    → 0 < length payload
    → dst_port < u16_mod
    → (send mac_a dst 17 d arp ip).sent ≡ some (mac, packet)
    → ip.ip_id < u16_mod
    → ip.our_ip < u32_mod
    → dst < u32_mod
    → b.ip.our_ip ≡ dst
    → (recv_ready dst_port max_len (handle_ipv4 (packet ++ pad) beyond b).0.udp).0
      ≡ some (take max_len payload, ip.our_ip)
unfolding handle_ipv4
handle_ipv4-datagram mac_a dst dst_port src_port max_len payload pad beyond arp ip b {d} {mac}
      {packet} h pos port s i o l same =
    let ld = length-datagram dst_port src_port payload h in
    let small : 20 + length d < u16_mod = omega arith in
    let acc = send-accept mac_a dst 17 d pad arp ip s small (omega arith) i o l in
    let pk = send-packet_of mac_a dst 17 d arp ip s small in
    let e : drop 20 ((packet ++ pad) ++ beyond) ≡ d ++ (pad ++ beyond) =
      rw (append_assoc packet pad beyond, pk) (drop-packet_of dst 17 d (pad ++ beyond) ip) in
    let got : accept b.ip.our_ip (packet ++ pad)
        ≡ some (record { proto = 17; src_ip = ip.our_ip; payload = d }) =
      rw same (acc.2) in
    rw (got, handle_ipv4, e)
      ((datagram_round_trip dst_port src_port ip.our_ip max_len payload (pad ++ beyond) b.udp h pos
        port).0)
