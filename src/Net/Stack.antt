-- ===== src/Net/Stack.antt =====
-- How Kernel/net/ipv4.c and Kernel/net/net.c hand received packets up: the state of the whole stack,
-- and the way of a frame to ARP, TCP or UDP.
pub mod Delivery
use vibecoded_os.Prelude.{
  ℕ, ◌+◌, Option, none, some, List, [], ◌∷◌, ◌++◌, ◌==◌, if◌then◌else◌, length, drop,
}
use vibecoded_os.Net.Arp.{Arp, ArpPacket, ArpFrame, handle_packet}
use vibecoded_os.Net.Ipv4.{Ipv4, accept}
use vibecoded_os.Net.Tcp.{Tcp, Segment}
use vibecoded_os.Net.Udp.{Udp}
use vibecoded_os.Net.Tcp
use vibecoded_os.Net.Udp

pub record Stack : Type 0 where
  pub arp : Arp
  pub ip : Ipv4
  pub tcp : Tcp
  pub udp : Udp

-- `Ipv4Init` without its log: ARP keeps the address too.
pub ipv4_init : (our_ip gateway netmask : ℕ) → Stack → Stack
ipv4_init our_ip gateway netmask s = record s {
  ip = record s.ip { our_ip = our_ip; gateway = gateway; netmask = netmask };
  arp = record s.arp { our_ip = our_ip };
}

-- `Ipv4HandlePacket` of the received bytes; `beyond` are the bytes that lie behind them in memory.
-- The results are the new state and the segments that TCP sends.
unfoldable pub handle_ipv4 : (bytes beyond : List ℕ) → Stack → Stack × List Segment
handle_ipv4 bytes beyond s = elim (accept s.ip.our_ip bytes) [
  | none ↦ (s, [])
  | some d ↦
      let (tcp, out) = Tcp.handle_packet d.src_ip d.payload s.tcp in
      let udp = Udp.handle_packet d.src_ip (drop 20 (bytes ++ beyond)) (length d.payload) s.udp in
      if d.proto == 6
      then (record s { tcp = tcp }, out)
      else if d.proto == 17
      then (record s { udp = udp }, [])
      else (s, [])
]

-- A frame as `EthReceive` gives it, by its type: of ARP with the fields of the packet, or of IPv4.
pub data Frame : Type 0 where
  arp_frame : ArpPacket → Frame
  ipv4_frame : (bytes beyond : List ℕ) → Frame
  other_frame : Frame

-- One round of the loop of `NetPoll`, with the frames and segments that it sends.
pub poll_frame :
    (tick : ℕ) (our_mac : List ℕ) → Frame → Stack → Stack × (List ArpFrame × List Segment)
poll_frame tick our_mac (arp_frame p) s =
    let (arp, out) = handle_packet tick our_mac p s.arp in (record s { arp = arp }, (out, []))
poll_frame tick our_mac (ipv4_frame bytes beyond) s =
    let (s', out) = handle_ipv4 bytes beyond s in (s', ([], out))
poll_frame tick our_mac other_frame s = (s, ([], []))

-- `NetPoll` over the frames that have arrived, up to its call of TcpPoll.
pub poll_frames :
    (tick : ℕ) (our_mac : List ℕ) → List Frame → Stack → Stack × (List ArpFrame × List Segment)
poll_frames tick our_mac [] s = (s, ([], []))
poll_frames tick our_mac (f ∷ fs) s =
    let (s', (a, t)) = poll_frame tick our_mac f s in
    let (s'', (a', t')) = poll_frames tick our_mac fs s' in (s'', (a ++ a', t ++ t'))

-- `NetPoll`
pub net_poll :
    (tick : ℕ) (our_mac : List ℕ) → List Frame → Stack → Stack × (List ArpFrame × List Segment)
net_poll tick our_mac fs s =
    let (s', (a, t)) = poll_frames tick our_mac fs s in
    let (tcp, out) = Tcp.poll tick s'.tcp in (record s' { tcp = tcp }, (a, t ++ out))
