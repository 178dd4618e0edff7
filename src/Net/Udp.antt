-- ===== src/Net/Udp.antt =====
-- Kernel/net/udp.c without its resolver: datagrams, and the single slot for received ones.
pub mod Slot
use vibecoded_os.Prelude.{
  ℕ, zero, suc, ◌+◌, ◌-◌, ◌*◌, ◌%◌, Bool, true, false, Option, none, some, List, [], ◌∷◌, ◌++◌,
  ◌&&◌, ltb, ◌==◌, min, if◌then◌else◌, length, take, drop, u16_mod,
}
use vibecoded_os.Net.Bytes.{swap16, load16, bytes16, store}

-- `UDP_RECV_BUF`
abbrev pub recv_buf_size : ℕ
recv_buf_size = 512

-- The slot.
pub record Udp : Type 0 where
  pub buf : List ℕ
  pub len : ℕ
  pub port : ℕ
  pub src_ip : ℕ

-- The datagram that `UdpSend` hands to Ipv4Send; `none` is STATUS_INVALID_PARAMETER. The checksum
-- stays 0.
unfoldable pub datagram : (dst_port src_port : ℕ) → List ℕ → Option (List ℕ)
datagram dst_port src_port payload =
    let total = (8 + length payload) % u16_mod in
    if ltb 512 (length payload)
    then none
    else some (
        bytes16 (swap16 src_port)
        ++ (bytes16 (swap16 dst_port) ++ (bytes16 (swap16 total) ++ (0 ∷ 0 ∷ payload))))

-- `UdpHandlePacket`. `memory` are the bytes from the datagram on, also those behind its end, since
-- the code trusts the length in the header; `len` is the length of the datagram.
unfoldable pub handle_packet : (src_ip : ℕ) (memory : List ℕ) (len : ℕ) → Udp → Udp
handle_packet src_ip memory len u =
    let payload_len = swap16 (load16 memory 4) in
    let n = min (payload_len - 8) recv_buf_size in
    if ltb len 8 then u else if ltb payload_len 8 then u else record {
      buf = store u.buf 0 (take n (drop 8 memory));
      len = n;
      port = swap16 (load16 memory 2);
      src_ip = src_ip;
    }

-- `UdpRecv` before it waits: what came earlier is forgotten.
unfoldable pub recv_start : Udp → Udp
recv_start u = record u { len = 0; port = 0 }

-- One look of `UdpRecv` at the slot.
unfoldable pub recv_ready : (local_port max_len : ℕ) → Udp → Option (List ℕ × ℕ) × Udp
recv_ready local_port max_len u =
    let copy = if ltb u.len max_len then u.len else max_len in
    if ltb 0 u.len && u.port == local_port
    then (some (take copy u.buf, u.src_ip), record u { len = 0 })
    else (none, u)
