-- ===== src/Net/Tcp/Wire.antt =====
-- The bytes of a segment of Kernel/net/tcp.c, with its checksum.
use vibecoded_os.Prelude.{ℕ, ◌+◌, ◌-◌, ◌%◌, List, [], ◌∷◌, ◌++◌, length, u16_mod, u32_mod}
use vibecoded_os.Net.Bytes.{swap16, swap32, bytes16, bytes32}
use vibecoded_os.Net.Ipv4.{sum_words, fold_carries}
use vibecoded_os.Net.Tcp.{Segment}

-- The pseudo header of `TcpChecksum`.
pub pseudo_header : (src_ip dst_ip len : ℕ) → List ℕ
pseudo_header src_ip dst_ip len =
    bytes32 src_ip ++ (bytes32 dst_ip ++ (0 ∷ 6 ∷ bytes16 (swap16 ((20 + len) % u16_mod))))

-- `TcpChecksum` of a header and its data
pub tcp_checksum : (header payload : List ℕ) (src_ip dst_ip : ℕ) → ℕ
tcp_checksum header payload src_ip dst_ip =
    let sum =
      sum_words (pseudo_header src_ip dst_ip (length payload))
      + sum_words header
      + sum_words payload in
    65535 - fold_carries 3 (sum % u32_mod) % u16_mod

-- `TcpBuildHeader` with a given checksum
pub tcp_header : Segment → (sum : ℕ) → List ℕ
tcp_header s sum =
    bytes16 (swap16 s.src_port)
    ++ (bytes16 (swap16 s.dst_port)
        ++ (bytes32 (swap32 s.seq)
            ++ (bytes32 (swap32 s.ack)
                ++ (0x50
                    ∷ s.flags
                    ∷ (bytes16 (swap16 s.window) ++ (bytes16 sum ++ (0 ∷ 0 ∷ [])))))))

-- What `TcpSendSegment` hands to Ipv4Send.
pub segment_bytes : (our_ip : ℕ) → Segment → List ℕ
segment_bytes our_ip s =
    tcp_header s (tcp_checksum (tcp_header s 0) s.payload our_ip s.dst_ip) ++ s.payload
