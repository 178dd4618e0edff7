-- ===== src/Net.antt =====
-- Kernel/net: the network stack.
pub mod Bytes
pub mod Arp
pub mod Ipv4
pub mod Tcp
pub mod Udp
pub mod Dns
pub mod Stack
pub mod Ethernet
mod Tests
mod PacketTests
