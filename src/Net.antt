-- ===== src/Net.antt =====
-- The network protocols: byte order, Ethernet and IP headers, the ARP cache.
pub mod Bytes
pub mod Eth
pub mod Arp
pub mod Ip
pub mod Udp
pub mod Tests
