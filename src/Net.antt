-- ===== src/Net.antt =====
-- net/: the network stack.
pub mod Order
pub mod Arp
pub mod Dns
pub mod Ntp
pub mod Udp
pub mod Ethernet
pub mod Ip
pub mod Icmp
pub mod Stack
pub mod Resolve
