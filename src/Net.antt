-- ===== src/Net.antt =====
-- The network stack, kernel/src/drivers/netstack: a module for each of its files.
pub mod Bytes
pub mod Ethernet
pub mod Arp
pub mod Ip
pub mod Udp
pub mod Tcp
pub mod Dhcp
pub mod Stack
mod Tests
