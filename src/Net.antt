-- ===== src/Net.antt =====
-- netmux/: the pod network's addresses.
pub mod Ipv4
pub mod Nft
pub mod Services
pub mod Ingress
pub mod Security
pub mod Pool
pub mod Netlink
pub mod Mux
pub mod Dns
pub mod Policies
