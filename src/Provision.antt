-- ===== src/Provision.antt =====
-- provision/builders: the builders of reservations and networks on the side of the customer.
pub mod Network
pub mod Dict
pub mod Address
pub mod Tables
pub mod Peers
pub mod Left
pub mod Nodes
pub mod Config
pub mod Load
pub mod Secret
pub mod Container
pub mod Zdb
pub mod Volume
pub mod K8s
pub mod Reservation
