-- ===== src/Directory.antt =====
-- pkg/directory: the farms, the nodes and the gateways of the grid, and who may change them.
pub mod Outside
pub mod Filters
pub mod Node
pub mod Gateway
pub mod Farm
pub mod PublicConfig
pub mod Proofs
pub mod Nodes
pub mod Gateways
pub mod Farms
