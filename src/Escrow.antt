-- ===== src/Escrow.antt =====
-- pkg/escrow: the payment flow of a reservation.
pub mod Types
pub mod Distribution
pub mod Resources
pub mod Service
pub mod Register
pub mod Free
