-- ===== src/Api.antt =====
-- pkg/workloads/reservation.go: the handlers of the reservations. Each file has one group of them.
pub mod Handler
pub mod Signatures
pub mod Results
pub mod Listing
pub mod Create
