-- ===== src/Examples.antt =====
-- The properties at concrete inputs.
mod Data
mod Json
mod Stages
mod Payments
mod Requests
mod Users
mod Grid
mod Lives
mod Nets
mod Containers
mod Dates
mod Wallets
mod Schemas
