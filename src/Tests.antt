-- ===== src/Tests.antt =====
-- The theorems applied at concrete inputs.
mod Codec
mod Sync
mod Axon
mod Auth
mod Engine
mod Storage
mod Billing
mod Topo
mod Run
mod Users
mod Sections
mod Summary
