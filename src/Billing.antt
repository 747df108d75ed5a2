-- ===== src/Billing.antt =====
-- Licenses and entitlements: services/backend/billing.
pub mod Service
pub mod Deactivation
