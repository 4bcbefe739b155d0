-- ===== src/Storage.antt =====
-- src/storage: path policy, text patches, locks and transactions.
pub mod Types
pub mod PathPolicy
pub mod TextDiff
pub mod Transaction
pub mod WriteGate
