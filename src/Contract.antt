-- ===== src/Contract.antt =====
-- src/pod-contract.mjs: the contracts of an engineering pod
pub mod Fields
pub mod Paths
pub mod Template
pub mod Directories
pub mod Plan
pub mod Inbox
pub mod Receipts
