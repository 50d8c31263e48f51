-- ===== src/Deployment.antt =====
-- src/deployment-target.mjs, src/deployment-contract.mjs: where an agent is deployed, and its manifest
pub mod Target
pub mod Manifest
