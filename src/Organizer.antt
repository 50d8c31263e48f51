-- ===== src/Organizer.antt =====
-- src/organize.mjs: the vote of agents on the template for an assignment
pub mod Catalog
pub mod Vote
pub mod Run
