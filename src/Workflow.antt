-- ===== src/Workflow.antt =====
-- src/workflow.mjs: a workflow of roles that hand over to one another
pub mod Fields
pub mod Graph
pub mod Definition
pub mod Receipt
pub mod History
pub mod World
pub mod Arguments
pub mod Run
