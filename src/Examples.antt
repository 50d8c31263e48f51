-- ===== src/Examples.antt =====
-- Concrete runs of the modelled code: test data, tests, and the theorems applied to them.
pub mod Templates
pub mod Plans
pub mod Receipts
pub mod Records
pub mod Directories
pub mod Deadlines
pub mod ReadyRun
pub mod FailedRun
pub mod Rounds
pub mod Workflows
pub mod WorkflowRuns
pub mod Deployments
pub mod Organizers
