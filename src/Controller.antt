-- ===== src/Controller.antt =====
-- src/pod-controller.mjs: the controller that runs an engineering pod
pub mod World
pub mod Reasons
pub mod Time
pub mod Writers
pub mod Race
pub mod Candidate
pub mod AttemptRun
pub mod Start
pub mod Run
pub mod Blocks
pub mod Keeps
pub mod Answers
pub mod Gates
pub mod Publishing
pub mod Closing
pub mod Deadlines
pub mod Scope
pub mod Rounds
