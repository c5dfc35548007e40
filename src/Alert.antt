-- ===== src/Alert.antt =====
-- internal/alert: the evaluator that turns cycles into alert transitions, its replay guard, the quorum
-- over sources and the bounded queues that carry transitions to the dispatcher.
pub mod Window
pub mod State
pub mod Replay
pub mod Sustained
pub mod Sources
pub mod Queue
pub mod Key
pub mod Evaluate
pub mod Delivery
pub mod Retention
pub mod Majority
pub mod Commit
pub mod Chain
pub mod Notices
pub mod Egress
pub mod Privacy
pub mod Warm
pub mod Reporters
pub mod Reload
pub mod Examples
