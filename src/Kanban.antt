-- ===== src/Kanban.antt =====
-- packages/kanban: the durable task plane.
pub mod Status
pub mod Task
pub mod Transition
pub mod Construct
pub mod Fold
pub mod Store
pub mod Dispatcher
