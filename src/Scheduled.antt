-- ===== src/Scheduled.antt =====
-- Scheduled sends: the parked message, the table and the statements on it, the guard of the send
-- endpoints, the management endpoints and the dispatcher.
pub mod Status
pub mod Store
pub mod Steps
pub mod Park
pub mod Manage
pub mod Dispatcher
pub mod Sends
pub mod Revoked
pub mod Lifecycle
pub mod Progress
pub mod Cancel
pub mod Replay
mod Tests
