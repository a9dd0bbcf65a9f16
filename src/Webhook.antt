-- ===== src/Webhook.antt =====
-- Webhook delivery: the circuit breaker and the dead-letter ring of state.rs.
pub mod Circuit
pub mod Event
pub mod Ring
pub mod Delivery
pub mod Registry
pub mod Replay
mod Tests
