-- ===== src/Blast.antt =====
-- The blast (bulk-send) feature: models/blast.rs, db/blast.rs, handlers/blast.rs.
pub mod Status
pub mod Rows
pub mod Action
pub mod Statements
pub mod Store
pub mod Create
pub mod Manage
pub mod Worker
pub mod Steps
pub mod Interleaving
pub mod Resume
pub mod Retried
pub mod Drain
mod Tests
