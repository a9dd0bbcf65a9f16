-- ===== src/Blast/Drain.antt =====
-- The end of the worker's loop in handlers/blast.rs, measured by the weight of the pending rows.
pub mod Weight
pub mod Batch
pub mod Rules
pub mod Send
pub mod Work
pub mod Ends
