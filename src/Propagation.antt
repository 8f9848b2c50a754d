-- ===== src/Propagation.antt =====
-- propagation/Propagator.h and HeadersConfig.h: what the text formats share. A reader is the list of
-- the pairs that its `ForeachKey` presents, and a writer the list of the pairs that were set.
mod Tests
pub mod Carrier
pub mod DebugId
pub mod Jaeger
pub mod W3c
pub mod Binary
