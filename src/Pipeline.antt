-- ===== src/Pipeline.antt =====
-- The services in sequence: what one leaves in the store, the next one accepts.
pub mod Handover
