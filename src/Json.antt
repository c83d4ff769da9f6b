-- ===== src/Json.antt =====
-- A parsed JSON document, and what the verifiers of kry ask of one.
pub mod Values
pub mod Limits
