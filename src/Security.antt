-- ===== src/Security.antt =====
-- era/security: what keeps secrets out of records, and bounds what comes in.
pub mod Redaction
pub mod Params
pub mod Schema
