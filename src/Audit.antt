-- ===== src/Audit.antt =====
-- internal/audit: the ledger with its hash chain, and the redaction of log records.
pub mod Ledger
pub mod Redact
