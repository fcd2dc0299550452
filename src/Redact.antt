-- ===== src/Redact.antt =====
-- crates/dekopon-tui/src/redact.rs: what is hidden from, and what is stripped out of, every string
-- that the console draws. Texts are lists of code points. The texts that redaction looks at byte by
-- byte are ASCII, so `len()` is the number of code points there.
pub mod Sanitize
pub mod Runs
pub mod Value
