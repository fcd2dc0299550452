-- ===== src/Tests.antt =====
-- The theorems at concrete inputs.
mod Redaction
mod Console
mod Dispatching
mod Frames
mod Turns
mod Serving
mod Startup
