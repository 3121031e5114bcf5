-- ===== src/Cloudflare.antt =====
-- api/src/cloudflare: the parts of the runtime that keep the background jobs going.
pub mod JobWake
pub mod Outbox
mod Tests
