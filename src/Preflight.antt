-- ===== src/Preflight.antt =====
-- web/src/artifacts/archive-preflight.ts: the checks that the browser makes on a ZIP before the
-- upload. Paths are lists of UTF-16 code units and sizes are natural numbers.
pub mod Paths
pub mod Report
pub mod Entries
pub mod Directory
