-- ===== src/Publication.antt =====
-- Publications and share links: api/src/application/artifacts/publication-viewer.ts and the
-- repository that it stands on, api/src/db/publication-content-repository.ts.
pub mod Paths
pub mod Rows
pub mod Store
pub mod Sharing
mod Newest
pub mod Publishing
pub mod Replay
pub mod Resolution
pub mod Late
mod Indexes
pub mod History
pub mod Assets
pub mod Viewer
pub mod Viewing
pub mod Refusals
mod Tests
mod ViewerTests
