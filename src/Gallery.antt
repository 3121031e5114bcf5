-- ===== src/Gallery.antt =====
-- The Gallery (api/src/application/gallery): listings, proposals and quota.
pub mod Eligibility
pub mod Listing
pub mod Quota
pub mod Governance
pub mod Copy
