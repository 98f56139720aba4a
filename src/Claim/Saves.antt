-- ===== src/Claim/Saves.antt =====
-- The data of a tenant outlives its Pod: when `releaseClaim` and `handleDeletion` delete a Pod.
pub mod Extraction
pub mod Release
pub mod Deletion
