-- ===== src/Repository.antt =====
-- server/app/repositories/profiles.py: the profiles and their revisions.
pub mod Store
pub mod Pages
pub mod Methods
pub mod Seed
pub mod Reads
mod Tests
