-- ===== src/Pairing.antt =====
-- server/app/pairing_session.py: the one-time pairing sessions.
pub mod Sample
pub mod Library
pub mod Checks
pub mod Proof
pub mod Retired
pub mod Manager
