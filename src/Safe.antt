-- ===== src/Safe.antt =====
-- stdlib/safe: the store of epoch keys.
pub mod Keys
pub mod Sign
