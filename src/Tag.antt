-- ===== src/Tag.antt =====
-- stdlib/tag: the 128-bit identifiers, their text and key forms, ranks, addresses, loci and names.
pub mod Uid
pub mod Address
pub mod Rank
pub mod Locus
pub mod UidMap
mod Tests
