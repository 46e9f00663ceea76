-- ===== src/Amp.antt =====
-- The amp package: transactions on the wire, access control and epochs.
pub mod Wire
pub mod Ops
pub mod Access
pub mod Quorum
pub mod Tx
pub mod Find
pub mod Seal
pub mod Open
pub mod Epoch
pub mod Boxes
pub mod Founders
pub mod Member
pub mod Rekey
pub mod TagTree
pub mod Selector
pub mod Terms
mod Tests
