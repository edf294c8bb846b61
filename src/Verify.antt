-- ===== src/Verify.antt =====
-- src/verify.c: the external-memory checker of a suffix array.
pub mod Records
pub mod Bits
pub mod Partition
pub mod Check
pub mod Program
pub mod Ranked
pub mod Order
pub mod LexLess
pub mod Ascending
pub mod Suffixes
pub mod Entries
pub mod Sound
