-- ===== src/Kmer.antt =====
-- src/init.cpp, passes 1 and 2: the first ranks of the positions, from the first k symbols at each.
pub mod Window
pub mod Roll
pub mod Keys
pub mod Alphabet
pub mod Select
pub mod Codes
pub mod Counts
pub mod Passes
pub mod Digits
pub mod Feed
pub mod Ranks
pub mod Order
pub mod Coded
pub mod Correct
