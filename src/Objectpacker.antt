-- ===== src/Objectpacker.antt =====
-- objectpacker/objectpacker.go: the values that reflection shows, the writer, and `packValue`.
pub mod Value
pub mod Sort
pub mod Writer
pub mod Pack
pub mod Tree
pub mod Emit
pub mod Pairs
pub mod Counts
pub mod Meaning
pub mod Decode
pub mod PackAny
pub mod Zero
pub mod Collision
