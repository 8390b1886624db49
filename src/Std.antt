-- ===== src/Std.antt =====
-- The parts of Rust's standard library that the program computes with: byte strings and their
pub mod Bytes
pub mod BigEndian
pub mod Utf8
pub mod BTreeMap
pub mod HashMap
