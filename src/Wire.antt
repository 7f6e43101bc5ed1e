-- ===== src/Wire.antt =====
-- The wire format of messages.go: numbers, strings, name lists, big integers and structures.
pub mod Numbers
pub mod Strings
pub mod NameLists
pub mod BigInts
pub mod Structs
