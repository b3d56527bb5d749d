-- ===== src/Std.antt =====
-- What the sources use of the C++ standard library: keys that can be compared, the unordered map,
-- the ordered set, the texts and raw memory.
pub mod Key
pub mod Dict
pub mod OrderedSet
pub mod Text
pub mod Memory
