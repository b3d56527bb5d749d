-- ===== src/Pointers.antt =====
-- The smart pointers.
pub mod Slots
pub mod Shared
pub mod Unique
mod Tests
