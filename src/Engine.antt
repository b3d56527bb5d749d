-- ===== src/Engine.antt =====
-- order-matching-engine.cpp: orders, the book of one symbol, and the engine over all books.
pub mod Float
pub mod Order
pub mod Book
pub mod Venue
pub mod Step
pub mod Loop
pub mod Compare
pub mod Holds
pub mod Invariant
pub mod Trades
pub mod Matching
pub mod Quotes
mod Tests
