-- ===== src/Market.antt =====
-- The market data system: alerts, metrics, the receivers, and the parser and the processor of messages.
pub mod Alerts
pub mod Metrics
pub mod Tcp
pub mod Udp
pub mod Parser
pub mod Processor
mod Tests
