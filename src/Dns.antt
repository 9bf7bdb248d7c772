-- ===== src/Dns.antt =====
-- The DNS service: dns/.
pub mod Route
pub mod Subscribe
pub mod Service
pub mod Start
mod Tests
mod StartTests
