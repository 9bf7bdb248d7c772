-- ===== src/Agent.antt =====
-- The load-balancing agent: load_balance_agent/.
pub mod HostInfo
pub mod LoadBalance
pub mod RouteLb
pub mod Server
pub mod Forward
pub mod Start
pub mod Life
mod Tests
mod ForwardTests
mod StartTests
