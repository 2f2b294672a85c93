-- ===== src/Exits.antt =====
-- The exits module: servers, tunnels and their pool (modules/exits).
pub mod Geography
pub mod Health
pub mod Select
pub mod Tunnel
pub mod Pool
pub mod Budget
mod Tests
