-- ===== src/Efvitcp.antt =====
-- efvitcp: a TCP stack over ef_vi.
pub mod Csum
pub mod Wheel
pub mod Table
pub mod Conn
pub mod Core
pub mod Stack
pub mod Filter
mod Tests
