-- ===== src/Tcpdirect.antt =====
-- Tcpdirect.h: the same connection, client and server over the zockets of Solarflare's TCPDirect.
pub mod Conn
pub mod Client
pub mod Server
pub mod Pool
pub mod Zockets
pub mod Buffer
mod Tests
