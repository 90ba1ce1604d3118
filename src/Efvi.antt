-- ===== src/Efvi.antt =====
-- Efvi.h: UDP and Ethernet on Solarflare's ef_vi, whose calls are parameters: what they return is an
-- argument, and those that give something away are logged.
pub mod Receiver
pub mod Reads
pub mod Sender
pub mod Checksum
mod Tests
