-- ===== src/Wire.antt =====
-- Packet headers as the code reads them: through struct pointers, on a little-endian host.
-- A packet is the memory behind a pointer to its Ethernet header; offsets are those of the packed
-- structs of TcpStream.h and efvitcp/Core.h with a 20-byte IP header.
mod Defs
mod Laws
pub use Defs.*
pub use Laws.*
