-- ===== src/Socket.antt =====
-- Socket.h: TCP connections, client and server, and the datagram and packet sockets, over the
-- operating system's calls, whose results are arguments of the operations.
pub mod Os
pub mod Handle
pub mod Conn
pub mod Client
pub mod Server
pub mod Datagram
mod Tests
