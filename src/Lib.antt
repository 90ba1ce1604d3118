-- ===== src/Lib.antt =====
-- Pollnet: network input and output by polling. The library's users call `poll` or `read` in a loop,
-- and it calls their handlers. This development models its parts over values: a class is a record,
-- a method a function to the new state and the method's result, a system call's result an argument,
-- and a callback a function that the method applies.
--
-- TcpStream.h reassembles one direction of a TCP connection from captured packets. Wire reads the
-- header fields, with the byte-order conversions of the C library; Segs is the list `segs[]` of
-- received intervals, with the scans, the insertion and the merge of `handlePacket`; Stream is the
-- class: `initFilter`, `filterPacket` and `handlePacket`, which is cut into `sync`, `cut`,
-- `drop_gap`, `store` (with `place`, `keep_packet`, `keep_buffer`) and `compact`, in the order of
-- the code. All arithmetic on sequence numbers and offsets wraps at 2^32, as `uint32_t` does.
-- BUFSIZE is a parameter of at least 2 and at most 2^30 bytes where a theorem needs a bound.
--
-- Socket.h is the same interface on the operating system's sockets. Socket.Os lists what the calls
-- return; Socket.Conn is `SocketTcpConnection`, Socket.Client `SocketTcpClient`, Socket.Server
-- `SocketTcpServer`, and Socket.Datagram the UDP and packet sockets, whose `init` chains are run by
-- Socket.Handle, which keeps what they have made of the descriptor. A client or a server holds
-- connections and calls `open_conn` and `poll_conn` on them. Closed descriptors and sent bytes are logged in the state, so that leaks and losses can be
-- stated. Times are natural numbers; `int64_t` seconds do not overflow.
--
-- `write` loops until the data is sent: it recurs on the list of what `::send` returns, and says
-- so if the list ends first. The loop of `SocketTcpServer::poll` recurs on fuel, the number of
-- connections in use: each round either moves the index on or takes a connection out.
--
-- Tcpdirect.h has the same classes over the zockets of TCPDirect. Tcpdirect.Conn is
-- `TcpdirectTcpConnection`, Tcpdirect.Client `TcpdirectTcpClient` with `connect`, whose wait for the
-- end of the handshake recurs on the states that it sees, and Tcpdirect.Server `TcpdirectTcpServer`.
-- Whether a zocket is established is an argument wherever the code asks; zockets that are freed are
-- logged, and a call with a null zocket is counted.
--
-- efvitcp/Core.h is the shared part of the TCP stack. Efvitcp.Csum is `CSum` and the checksums of
-- `setOptDataLen`; Efvitcp.Wheel the timer wheel, `addTimer` and `pollTime`, with a slot's ring as
-- the list of its nodes; Efvitcp.Table the connection table, `findConnEntry`, `addConnEntry` and
-- `delConnEntry`, whose loops recur on `TotalTableSize` steps, enough as long as an empty entry
-- stands behind the place where they begin.
--
-- Efvitcp.Core is the class that has them: the identifiers of connections and of places in TIME_WAIT
-- with `addConnEntry`, `delConnEntry`, `enterTW` and the growth of the table, whose loops recur on
-- `TotalTableSize` steps too. Efvitcp.Core.Replies has the frames that it sends by itself, `rspRst`
-- and `ackTW`; Efvitcp.Core.Poll `pollNet`, on the events that were polled, and `pollTime`, whose loop
-- recurs on the number of timers that went off. What its user keeps is a parameter of the polls, and
-- so are the functions that the user hands over. Efvitcp.Filter is `delFilter`, `setClientFilter` and
-- `setServerFilter`, on the filters that are in place, that of `filter_cookie` and others, and on what
-- the system and the adapter return in each round.
--
-- efvitcp/TcpConn.h is one connection, Efvitcp.Conn. Its state is cut into `Snd`, the ring of send
-- buffers, `Rcv`, the receive buffer with its segments (those of Segs), `Cong`, the congestion
-- control, and the rest; a pointer to a buffer is its index. Bufs has the buffers and `sendBuf`, Copy
-- `copyAndSum`, Send what the user calls (`send`, `sendv`, `sendFin`, `close`) with `sendAck` and
-- `onClose`, Setup `reset` and `sendSyn`, Syn `onSyn` and `onEstablished`. `onPack` is cut where its
-- comments cut it: Pack has the checks and the order of the steps, Ack the acknowledgement with
-- `resendUna`, the congestion control and the loop that sends what waits, Text the reassembly. Pack
-- has `onTimer` too. Frames that are sent, calls that end the entry in the table and events are logged
-- in `effects`; the handler is a record of functions on the connection. The constants of `Conf` are
-- parameters. `sendPartial` recurs on the size of the data, since each round takes a byte at least;
-- the loop over the buffers in flight on their number, the one that sends what waits on the number of
-- those that wait and one more, `copyAndSum` on the size, the options on their length, the search for
-- a free buffer on the number of buffers, and the search for the cubic root on 8, as 7 halvings
-- exhaust 124.
--
-- efvitcp/TcpClient.h and efvitcp/TcpServer.h put connections over a core, Efvitcp.Stack: a method of
-- a connection is called on it, and its effects are then done on the core in their order. Client has
-- `connect`, `close`, the end of `getDestMac` and what `poll` does with a frame, Server `listen`,
-- `close`, `foreachConn` and the same; Frames gives these to `pollNet`. A client's one connection has
-- the identifier 0.
--
-- Efvi.h is UDP and Ethernet on Solarflare's ef_vi, Efvi. Efvi.Receiver has `read`, `readNoCheck` and
-- `recvfrom` of `EfviUdpReceiver` and `read` of `EfviEthReceiver`, on the event that was polled, with
-- the packet that the handler is called with, the result, and the log of the buffers that are given
-- back; Efvi.Sender has `EfviUdpSender`, its headers and `write`, with the log of the frames.
--
-- Base holds what the modules share: tests of numbers, lists measured by native numbers, buffers as
-- functions from offsets to bytes, and 32-bit arithmetic.
--
-- Not modelled: the text of `strerror` (an error keeps its number), the user's data in a connection,
-- `getPeername` and `getLocalPort`, which only ask the operating system; of Efvi.h the adapter's
-- set-up in the `init` functions, `close`, and the search for a MAC address; of efvitcp/Core.h the
-- adapter's set-up, the clock, and the debug output; that a connection's timers stand in the wheel,
-- since the model of a connection has what they are linked for; efvitcp/EfviTcp.h, which wraps the
-- client and the server; and the programs under example.
pub mod Base
pub mod Wire
pub mod Segs
pub mod Stream
pub mod Socket
pub mod Tcpdirect
pub mod Efvitcp
pub mod Efvi
