-- ===== src/Socket/Tests/Pools.antt =====
-- Runs of clients and servers, of the `init`s, and the theorems there.
use pollnet.Base.{
  ℕ, count, ◌+◌, ◌≡◌, ◌<◌, refl, true, false, List, [], ◌∷◌, none, some, arith, if◌then◌else◌, ◌==◌,
}
use pollnet.Base.Buf.{bytes, memcpy}
use pollnet.Socket.Os.{got, eof, would_block, opened, no_descriptor}
use pollnet.Socket.Handle.{
  Handle, Opens, listening, bound, reuses_addr, nonblocking, multicast_ttl, connected,
}
use pollnet.Socket.Conn.{
  is_connected, close, settle, receive, read, send_timer, recv_timer, poll_conn, open_conn,
}
use pollnet.Socket.Client.{Client, Calls, established, refused, poll}
use pollnet.Socket.Client.Descriptors.{accounted, fresh, poll-accounted}
use pollnet.Socket.Client.Reports.{Round, rounds, IsConsistent, stands, losses, due, rounds-reports}
use pollnet.Socket.Server.{Server, foreach_conn}
use pollnet.Socket.Server as Server
use pollnet.Socket.Server.Pool.{IsPool, poll-open}
use pollnet.Socket.Server.Counts.{gains}
use pollnet.Socket.Server.Census.{poll-census}
use pollnet.Socket.Server.Counts as Counts
use pollnet.Socket.Server.Listen.{ListenCalls, listen_error, listener, listen-Opens}
use pollnet.Socket.Datagram.{
  ReceiverCalls, SenderCalls, EthCalls, receiver_error, receiver_settings, sender_error, eth_error,
  eth_settings, receiver_init, sender_init, eth_init, datagram-Opens,
}
use pollnet.Socket.Tests.{
  conf, handler, open_two, never_open, handler-IsHandler, handler-IsTidyHandler,
}

abbrev client : Client
client = record {
  conn = never_open;
  report_disconnect = false;
  conn_fd = none;
  next_conn_ts = 0;
  conn_expire_ts = 0;
  server_ip = 1;
  server_port_be = 2;
  local_port_be = 0;
}

-- The descriptor 5 connects at once.
abbrev at_once : Calls
at_once = record {
  socket = opened 5;
  bind = none;
  nonblock = none;
  connect = established;
  open_nonblock = none;
  open_nodelay = none;
}

-- `::connect` fails.
abbrev no_server : Calls
no_server = record at_once { connect = refused 111 }

poll-accounted_example :
    accounted 5 (poll conf handler 20 no_server eof client).0
    ≡ accounted 5 client + (if is_connected never_open then 0 else fresh 5 20 no_server client)
poll-accounted_example = poll-accounted conf handler handler-IsTidyHandler 5 20 no_server eof client

-- The client connects, gets data, and loses the connection.
abbrev runs : List Round
runs =
    (20, no_server, would_block)
    ∷ (21, at_once, would_block)
    ∷ (24, at_once, got (1 ∷ []))
    ∷ (25, at_once, eof)
    ∷ []

rounds-reports_example :
    IsConsistent (rounds conf handler runs client).0
    × (stands (rounds conf handler runs client).1 + due client
        ≡ losses (rounds conf handler runs client).1 + due (rounds conf handler runs client).0)
rounds-reports_example =
    rounds-reports conf handler handler-IsHandler runs client (λ e. absurd (e refl))

-- A server with one connection, that of index 1, in use.
abbrev server : Server
server = record {
  listenfd = some 3;
  conns_cnt = 1;
  conns = λ i. if i == 0 then 1 else 0;
  conns_data = λ i. if i == 1 then open_two else never_open;
  last_error = record { reason = ""; errno = none };
  closed = [];
  settings = listening ∷ bound ∷ reuses_addr ∷ nonblocking ∷ [];
}

server-IsPool : IsPool conf server
server-IsPool = record {
  bound = omega arith;
  index = λ j l. ground arith;
  apart = λ i j a b e. ground arith;
  idle = λ j a l. ground arith;
}

-- A second connection is accepted, and the first one is closed by its peer.
abbrev calls : Server.Calls
calls = record {
  accept = some 6;
  open_nonblock = none;
  open_nodelay = none;
  read = λ id. if id == 1 then eof else got (1 ∷ []);
}

-- The connection of index 0 is in use then, and that of index 1 is not.
server_run :
    let (s', log) = Server.poll conf handler 12 calls server in
    (foreach_conn s' ≡ 0 ∷ []) × (gains 0 log ≡ 1) × (Counts.losses 1 log ≡ 1)
unfolding Server.poll Server.accept_conn Server.serve Server.keep_conn Server.drop_conn foreach_conn
    Server.each_conn is_connected open_conn poll_conn send_timer read receive settle recv_timer
    close bytes memcpy
server_run = (refl, refl, refl)

poll-open_example :
    let s' = (Server.poll conf handler 12 calls server).0 in
    IsPool conf s' × ((j : ℕ) → j < s'.conns_cnt → is_connected (s'.conns_data (s'.conns j)) ≡ true)
poll-open_example = poll-open conf handler handler-IsHandler 12 calls server server-IsPool

poll-census_example :
    let (s', log) = Server.poll conf handler 12 calls server in
    count 1 (foreach_conn server) + gains 1 log ≡ count 1 (foreach_conn s') + Counts.losses 1 log
poll-census_example = poll-census conf handler 12 calls 1 server

-- `bind` fails.
abbrev port_in_use : ListenCalls
port_in_use = record {
  socket = opened 9;
  nonblock = none;
  reuse_addr = none;
  bind = some 98;
  listen = none;
}

abbrev idle : Server
idle = record server { listenfd = none; conns_cnt = 0; conns_data = λ i. never_open }

listen-Opens_example :
    let (s', ok) = Server.Listen.init conf port_in_use idle in
    Opens
      (opened 9)
      (listen_error port_in_use)
      (listening ∷ bound ∷ reuses_addr ∷ nonblocking ∷ [])
      (listener idle)
      (listener s')
      ok
    × IsPool conf s'
    × (s'.conns_cnt ≡ 0)
listen-Opens_example = listen-Opens conf port_in_use idle refl refl (λ j l. refl)

abbrev no_handle : Handle
no_handle = record {
  fd = none;
  last_error = record { reason = ""; errno = none };
  closed = [];
  settings = [];
}

abbrev receiver : ReceiverCalls
receiver = record {
  socket = opened 7;
  nonblock = none;
  reuse_addr = none;
  bind = none;
  add_membership = some 19;
}

abbrev sender : SenderCalls
sender = record {
  socket = opened 8;
  nonblock = none;
  bind = none;
  connect = none;
  multicast_ttl = none;
}

abbrev eth : EthCalls
eth = record { socket = no_descriptor 1; nonblock = none; bind = none; add_membership = none }

datagram-Opens_example :
    let (h1, ok1) = receiver_init receiver (49 ∷ []) no_handle in
    let (h2, ok2) = sender_init sender no_handle in
    let (h3, ok3) = eth_init eth true no_handle in
    Opens
      (opened 7)
      (receiver_error receiver (49 ∷ []))
      (receiver_settings (49 ∷ []))
      no_handle
      h1
      ok1
    × Opens
        (opened 8)
        (sender_error sender)
        (multicast_ttl ∷ connected ∷ bound ∷ nonblocking ∷ [])
        no_handle
        h2
        ok2
    × Opens (no_descriptor 1) (eth_error eth true) (eth_settings true) no_handle h3 ok3
datagram-Opens_example = datagram-Opens receiver sender eth (49 ∷ []) true no_handle refl
