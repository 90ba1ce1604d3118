-- ===== src/Tcpdirect/Tests.antt =====
-- Tcpdirect.h at concrete values, and the theorems there.
use pollnet.Base.{
  ℕ, ◌+◌, ◌-◌, ◌/◌, ◌<◌, ◌≡◌, ◌==◌, refl, true, false, none, some, [], ◌∷◌, ◌++◌, length, drop,
  arith, if◌then◌else◌,
}
use pollnet.Socket.Os.{opened}
use pollnet.Socket.Handle.{held}
use pollnet.Socket.Conn.{Conf}
use pollnet.Tcpdirect.Conn.{Conn, Handler, nothing, waiting, is_connected, receive, poll_conn}
use pollnet.Tcpdirect.Client.{Client, Calls, syn_sent, established, poll}
use pollnet.Tcpdirect.Zockets.{owned, IsTidyHandler, fresh, lost, poll-owned}
use pollnet.Tcpdirect.Buffer.{IsHandler, IsValid, passing, receive-passing}
use pollnet.Tcpdirect.Server as Server
use pollnet.Tcpdirect.Pool.{IsPool, poll-AllUp}

abbrev conf : Conf
conf = record {
  recv_buf_size = 8;
  send_timeout_sec = 5;
  recv_timeout_sec = 5;
  conn_retry_sec = 3;
  conn_timeout_sec = 0;
  max_conns = 2;
}

-- A handler that leaves the second half of what it is passed, and keeps the connection.
abbrev handler : Handler
handler = record {
  on_data = λ c xs. (c, length xs / 2);
  on_send_timeout = λ c. c;
  on_recv_timeout = λ c. c;
  on_connected = λ c. c;
  on_disconnect = λ c. c;
}

handler-IsTidyHandler : IsTidyHandler handler
handler-IsTidyHandler = record {
  on_data = λ x c xs. refl;
  on_send_timeout = λ x c. refl;
  on_recv_timeout = λ x c. refl;
  on_connected = λ x c. refl;
  on_disconnect = λ x c. refl;
}

handler-IsHandler : IsHandler handler
handler-IsHandler = record {
  remains = λ c xs. omega arith;
  on_data = λ c xs. record { head = refl; tail = refl; recvbuf = refl };
}

-- A connection whose zocket is 4, with two bytes that wait.
abbrev two_wait : Conn
two_wait = record {
  zock = some 4;
  send_ts = 10;
  expire_ts = 15;
  head = 1;
  tail = 3;
  recvbuf = λ i. 100 + i;
  last_error = record { reason = ""; errno = none };
  freed = [];
  done = [];
  sent = [];
  null_calls = 0;
}

two_wait-IsValid : IsValid conf two_wait
two_wait-IsValid = record {
  order = omega arith;
  inside = omega arith;
  begins = λ e. absurd (omega (arith, e));
}

receive-passing_example :
    let (c', passed) = receive conf handler (7 ∷ 8 ∷ 9 ∷ []) two_wait in
    let (called, given) = passing (7 ∷ 8 ∷ 9 ∷ []) two_wait in
    let remaining = (handler.on_data called given).1 in
    (passed ≡ waiting two_wait ++ 7 ∷ 8 ∷ 9 ∷ [])
    × (waiting c' ≡ drop (length passed - remaining) passed)
    × IsValid conf c'
receive-passing_example =
    receive-passing conf handler handler-IsHandler (7 ∷ 8 ∷ 9 ∷ []) two_wait two_wait-IsValid
      (omega arith)

-- The zocket 4 is not established any more, and `zft_connect` gives 5.
abbrev client : Client
client = record {
  conn = two_wait;
  stack = some 1;
  attr = some 2;
  next_conn_ts = 0;
  server_ip = 0;
  server_port_be = 0;
  local_port_be = 0;
  handles_freed = [];
  attrs_freed = [];
}

abbrev calls : Calls
calls = record {
  alloc = opened 3;
  bind = none;
  connect = opened 5;
  states = syn_sent ∷ established ∷ [];
  time = 20;
}

poll-owned_example :
    let s' = (poll conf handler 20 calls nothing false true client).0 in
    let z = fresh 20 calls false client in
    owned 4 s'.conn + lost 4 z client.conn.zock ≡ owned 4 client.conn + held 4 z
poll-owned_example =
    poll-owned conf handler handler-IsTidyHandler 4 20 calls nothing false true client

-- It is neither held nor freed then.
lost_zocket :
    let c = (poll conf handler 20 calls nothing false true client).0.conn in
    (c.zock ≡ some 5) × (c.freed ≡ [])
unfolding poll
lost_zocket = (refl, refl)

-- A handler that closes a connection which has been silent.
abbrev impatient : Handler
impatient = record handler { on_send_timeout = λ c. record c { zock = none; freed = 4 ∷ c.freed } }

null_zocket : (poll_conn conf impatient 20 nothing two_wait).0.null_calls ≡ 1
unfolding poll_conn
null_zocket = refl

abbrev server : Server.Server
server = record {
  stack = some 1;
  listener = some 2;
  conns_cnt = 1;
  conns = λ i. i;
  conns_data = λ i. if i == 0 then two_wait else record two_wait { zock = none };
  last_error = record { reason = ""; errno = none };
  listeners_freed = [];
  stacks_freed = [];
  attrs_freed = [];
}

server-IsPool : IsPool conf server
server-IsPool = record { bound = omega arith; index = λ j l. l; apart = λ i j l m e. e }

-- A connection is accepted, and the first one is lost.
abbrev server_calls : Server.Calls
server_calls = record { accept = some 6; recv = λ i. nothing; up = λ i. i == 1 }

poll-AllUp_example :
    let s' = (Server.poll conf handler 20 server_calls server).0 in
    IsPool conf s'
    × ((j : ℕ)
        → j < s'.conns_cnt
        → is_connected (s'.conns j == 1) (s'.conns_data (s'.conns j)) ≡ true)
poll-AllUp_example = poll-AllUp conf handler 20 server_calls server server-IsPool
