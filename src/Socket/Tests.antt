-- ===== src/Socket/Tests.antt =====
-- Connections, clients and servers at concrete calls, and the theorems there.
mod Pools
use Prim.Native.String.{String}
use pollnet.Base.{
  count, ℕ, zero, suc, ◌+◌, ◌-◌, ◌≤◌, ◌<◌, ◌≡◌, ◌≢◌, ◌⊎◌, refl, inl, inr, true, false, Bool, List,
  [], ◌∷◌, ◌++◌, ◌||◌, Option, none, some, length, drop, take, min, arith, if◌then◌else◌, ◌==◌, not,
  ◌&&◌, leb,
}
use pollnet.Base.Buf.{of_list, bytes, memcpy}
use pollnet.Socket.Os.{
  ReadResult, got, eof, would_block, read_failed, SendResult, accepts, send_again, send_failed,
  Descriptor, opened, no_descriptor,
}
use pollnet.Socket.Handle.{Handle, Opens}
use pollnet.Socket.Conn.{
  Conf, Conn, Handler, Event, is_connected, close, settle, receive, read, send_timer, recv_timer,
  poll_conn, open_conn, write, write_some, write_nonblock,
}
use pollnet.Socket.Conn.Buffer.{Keeps, IsHandler, IsValid, waiting, arrived}
use pollnet.Socket.Conn.Receive.{receive-waiting, poll_conn-IsValid}
use pollnet.Socket.Conn.Write.{Sent, write-Sent, write-true, write_nonblock_lem}
use pollnet.Socket.Conn.Poll.{Poll, polls, reports, has_data, poll_conn-reports, timeouts_apart}
use pollnet.Socket.Client.{
  Client, Calls, established, in_progress, refused, finish, begin, connect, poll,
}
use pollnet.Socket.Client.Descriptors.{IsTidyHandler, accounted, fresh, poll-accounted}
use pollnet.Socket.Client.Reports.{
  Round, rounds, IsConsistent, stands, losses, due, rounds-reports, NeverAsks, attempts_apart,
}

abbrev pub conf : Conf
conf = record {
  recv_buf_size = 8;
  send_timeout_sec = 2;
  recv_timeout_sec = 5;
  conn_retry_sec = 3;
  conn_timeout_sec = 4;
  max_conns = 2;
}

-- Leaves the last byte.
abbrev pub handler : Handler
handler = record {
  on_data = λ c xs. (c, min 1 (length xs));
  on_send_timeout = λ c. c;
  on_recv_timeout = λ c. c;
  on_connected = λ c. c;
  on_disconnect = λ c. c;
}

Keeps-refl : (c : Conn) → Keeps c c
Keeps-refl c = record { head = refl; tail = refl; recvbuf = refl; expire_ts = refl; fd = inl refl }

pub handler-IsHandler : IsHandler handler
handler-IsHandler = record {
  remains = λ c xs. omega arith;
  on_data = λ c xs. Keeps-refl c;
  on_send_timeout = Keeps-refl;
  on_recv_timeout = Keeps-refl;
  on_connected = Keeps-refl;
  on_disconnect = Keeps-refl;
}

pub handler-IsTidyHandler : IsTidyHandler handler
handler-IsTidyHandler = record {
  on_data = λ x c xs. refl;
  on_send_timeout = λ x c. refl;
  on_recv_timeout = λ x c. refl;
  on_connected = λ x c. refl;
  on_disconnect = λ x c. (refl, λ e. e);
}

-- A connection that waits with the bytes 7 and 8.
abbrev pub open_two : Conn
open_two = record {
  fd = some 4;
  send_ts = 10;
  expire_ts = 15;
  head = 1;
  tail = 3;
  recvbuf = of_list (6 ∷ 7 ∷ 8 ∷ []);
  last_error = record { reason = ""; errno = none };
  closed = [];
  sent = [];
}

abbrev pub never_open : Conn
never_open = record open_two { fd = none; head = 0; tail = 0 }

open_two-IsValid : IsValid conf open_two
open_two-IsValid = record { order = omega arith; inside = omega arith; room = λ e. omega arith }

poll_conn-IsValid_example :
    IsValid conf (poll_conn conf handler 12 (got (1 ∷ 2 ∷ 3 ∷ [])) open_two).0
poll_conn-IsValid_example =
    poll_conn-IsValid conf handler handler-IsHandler (omega arith) 12 (got (1 ∷ 2 ∷ 3 ∷ []))
      open_two open_two-IsValid (omega arith, omega arith)

receive-waiting_example :
    ((receive conf handler (1 ∷ 2 ∷ []) open_two).1 ≡ waiting open_two ++ 1 ∷ 2 ∷ [])
    × (waiting (receive conf handler (1 ∷ 2 ∷ []) open_two).0
        ≡ drop
            (length (receive conf handler (1 ∷ 2 ∷ []) open_two).1
              - (handler.on_data
                  (arrived (1 ∷ 2 ∷ []) open_two)
                  (receive conf handler (1 ∷ 2 ∷ []) open_two).1).1)
            (receive conf handler (1 ∷ 2 ∷ []) open_two).1)
receive-waiting_example =
    receive-waiting conf handler handler-IsHandler (omega arith) (1 ∷ 2 ∷ []) open_two
      open_two-IsValid

-- The handler is passed 7, 8, 1 and 2, and leaves 2.
receive_run :
    let (c, passed) = receive conf handler (1 ∷ 2 ∷ []) open_two in
    (passed ≡ 7 ∷ 8 ∷ 1 ∷ 2 ∷ []) × (waiting c ≡ 2 ∷ []) × (c.head ≡ 0) × (c.tail ≡ 1)
unfolding receive settle bytes memcpy
receive_run = (refl, refl, refl, refl)

abbrev accepted : List SendResult
accepted = accepts 2 ∷ send_again ∷ accepts 1 ∷ accepts 0 ∷ accepts 5 ∷ []

write-Sent_example :
    let o = write conf 11 accepted (1 ∷ 2 ∷ 3 ∷ []) open_two in
    (o.1 ≢ none) × ((n : ℕ) × Sent open_two (1 ∷ 2 ∷ 3 ∷ []) o n)
write-Sent_example =
    write-Sent conf 11 accepted (1 ∷ 2 ∷ 3 ∷ []) open_two (omega arith) (omega arith)
