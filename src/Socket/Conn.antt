-- ===== src/Socket/Conn.antt =====
-- `SocketTcpConnection` of Socket.h: one connection, its receive buffer and its timers. A method
-- returns the new state; the user's callbacks are functions that may change the connection.
pub mod Buffer
pub mod Receive
pub mod Write
pub mod Poll
use Prim.Native.String.{String}
use pollnet.Base.{
  ℕ, suc, ◌+◌, ◌-◌, ◌/◌, Bool, true, false, not, ◌&&◌, ◌||◌, Option, none, some, List, [], ◌∷◌,
  ◌++◌, length, take, drop, min, ltb, leb, ◌==◌, if◌then◌else◌,
}
use pollnet.Base.Buf.{Buf, memcpy, shift, bytes, of_list}
use pollnet.Socket.Os.{
  ReadResult, got, eof, would_block, read_failed, SendResult, accepts, send_again, send_failed,
  LastError,
}

-- The parameters of the template: `Conf`. A time of 0 seconds turns a timer off.
pub record Conf : Type 0 where
  pub recv_buf_size : ℕ
  pub send_timeout_sec : ℕ
  pub recv_timeout_sec : ℕ
  pub conn_retry_sec : ℕ
  pub conn_timeout_sec : ℕ
  pub max_conns : ℕ

-- The members. `fd` is `none` for -1. `closed` lists the descriptors that were given to `::close`,
-- and `sent` the bytes that `::send` has accepted.
pub record Conn : Type 0 where
  pub fd : Option ℕ
  pub send_ts : ℕ
  pub expire_ts : ℕ
  pub head : ℕ
  pub tail : ℕ
  pub recvbuf : Buf
  pub last_error : LastError
  pub closed : List ℕ
  pub sent : List ℕ

unfoldable pub is_connected : Conn → Bool
is_connected c = elim c.fd [ none ↦ false | some _ ↦ true ]

-- `close(reason, check_errno)`: the errno is given where it is asked for.
unfoldable pub close : String → Option ℕ → Conn → Conn
close reason errno c = elim c.fd [
  | none ↦ c
  | some fd ↦ record c {
    fd = none;
    last_error = record { reason = reason; errno = errno };
    closed = fd ∷ c.closed;
  }
]

module _ (conf : Conf) where
  -- `if (Conf::SendTimeoutSec) send_ts_ = time(0)`
  abbrev stamp : ℕ → Conn → Conn
  stamp time c = if conf.send_timeout_sec == 0 then c else record c { send_ts = time }

  -- The bytes accepted, or `none` for -1. `time` is the time at the call.
  unfoldable pub write_some : ℕ → SendResult → List ℕ → Conn → Conn × Option ℕ
  unfolding close
  write_some time (accepts n) xs c =
      let m = min n (length xs) in (stamp time (record c { sent = c.sent ++ take m xs }), some m)
  write_some time send_again xs c = (stamp time c, some 0)
  write_some time (send_failed e) xs c = (stamp time (close "send error" (some e) c), none)

  -- `write`: the loop runs once at least, and again while bytes are left. The list holds what
  -- `::send` returns from call to call; `none` if the list ends before the loop.
  unfoldable pub write : ℕ → List SendResult → List ℕ → Conn → Conn × Option Bool
  write time [] xs c = (c, none)
  write time (r ∷ rs) xs c =
      let (c', result) = write_some time r xs c in
      elim result [
        | none ↦ (c', some false)
        | some n ↦ elim (length xs - n == 0) [
          | true ↦ (c', some true)
          | false ↦ write time rs (drop n xs) c'
        ]
      ]

  -- `writeNonblock`: what is not accepted at once closes the connection, with what `errno` holds then.
  unfoldable pub write_nonblock : ℕ → ℕ → SendResult → List ℕ → Conn → Conn × Bool
  unfolding close
  write_nonblock time errno r xs c =
      let (c', result) = write_some time r xs c in
      elim result [
        | none ↦ (close "send error" (some errno) c', false)
        | some n ↦
            if n == length xs then (c', true) else (close "send error" (some errno) c', false)
      ]

  -- `open`: a new descriptor, made non-blocking and without delay. Each call's result is `none` for
  -- success, or its errno.
  unfoldable pub open_conn : ℕ → ℕ → Option ℕ → Option ℕ → Conn → Conn × Bool
  unfolding close
  open_conn now fd nonblock nodelay c =
      let c' = record c {
        fd = some fd;
        head = 0;
        tail = 0;
        send_ts = now;
        expire_ts = now + conf.recv_timeout_sec;
      } in
      elim nonblock [
        | some e ↦ (close "fcntl O_NONBLOCK error" (some e) c', false)
        | none ↦ elim nodelay [
          | some e ↦ (close "setsockopt TCP_NODELAY error" (some e) c', false)
          | none ↦ (c', true)
        ]
      ]

-- The user's handler. `on_data` also gives the number of bytes that it leaves.
pub record Handler : Type 0 where
  pub on_data : Conn → List ℕ → Conn × ℕ
  pub on_send_timeout : Conn → Conn
  pub on_recv_timeout : Conn → Conn
  pub on_connected : Conn → Conn
  pub on_disconnect : Conn → Conn

-- The calls of a handler, as they are made.
pub data Event : Type 0 where
  connected : Event
  connect_failed : Event
  send_timeout : Event
  recv_timeout : Event
  received : List ℕ → Event
  disconnected : Event

module _ (conf : Conf) where
  -- After the handler has left `remaining` bytes: keep them, move them to the front once half of the
  -- buffer is passed on, and close the connection if they fill the buffer's rest.
  unfoldable pub settle : ℕ → Conn → Conn
  unfolding close
  settle remaining c =
      let head = c.tail - remaining in
      if remaining == 0
      then record c { head = 0; tail = 0 }
      else if leb (conf.recv_buf_size / 2) head
      then record c {
        recvbuf = memcpy c.recvbuf 0 (shift c.recvbuf head) remaining;
        head = 0;
        tail = remaining;
      }
      else if c.tail == conf.recv_buf_size
      then close "recv buf full" none (record c { head = head })
      else record c { head = head }

module _ (conf : Conf) (handler : Handler) where
  -- The data that arrived is put behind what waits, and all of it goes to the handler.
  unfoldable pub receive : List ℕ → Conn → Conn × List ℕ
  receive xs c =
      let c' = record c {
        recvbuf = memcpy c.recvbuf c.tail (of_list xs) (length xs);
        tail = c.tail + length xs;
      } in
      let passed = bytes (shift c'.recvbuf c'.head) (c'.tail - c'.head) in
      let (c'', remaining) = handler.on_data c' passed in (settle conf remaining c'', passed)

  unfoldable pub read : ReadResult → Conn → Conn × List Event × Bool
  unfolding receive settle close
  read (got xs) c = let (c', passed) = receive xs c in (c', received passed ∷ [], true)
  read eof c = (close "remote close" none c, [], false)
  read would_block c = (c, [], false)
  read (read_failed e) c = (close "read error" (some e) c, [], false)

  -- The timer of what is sent, then what has arrived, then the timer of what is received.
  unfoldable pub send_timer : ℕ → Conn → Conn × List Event
  send_timer now c =
      if not (conf.send_timeout_sec == 0) && leb (c.send_ts + conf.send_timeout_sec) now
      then (record (handler.on_send_timeout c) { send_ts = now }, send_timeout ∷ [])
      else (c, [])

  unfoldable pub recv_timer : ℕ → Bool → Conn → Conn × List Event
  recv_timer now got_data c =
      let late = not got_data && leb c.expire_ts now in
      let c' = if late then handler.on_recv_timeout c else c in
      if conf.recv_timeout_sec == 0 then (c, []) else (
        if got_data || late then record c' { expire_ts = now + conf.recv_timeout_sec } else c',
        if late then recv_timeout ∷ [] else [],
      )

  unfoldable pub poll_conn : ℕ → ReadResult → Conn → Conn × List Event
  unfolding send_timer read recv_timer
  poll_conn now result c =
      let (c1, sent) = send_timer now c in
      let (c2, data_in, got_data) = read result c1 in
      let (c3, late) = recv_timer now got_data c2 in (c3, sent ++ data_in ++ late)
