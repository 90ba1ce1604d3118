-- ===== src/Tcpdirect/Conn.antt =====
-- `TcpdirectTcpConnection` of Tcpdirect.h. What the calls of TCPDirect return is an argument.
use Prim.Native.String.{String}
use pollnet.Base.{
  ℕ, suc, ◌+◌, ◌-◌, ◌/◌, Bool, true, false, not, ◌&&◌, ◌||◌, Option, none, some, List, [], ◌∷◌,
  ◌++◌, length, take, drop, min, ltb, leb, ◌==◌, if◌then◌else◌,
}
use pollnet.Base.Buf.{Buf, memcpy, shift, bytes, of_list}
use pollnet.Socket.Os.{SendResult, accepts, send_again, send_failed, LastError}
use pollnet.Socket.Conn.{Conf, Event, send_timeout, recv_timeout, received}

-- The members. `zock` is `none` for a null pointer. `freed` lists the zockets that were given to
-- `zft_free`, `done` those of the calls of `zft_zc_recv_done`, and `sent` the bytes that
-- `zft_send_single` has accepted; `null_calls` counts the calls of `zft_zc_recv` without a zocket.
pub record Conn : Type 0 where
  pub zock : Option ℕ
  pub send_ts : ℕ
  pub expire_ts : ℕ
  pub head : ℕ
  pub tail : ℕ
  pub recvbuf : Buf
  pub last_error : LastError
  pub freed : List ℕ
  pub done : List ℕ
  pub sent : List ℕ
  pub null_calls : ℕ

-- `saveError`, with the code if it is negative.
abbrev pub save_error : String → Option ℕ → Conn → Conn
save_error msg rc c = record c { last_error = record { reason = msg; errno = rc } }

-- `isConnected`, where the zocket's state is established or not.
unfoldable pub is_connected : Bool → Conn → Bool
is_connected established c = elim c.zock as (λ o. Bool) [ none ↦ false | some z ↦ established ]

unfoldable pub close : String → Conn → Conn
close reason c = elim c.zock as (λ o. Conn) [
  | none ↦ c
  | some z ↦ record (save_error reason none c) { zock = none; freed = z ∷ c.freed }
]

-- `zft_zc_recv_done(zock_, zm)`
unfoldable pub recv_done : Conn → Conn
recv_done c = elim c.zock as (λ o. Conn) [ none ↦ c | some z ↦ record c { done = z ∷ c.done } ]

module _ (conf : Conf) where
  -- `open`, with a zocket.
  unfoldable pub open_conn : ℕ → ℕ → Conn → Conn
  open_conn now z c = record c {
    zock = some z;
    head = 0;
    tail = 0;
    send_ts = now;
    expire_ts = now + conf.recv_timeout_sec;
  }

  abbrev stamp : ℕ → Conn → Conn
  stamp time c = if conf.send_timeout_sec == 0 then c else record c { send_ts = time }

  -- The bytes accepted, or `none` for a negative result.
  unfoldable pub write_some : ℕ → SendResult → List ℕ → Conn → Conn × Option ℕ
  write_some time (accepts n) xs c =
      let m = min n (length xs) in (stamp time (record c { sent = c.sent ++ take m xs }), some m)
  write_some time send_again xs c = (stamp time c, some 0)
  write_some time (send_failed e) xs c =
      (stamp time (save_error "zft_send_single error" (some e) c), none)

  -- `write`, on what `zft_send_single` returns from call to call; `none` if that ends before the loop.
  unfoldable pub write : ℕ → List SendResult → List ℕ → Conn → Conn × Option Bool
  unfolding write_some
  write time [] xs c = (c, none)
  write time (r ∷ rs) xs c =
      let (c', result) = write_some time r xs c in
      elim result as (λ o. Conn × Option Bool) [
        | none ↦ (c', some false)
        | some n ↦ elim (length xs - n == 0) as (λ b. Conn × Option Bool) [
          | true ↦ (c', some true)
          | false ↦ write time rs (drop n xs) c'
        ]
      ]

  unfoldable pub write_nonblock : ℕ → SendResult → List ℕ → Conn → Conn × Bool
  unfolding write_some close
  write_nonblock time r xs c =
      let (c', result) = write_some time r xs c in
      elim result as (λ o. Conn × Bool) [
        | none ↦ (close "zft_send_single failed" c', false)
        | some n ↦ if n == length xs then (c', true) else (close "zft_send_single failed" c', false)
      ]

  -- After the handler has left `remaining` bytes of the data that came with nothing before it.
  unfoldable pub keep : List ℕ → ℕ → Conn → Conn
  keep xs remaining c = if remaining == 0 then c else record c {
    recvbuf = memcpy c.recvbuf 0 (of_list (drop (length xs - remaining) xs)) remaining;
    tail = remaining;
  }

  -- The same for the bytes in the buffer.
  unfoldable pub settle : ℕ → Conn → Conn
  settle remaining c =
      let head = c.tail - remaining in
      if remaining == 0
      then record c { head = 0; tail = 0 }
      else if leb (conf.recv_buf_size / 2) head
      then record c {
        recvbuf = memcpy c.recvbuf 0 (shift c.recvbuf head) remaining;
        head = 0;
        tail = remaining;
      }
      else record c { head = head }

-- The user's handler. `on_data` also gives the number of bytes that it leaves.
pub record Handler : Type 0 where
  pub on_data : Conn → List ℕ → Conn × ℕ
  pub on_send_timeout : Conn → Conn
  pub on_recv_timeout : Conn → Conn
  pub on_connected : Conn → Conn
  pub on_disconnect : Conn → Conn

-- `zft_zc_recv`: nothing, or a segment, which is empty at the end of the stream.
pub data Received : Type 0 where
  nothing : Received
  segment : List ℕ → Received

-- The data behind what waits.
abbrev pub append : List ℕ → Conn → Conn
append xs c = record c {
  recvbuf = memcpy c.recvbuf c.tail (of_list xs) (length xs);
  tail = c.tail + length xs;
}

abbrev pub waiting : Conn → List ℕ
waiting c = bytes (shift c.recvbuf c.head) (c.tail - c.head)

module _ (conf : Conf) (handler : Handler) where
  -- A segment that fits goes to the handler, behind what waits.
  unfoldable pub receive : List ℕ → Conn → Conn × List ℕ
  unfolding keep settle recv_done
  receive xs c =
      let direct = handler.on_data c xs in
      let passed = waiting (append xs c) in
      let buffered = handler.on_data (append xs c) passed in
      if c.tail == 0
      then (recv_done (keep conf xs direct.1 direct.0), xs)
      else (recv_done (settle conf buffered.1 buffered.0), passed)

  unfoldable pub read : Received → Conn → Conn × List Event × Bool
  unfolding receive recv_done close
  read nothing c = (c, [], false)
  read (segment xs) c =
      let (c', passed) = receive xs c in
      if length xs == 0
      then (close "remote close" (recv_done c), [], false)
      else if ltb conf.recv_buf_size (length xs + c.tail)
      then (close "recv buf full" (recv_done c), [], false)
      else (c', received passed ∷ [], true)

  -- `read` on `zock_`: without a zocket it hands a null pointer to `zft_zc_recv`.
  unfoldable pub read_zock : Option ℕ → Received → Conn → Conn × List Event × Bool
  unfolding read
  read_zock none r c = (record c { null_calls = suc c.null_calls }, [], false)
  read_zock (some z) r c = read r c

  unfoldable pub send_timer : ℕ → Conn → Conn × List Event
  send_timer now c =
      if not (conf.send_timeout_sec == 0) && leb (c.send_ts + conf.send_timeout_sec) now
      then (record (handler.on_send_timeout c) { send_ts = now }, send_timeout ∷ [])
      else (c, [])

  unfoldable pub recv_timer : ℕ → Bool → Conn → Conn × List Event
  recv_timer now got_data c =
      let late = not got_data && leb c.expire_ts now in
      let c' = if late then handler.on_recv_timeout c else c in
      if conf.recv_timeout_sec == 0 then (c, []) else (
        if got_data || late then record c' { expire_ts = now + conf.recv_timeout_sec } else c',
        if late then recv_timeout ∷ [] else [],
      )

  unfoldable pub poll_conn : ℕ → Received → Conn → Conn × List Event
  unfolding send_timer read_zock recv_timer
  poll_conn now r c =
      let (c1, late_send) = send_timer now c in
      let (c2, data_in, got_data) = read_zock c1.zock r c1 in
      let (c3, late) = recv_timer now got_data c2 in (c3, late_send ++ data_in ++ late)
