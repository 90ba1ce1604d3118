-- ===== src/Socket/Conn/Receive.antt =====
-- `read` and `pollConn` of `SocketTcpConnection`: the buffer's bounds, and what is passed on.
use pollnet.Base.{ℕ, ◌-◌, ◌≤◌, ◌≡◌, subst, sym, Bool, List, ◌++◌, none, some, length, drop, arith}
use pollnet.Base.Buf.{shift, length-bytes}
use pollnet.Socket.Os.{ReadResult, got, eof, would_block, read_failed}
use pollnet.Socket.Conn.{Conf, Conn, Handler, receive, read, send_timer, recv_timer, poll_conn}
use pollnet.Socket.Conn.Buffer.{
  Keeps, IsHandler, IsValid, ArrivesAt, Arrives, waiting, arrived, close-IsValid, settle-IsValid,
  arrived-waiting, left-waiting,
}

module _ (conf : Conf) (handler : Handler) (h : IsHandler handler)
    (size : 2 ≤ conf.recv_buf_size) where
  receive-IsValid :
      (xs : List ℕ) (c : Conn)
      → IsValid conf c
      → length xs ≤ conf.recv_buf_size - c.tail
      → IsValid conf (receive conf handler xs c).0
  unfolding receive
  receive-IsValid xs c v a =
      let k = h.on_data (arrived xs c) (waiting (arrived xs c)) in
      settle-IsValid conf (handler.on_data (arrived xs c) (waiting (arrived xs c))).1
        (handler.on_data (arrived xs c) (waiting (arrived xs c))).0 size (ground (arith, k, v))
        (ground (arith, k, v))
        (ground (
          arith,
          k,
          v,
          h.remains (arrived xs c) (waiting (arrived xs c)),
          length-bytes (shift (arrived xs c).recvbuf c.head) ((arrived xs c).tail - c.head),
        ))

  -- What waits, with what arrived behind it, is passed to the handler; what it leaves, the last
  -- bytes of that, waits for the next call.
  pub receive-waiting :
      (xs : List ℕ) (c : Conn)
      → IsValid conf c
      → let (c', passed) = receive conf handler xs c in
        let remaining = (handler.on_data (arrived xs c) passed).1 in
        (passed ≡ waiting c ++ xs) × (waiting c' ≡ drop (length passed - remaining) passed)
  unfolding receive
  receive-waiting xs c v = (
    arrived-waiting xs c v.order,
    left-waiting conf (handler.on_data (arrived xs c) (waiting (arrived xs c))).1 (arrived xs c)
        (handler.on_data (arrived xs c) (waiting (arrived xs c))).0
        (h.on_data (arrived xs c) (waiting (arrived xs c))) (ground (arith, v))
        (h.remains (arrived xs c) (waiting (arrived xs c))),
  )

  read-IsValid :
      (r : ReadResult) (c : Conn)
      → IsValid conf c
      → Arrives conf c r
      → IsValid conf (read conf handler r c).0
  unfolding read
  read-IsValid (got xs) c v a = receive-IsValid xs c v a.1
  read-IsValid eof c v a = close-IsValid conf "remote close" none c v.order v.inside
  read-IsValid would_block c v a = v
  read-IsValid (read_failed e) c v a = close-IsValid conf "read error" (some e) c v.order v.inside

  Keeps-IsValid : (c c' : Conn) → Keeps c c' → IsValid conf c → IsValid conf c'
  Keeps-IsValid c c' k v = ground (arith, k, v)

  send_timer-IsValid :
      (now : ℕ) (c : Conn) → IsValid conf c → IsValid conf (send_timer conf handler now c).0
  unfolding send_timer
  send_timer-IsValid now c v =
      ground (arith, Keeps-IsValid c (handler.on_send_timeout c) (h.on_send_timeout c) v)

  send_timer-Keeps : (now : ℕ) (c : Conn) → Keeps c (send_timer conf handler now c).0
  unfolding send_timer
  send_timer-Keeps now c = ground (arith, h.on_send_timeout c)

  recv_timer-IsValid :
      (now : ℕ) (got_data : Bool) (c : Conn)
      → IsValid conf c
      → IsValid conf (recv_timer conf handler now got_data c).0
  unfolding recv_timer
  recv_timer-IsValid now got_data c v =
      ground (arith, Keeps-IsValid c (handler.on_recv_timeout c) (h.on_recv_timeout c) v)

  -- One round of `pollConn` keeps the buffer's bounds, and its room for the next `::read` as long
  -- as the connection is open.
  pub poll_conn-IsValid :
      (now : ℕ) (r : ReadResult) (c : Conn)
      → IsValid conf c
      → Arrives conf c r
      → IsValid conf (poll_conn conf handler now r c).0
  unfolding poll_conn
  poll_conn-IsValid now r c v a =
      let c1 = (send_timer conf handler now c).0 in
      let k = send_timer-Keeps now c in
      recv_timer-IsValid now _ _ (
        read-IsValid r c1 (send_timer-IsValid now c v)
          (subst (λ t. ArrivesAt conf t r) (sym k.tail) a))
