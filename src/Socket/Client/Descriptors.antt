-- ===== src/Socket/Client/Descriptors.antt =====
-- The descriptors of `SocketTcpClient`: those held, and those closed.
use pollnet.Base.{
  one, count, ℕ, ◌+◌, ◌≡◌, refl, ◌∙◌, inl, inr, false, Bool, List, arith, ltb, ◌==◌, if◌then◌else◌,
  Option-cases, Bool-cases, none, some,
}
use pollnet.Socket.Handle.{held, Descriptor-cases}
use pollnet.Socket.Os.{opened, no_descriptor, ReadResult, got, eof, would_block, read_failed}
use pollnet.Socket.Conn.Buffer.{arrived, waiting}
use pollnet.Socket.Conn.{
  Conf, Conn, Handler, is_connected, open_conn, close, settle, receive, read, send_timer,
  recv_timer, poll_conn,
}
use pollnet.Socket.Client.{Client, Calls, finish, begin, connect, never, poll}

-- How often a descriptor is accounted for: as the connection's, as the one that is being connected,
-- or as closed.
abbrev pub accounted : ℕ → Client → ℕ
accounted x s = held x s.conn.fd + held x s.conn_fd + count x s.conn.closed

-- The descriptor that `connect` asks for and gets: it asks if it holds none and may retry.
abbrev pub fresh : ℕ → ℕ → Calls → Client → ℕ
fresh x now k s = elim s.conn_fd [
  | some fd ↦ 0
  | none ↦
      if ltb now s.next_conn_ts
      then 0
      else elim k.socket [ opened fd ↦ one x fd | no_descriptor e ↦ 0 ]
]

module _ (conf : Conf) (now : ℕ) (k : Calls) (x : ℕ) where
  finish-accounted :
      (fd : ℕ) (s : Client)
      → s.conn.fd ≡ none
      → s.conn_fd ≡ some fd
      → accounted x (finish conf now k fd s).0 ≡ accounted x s
  unfolding finish open_conn close
  finish-accounted fd s c e = ground arith

  begin-accounted :
      (fd : ℕ) (s : Client)
      → s.conn.fd ≡ none
      → s.conn_fd ≡ none
      → accounted x (begin conf now k fd s).0 ≡ accounted x s + one x fd
  unfolding begin
  begin-accounted fd s c e = ground (
    arith,
    finish-accounted fd
        (record s {
          conn_fd = some fd;
          conn_expire_ts =
              if conf.conn_timeout_sec == 0 then never else now + conf.conn_timeout_sec;
        })
        c,
  )

  connect-accounted :
      (s : Client)
      → s.conn.fd ≡ none
      → accounted x (connect conf now k s).0 ≡ accounted x s + fresh x now k s
  unfolding connect
  connect-accounted s c = elim (Option-cases s.conn_fd) [
    | inr (fd, e) ↦ ground (arith, finish-accounted fd s c e)
    | inl e ↦ elim (Descriptor-cases k.socket) [
      | inl (fd, g) ↦ ground (arith, begin-accounted fd later c e)
      | inr (errno, g) ↦ ground arith
    ]
  ]
    where
      later : Client
      later = record s {
        next_conn_ts = if conf.conn_retry_sec == 0 then never else now + conf.conn_retry_sec;
      }

-- A connection's own descriptor and those it has closed.
abbrev pub owned : ℕ → Conn → ℕ
owned x c = held x c.fd + count x c.closed

-- The callbacks may close the connection, and nothing else.
pub record IsTidyHandler (h : Handler) : Type 0 where
  pub on_data : (x : ℕ) (c : Conn) (xs : List ℕ) → owned x (h.on_data c xs).0 ≡ owned x c
  pub on_send_timeout : (x : ℕ) (c : Conn) → owned x (h.on_send_timeout c) ≡ owned x c
  pub on_recv_timeout : (x : ℕ) (c : Conn) → owned x (h.on_recv_timeout c) ≡ owned x c
  pub on_connected : (x : ℕ) (c : Conn) → owned x (h.on_connected c) ≡ owned x c
  pub on_disconnect :
      (x : ℕ) (c : Conn)
      → (owned x (h.on_disconnect c) ≡ owned x c) × (c.fd ≡ none → (h.on_disconnect c).fd ≡ none)

module _ (conf : Conf) (handler : Handler) (h : IsTidyHandler handler) (x : ℕ) where
  read-owned : (r : ReadResult) (c : Conn) → owned x (read conf handler r c).0 ≡ owned x c
  unfolding read receive settle close
  read-owned (got xs) c = ground (arith, h.on_data x (arrived xs c) (waiting (arrived xs c)))
  read-owned eof c = ground arith
  read-owned would_block c = refl
  read-owned (read_failed e) c = ground arith

  send_timer-owned : (now : ℕ) (c : Conn) → owned x (send_timer conf handler now c).0 ≡ owned x c
  unfolding send_timer
  send_timer-owned now c = ground (arith, h.on_send_timeout x c)

  recv_timer-owned :
      (now : ℕ) (got_data : Bool) (c : Conn)
      → owned x (recv_timer conf handler now got_data c).0 ≡ owned x c
  unfolding recv_timer
  recv_timer-owned now got_data c = ground (arith, h.on_recv_timeout x c)

  poll_conn-owned :
      (now : ℕ) (r : ReadResult) (c : Conn) → owned x (poll_conn conf handler now r c).0 ≡ owned x c
  unfolding poll_conn
  poll_conn-owned now r c =
      let c1 = (send_timer conf handler now c).0 in
      let o = read conf handler r c1 in
      recv_timer-owned now o.2 o.0 ∙ read-owned r c1 ∙ send_timer-owned now c

  -- Whatever the calls return, one `poll` accounts for every descriptor that the client held or had
  -- closed, and for the one that `::socket` gave it, once each: none is lost, none closed twice.
  pub poll-accounted :
      (now : ℕ) (k : Calls) (r : ReadResult) (s : Client)
      → accounted x (poll conf handler now k r s).0
        ≡ accounted x s + (if is_connected s.conn then 0 else fresh x now k s)
  unfolding poll is_connected
  poll-accounted now k r s = elim (Option-cases s.conn.fd) [
    | inr (fd, e) ↦ ground (arith, poll_conn-owned now r s.conn)
    | inl e ↦ elim (Bool-cases s.report_disconnect) [
      | inl b ↦
          ground (arith, h.on_disconnect x s.conn, connect-accounted conf now k x lost, after lost)
      | inr b ↦ ground (arith, connect-accounted conf now k x s, after s)
    ]
  ]
    where
      lost : Client
      lost = record s { conn = handler.on_disconnect s.conn; report_disconnect = false }

      after :
          (s1 : Client)
          → let c = (connect conf now k s1).0.conn in
            owned x (poll_conn conf handler now r (handler.on_connected c)).0 ≡ owned x c
      after s1 =
          let c = (connect conf now k s1).0.conn in
          poll_conn-owned now r (handler.on_connected c) ∙ h.on_connected x c
