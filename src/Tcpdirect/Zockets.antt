-- ===== src/Tcpdirect/Zockets.antt =====
-- The zockets of `TcpdirectTcpClient`: those held, those freed, and those lost.
use Prim.Native.String.{String}
use pollnet.Base.{
  one, count, ℕ, ◌+◌, ◌≡◌, refl, ◌∙◌, inl, inr, true, false, Bool, List, length, arith, ltb, ◌==◌,
  if◌then◌else◌, Option, Option-cases, Bool-cases, none, some,
}
use pollnet.Socket.Handle.{held, Descriptor-cases}
use pollnet.Socket.Os.{Descriptor, opened, no_descriptor}
use pollnet.Socket.Conn.{Conf}
use pollnet.Tcpdirect.Conn.{
  Conn, Handler, Received, nothing, segment, is_connected, close, recv_done, open_conn, keep,
  settle, append, waiting, receive, read, read_zock, send_timer, recv_timer, poll_conn,
}
use pollnet.Tcpdirect.Client.{
  Client, Calls, settled, arrive, finish, connect, poll_rest, after_connect, poll,
}
use pollnet.Socket.Client.{never}

-- How often a zocket is accounted for: as the connection's, or as freed.
abbrev pub owned : ℕ → Conn → ℕ
owned x c = held x c.zock + count x c.freed

-- The callbacks may close the connection, and nothing else.
pub record IsTidyHandler (h : Handler) : Type 0 where
  pub on_data : (x : ℕ) (c : Conn) (xs : List ℕ) → owned x (h.on_data c xs).0 ≡ owned x c
  pub on_send_timeout : (x : ℕ) (c : Conn) → owned x (h.on_send_timeout c) ≡ owned x c
  pub on_recv_timeout : (x : ℕ) (c : Conn) → owned x (h.on_recv_timeout c) ≡ owned x c
  pub on_connected : (x : ℕ) (c : Conn) → owned x (h.on_connected c) ≡ owned x c
  pub on_disconnect : (x : ℕ) (c : Conn) → owned x (h.on_disconnect c) ≡ owned x c

-- The zocket of a `zft_connect` that succeeds.
abbrev pub zock_of : Descriptor → Option ℕ
zock_of (opened z) = some z
zock_of (no_descriptor e) = none

abbrev pub given_bound : Bool → Option ℕ → Descriptor → Option ℕ
given_bound true bind d = zock_of d
given_bound false none d = zock_of d
given_bound false (some e) d = none

-- The one that a `connect` is given: its handle is allocated, and bound if there is a local port.
abbrev pub given_alloc : Descriptor → Bool → Option ℕ → Descriptor → Option ℕ
given_alloc (opened h) any_port bind d = given_bound any_port bind d
given_alloc (no_descriptor e) any_port bind d = none

abbrev pub given : Calls → Client → Option ℕ
given k s = given_alloc k.alloc (s.local_port_be == 0) k.bind k.connect

-- The one that a poll is given: only if the client is not connected, and may try.
abbrev pub fresh : ℕ → Calls → Bool → Client → Option ℕ
fresh now k up s =
    if is_connected up s.conn then none else if ltb now s.next_conn_ts then none else given k s

-- What the client held before, if it is given a new one.
abbrev pub lost : ℕ → Option ℕ → Option ℕ → ℕ
lost x none old = 0
lost x (some z) old = held x old

module _ (conf : Conf) (x : ℕ) where
  arrive-owned :
      (time z : ℕ) (s : Client) (o : Option Bool)
      → owned x (arrive conf time z s o).0.conn + held x s.conn.zock ≡ owned x s.conn + one x z
  unfolding arrive open_conn
  arrive-owned time z s none = omega arith
  arrive-owned time z s (some true) = omega arith
  arrive-owned time z s (some false) = omega arith

  finish-owned :
      (k : Calls) (h : ℕ) (s : Client) (d : Descriptor)
      → owned x (finish conf k h s d).0.conn + lost x (zock_of d) s.conn.zock
        ≡ owned x s.conn + held x (zock_of d)
  unfolding finish
  finish-owned k h s (opened z) = arrive-owned k.time z s (settled k.states)
  finish-owned k h s (no_descriptor e) = omega arith

  connect-owned :
      (k : Calls) (s : Client)
      → owned x (connect conf k s).0.conn + lost x (given k s) s.conn.zock
        ≡ owned x s.conn + held x (given k s)
  unfolding connect
  connect-owned k s = elim (Descriptor-cases k.alloc) [
    | inr (e, g) ↦ rw g (omega arith)
    | inl (h, g) ↦ elim (Bool-cases (s.local_port_be == 0)) [
      | inl p ↦ rw (g, p) (finish-owned k h s k.connect)
      | inr p ↦ elim (Option-cases k.bind) [
        | inl n ↦ rw (g, p, n) (finish-owned k h s k.connect)
        | inr (e, n) ↦ rw (g, p, n) (omega arith)
      ]
    ]
  ]

module _ (conf : Conf) (handler : Handler) (h : IsTidyHandler handler) (x : ℕ) where
  recv_done-owned : (c : Conn) → owned x (recv_done c) ≡ owned x c
  unfolding recv_done
  recv_done-owned c = elim (Option-cases c.zock) [ inl e ↦ rw e refl | inr (z, e) ↦ rw e refl ]

  close-owned : (reason : String) (c : Conn) → owned x (close reason c) ≡ owned x c
  unfolding close
  close-owned reason c = elim (Option-cases c.zock) [
    | inl e ↦ rw e refl
    | inr (z, e) ↦ rw e (omega arith)
  ]

  keep-owned : (xs : List ℕ) (n : ℕ) (c : Conn) → owned x (keep conf xs n c) ≡ owned x c
  unfolding keep
  keep-owned xs n c = ground arith

  settle-owned : (n : ℕ) (c : Conn) → owned x (settle conf n c) ≡ owned x c
  unfolding settle
  settle-owned n c = ground arith

  receive-owned : (xs : List ℕ) (c : Conn) → owned x (receive conf handler xs c).0 ≡ owned x c
  unfolding receive
  receive-owned xs c =
      let passed = waiting (append xs c) in
      let direct = handler.on_data c xs in
      let buffered = handler.on_data (append xs c) passed in
      elim (Bool-cases (c.tail == 0)) [
        | inl e ↦ rw e (
            recv_done-owned (keep conf xs direct.1 direct.0)
            ∙ keep-owned xs direct.1 direct.0
            ∙ h.on_data x c xs)
        | inr e ↦ rw e (
            recv_done-owned (settle conf buffered.1 buffered.0)
            ∙ settle-owned buffered.1 buffered.0
            ∙ h.on_data x (append xs c) passed)
      ]

  read-owned : (r : Received) (c : Conn) → owned x (read conf handler r c).0 ≡ owned x c
  unfolding read
  read-owned nothing c = refl
  read-owned (segment xs) c = elim (Bool-cases (length xs == 0)) [
    | inl e ↦ rw e (close-owned "remote close" (recv_done c) ∙ recv_done-owned c)
    | inr e ↦ elim (Bool-cases (ltb conf.recv_buf_size (length xs + c.tail))) [
      | inl f ↦ rw (e, f) (close-owned "recv buf full" (recv_done c) ∙ recv_done-owned c)
      | inr f ↦ rw (e, f) (receive-owned xs c)
    ]
  ]

  read_zock-owned :
      (o : Option ℕ) (r : Received) (c : Conn)
      → owned x (read_zock conf handler o r c).0 ≡ owned x c
  unfolding read_zock
  read_zock-owned none r c = refl
  read_zock-owned (some z) r c = read-owned r c

  send_timer-owned : (now : ℕ) (c : Conn) → owned x (send_timer conf handler now c).0 ≡ owned x c
  unfolding send_timer
  send_timer-owned now c = ground (arith, h.on_send_timeout x c)

  recv_timer-owned :
      (now : ℕ) (got_data : Bool) (c : Conn)
      → owned x (recv_timer conf handler now got_data c).0 ≡ owned x c
  unfolding recv_timer
  recv_timer-owned now got_data c = ground (arith, h.on_recv_timeout x c)

  poll_conn-owned :
      (now : ℕ) (r : Received) (c : Conn) → owned x (poll_conn conf handler now r c).0 ≡ owned x c
  unfolding poll_conn
  poll_conn-owned now r c =
      let c1 = (send_timer conf handler now c).0 in
      let o = read_zock conf handler c1.zock r c1 in
      recv_timer-owned now o.2 o.0 ∙ read_zock-owned c1.zock r c1 ∙ send_timer-owned now c

  poll_rest-owned :
      (now : ℕ) (r : Received) (up_after : Bool) (s : Client)
      → owned x (poll_rest conf handler now r up_after s).0.conn ≡ owned x s.conn
  unfolding poll_rest
  poll_rest-owned now r up_after s =
      let c = (poll_conn conf handler now r s.conn).0 in
      elim (Bool-cases (is_connected up_after c)) [
        | inl e ↦ rw e (poll_conn-owned now r s.conn)
        | inr e ↦ rw e (h.on_disconnect x c ∙ poll_conn-owned now r s.conn)
      ]

  after_connect-owned :
      (now : ℕ) (r : Received) (up_after : Bool) (s : Client) (done : Option Bool)
      → owned x (after_connect conf handler now r up_after s done).0.conn ≡ owned x s.conn
  unfolding after_connect
  after_connect-owned now r up_after s none = refl
  after_connect-owned now r up_after s (some false) = refl
  after_connect-owned now r up_after s (some true) =
      poll_rest-owned now r up_after (record s { conn = handler.on_connected s.conn })
      ∙ h.on_connected x s.conn

  -- Whatever the calls return, and with a handler that at most closes the connection: a poll of the
  -- client accounts for every zocket that it held or had freed, and for the one that `zft_connect`
  -- gave it, once each, except that the one it held before is lost if it was given another.
  pub poll-owned :
      (now : ℕ) (k : Calls) (r : Received) (up up_after : Bool) (s : Client)
      → let s' = (poll conf handler now k r up up_after s).0 in
        let z = fresh now k up s in
        owned x s'.conn + lost x z s.conn.zock ≡ owned x s.conn + held x z
  unfolding poll
  poll-owned now k r up up_after s =
      let s1 : Client = record s {
        next_conn_ts = if conf.conn_retry_sec == 0 then never else now + conf.conn_retry_sec;
      } in
      let (s2, done) = connect conf k s1 in
      elim (Bool-cases (is_connected up s.conn)) [
        | inl e ↦ rw e (omega (arith, poll_rest-owned now r up_after s))
        | inr e ↦ elim (Bool-cases (ltb now s.next_conn_ts)) [
          | inl f ↦ rw (e, f) (omega arith)
          | inr f ↦
              rw (e, f)
                (omega
                  (arith, after_connect-owned now r up_after s2 done, connect-owned conf x k s1))
        ]
      ]
