-- ===== src/Socket/Conn/Poll.antt =====
-- The receive timer of `pollConn`: when it reports, and when it cannot.
use pollnet.Base.{
  ℕ, ◌+◌, ◌≤◌, ◌<◌, ◌≡◌, ◌≢◌, refl, true, false, Bool, List, [], ◌∷◌, ◌++◌, arith, leb,
  if◌then◌else◌, not, ◌&&◌, ◌||◌,
}
use pollnet.Socket.Os.{ReadResult, got, eof, would_block, read_failed}
use pollnet.Socket.Conn.{
  Conf, Conn, Handler, Event, connected, connect_failed, send_timeout, recv_timeout, received,
  disconnected, close, settle, receive, read, send_timer, recv_timer, poll_conn,
}
use pollnet.Socket.Conn.Buffer.{IsHandler, arrived, waiting}

-- Reports of the receive timer, and data for the handler, among the calls.
abbrev pub reports : List Event → Bool
reports [] = false
reports (recv_timeout ∷ es) = true
reports (connected ∷ es) = reports es
reports (connect_failed ∷ es) = reports es
reports (send_timeout ∷ es) = reports es
reports (received xs ∷ es) = reports es
reports (disconnected ∷ es) = reports es

abbrev pub has_data : List Event → Bool
has_data [] = false
has_data (received xs ∷ es) = true
has_data (connected ∷ es) = has_data es
has_data (connect_failed ∷ es) = has_data es
has_data (send_timeout ∷ es) = has_data es
has_data (recv_timeout ∷ es) = has_data es
has_data (disconnected ∷ es) = has_data es

-- One connection polled again and again, at the given times and with what `::read` returns.
abbrev pub Poll : Type 0
Poll = ℕ × ReadResult

module _ (conf : Conf) (handler : Handler) where
  pub polls : List Poll → Conn → Conn × List Event
  polls [] c = (c, [])
  polls ((now, r) ∷ ps) c =
      let (c', es) = poll_conn conf handler now r c in
      let (c'', fs) = polls ps c' in (c'', es ++ fs)

module _ (conf : Conf) (handler : Handler) (h : IsHandler handler) where
  read-expire :
      (r : ReadResult) (c : Conn)
      → let (c', es, got_data) = read conf handler r c in
        (c'.expire_ts ≡ c.expire_ts) × (reports es ≡ false) × (has_data es ≡ got_data)
  unfolding read receive settle close
  read-expire (got xs) c = ground (arith, h.on_data (arrived xs c) (waiting (arrived xs c)))
  read-expire eof c = ground arith
  read-expire would_block c = ground arith
  read-expire (read_failed e) c = ground arith

reports-append : (es fs : List Event) → reports (es ++ fs) ≡ reports es || reports fs
reports-append [] fs = refl
reports-append (connected ∷ es) fs = reports-append es fs
reports-append (connect_failed ∷ es) fs = reports-append es fs
reports-append (send_timeout ∷ es) fs = reports-append es fs
reports-append (recv_timeout ∷ es) fs = refl
reports-append (received xs ∷ es) fs = reports-append es fs
reports-append (disconnected ∷ es) fs = reports-append es fs

has_data-append : (es fs : List Event) → has_data (es ++ fs) ≡ has_data es || has_data fs
has_data-append [] fs = refl
has_data-append (connected ∷ es) fs = has_data-append es fs
has_data-append (connect_failed ∷ es) fs = has_data-append es fs
has_data-append (send_timeout ∷ es) fs = has_data-append es fs
has_data-append (recv_timeout ∷ es) fs = has_data-append es fs
has_data-append (received xs ∷ es) fs = refl
has_data-append (disconnected ∷ es) fs = has_data-append es fs

-- Every time lies in `lo .. hi`.
abbrev pub AllIn : ℕ → ℕ → List Poll → Type 0
AllIn lo hi [] = Unit {0}
AllIn lo hi ((now, r) ∷ ps) = (lo ≤ now) × (now < hi) × AllIn lo hi ps

module _ (conf : Conf) (handler : Handler) (h : IsHandler handler)
    (on : conf.recv_timeout_sec ≢ 0) where
  send_timer-reports :
      (now : ℕ) (c : Conn)
      → let (c', es) = send_timer conf handler now c in
        (reports es ≡ false) × (has_data es ≡ false) × (c'.expire_ts ≡ c.expire_ts)
  unfolding send_timer
  send_timer-reports now c = ground (arith, h.on_send_timeout c)

  recv_timer-reports :
      (now : ℕ) (got_data : Bool) (c : Conn)
      → let (c', es) = recv_timer conf handler now got_data c in
        (reports es ≡ not got_data && leb c.expire_ts now)
        × (has_data es ≡ false)
        × (c'.expire_ts ≡ (
            if got_data || leb c.expire_ts now then now + conf.recv_timeout_sec else c.expire_ts))
  unfolding recv_timer
  recv_timer-reports now got_data c = ground (arith, on, h.on_recv_timeout c)

  -- One `pollConn`: a timeout is reported exactly when no data came and the time is over; then,
  -- and when data came, the time starts again.
  pub poll_conn-reports :
      (now : ℕ) (r : ReadResult) (c : Conn)
      → let (c', es) = poll_conn conf handler now r c in
        (reports es ≡ not (has_data es) && leb c.expire_ts now)
        × (c'.expire_ts ≡ (
            if has_data es || leb c.expire_ts now
            then now + conf.recv_timeout_sec
            else c.expire_ts))
  unfolding poll_conn
  poll_conn-reports now r c = ground (
    arith,
    send_timer-reports now c,
    read-expire conf handler h r c1,
    recv_timer-reports now o.2 o.0,
    reports-append sent (o.1 ++ late),
    reports-append o.1 late,
    has_data-append sent (o.1 ++ late),
    has_data-append o.1 late,
  )
    where
      c1 : Conn
      c1 = (send_timer conf handler now c).0

      sent : List Event
      sent = (send_timer conf handler now c).1

      o : Conn × List Event × Bool
      o = read conf handler r c1

      late : List Event
      late = (recv_timer conf handler now o.2 o.0).1

  polls-quiet :
      (t0 : ℕ) (ps : List Poll) (c : Conn)
      → AllIn t0 (t0 + conf.recv_timeout_sec) ps
      → t0 + conf.recv_timeout_sec ≤ c.expire_ts
      → reports (polls conf handler ps c).1 ≡ false
  unfolding polls
  polls-quiet t0 [] c a e = refl
  polls-quiet t0 ((now, r) ∷ ps) c a e =
      let o = poll_conn conf handler now r c in
      ground (
        arith,
        poll_conn-reports now r c,
        polls-quiet t0 ps o.0 a.2,
        reports-append o.1 (polls conf handler ps o.0).1,
      )

  -- After data has come, or a timeout was reported, none is reported within the period, however
  -- often the connection is polled.
  pub timeouts_apart :
      (now : ℕ) (r : ReadResult) (c : Conn) (ps : List Poll)
      → has_data (poll_conn conf handler now r c).1 || reports (poll_conn conf handler now r c).1
        ≡ true
      → AllIn now (now + conf.recv_timeout_sec) ps
      → reports (polls conf handler ps (poll_conn conf handler now r c).0).1 ≡ false
  timeouts_apart now r c ps e a =
      polls-quiet now ps (poll_conn conf handler now r c).0 a
        (ground (arith, poll_conn-reports now r c))
