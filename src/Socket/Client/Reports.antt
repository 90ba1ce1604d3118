-- ===== src/Socket/Client/Reports.antt =====
-- The reports of `SocketTcpClient` to the user, and its retries.
use pollnet.Base.{
  ℕ, ◌+◌, ◌≤◌, ◌<◌, ◌≡◌, ◌≢◌, refl, ap, ◌∙◌, inl, inr, true, false, Bool, List, [], ◌∷◌, ◌++◌,
  arith, leb, ◌==◌, if◌then◌else◌, Option-cases, Bool-cases, none, some,
}
use pollnet.Socket.Os.{ReadResult, got, eof, would_block, read_failed}
use pollnet.Socket.Conn.{
  Conf, Conn, Handler, is_connected, open_conn, close, read, send_timer, recv_timer, poll_conn,
  Event, connected, connect_failed, send_timeout, recv_timeout, received, disconnected,
}
use pollnet.Socket.Conn.Buffer.{IsHandler}
use pollnet.Socket.Client.{Client, Calls, success, finish, begin, connect, poll, never}

-- How often the user is told that a connection stands, and that it is lost.
abbrev pub stands : List Event → ℕ
stands [] = 0
stands (connected ∷ es) = stands es + 1
stands (disconnected ∷ es) = stands es
stands (connect_failed ∷ es) = stands es
stands (send_timeout ∷ es) = stands es
stands (recv_timeout ∷ es) = stands es
stands (received xs ∷ es) = stands es

abbrev pub losses : List Event → ℕ
losses [] = 0
losses (connected ∷ es) = losses es
losses (disconnected ∷ es) = losses es + 1
losses (connect_failed ∷ es) = losses es
losses (send_timeout ∷ es) = losses es
losses (recv_timeout ∷ es) = losses es
losses (received xs ∷ es) = losses es

stands-append : (es fs : List Event) → stands (es ++ fs) ≡ stands es + stands fs
stands-append [] fs = omega arith
stands-append (connected ∷ es) fs = omega (arith, stands-append es fs)
stands-append (disconnected ∷ es) fs = stands-append es fs
stands-append (connect_failed ∷ es) fs = stands-append es fs
stands-append (send_timeout ∷ es) fs = stands-append es fs
stands-append (recv_timeout ∷ es) fs = stands-append es fs
stands-append (received xs ∷ es) fs = stands-append es fs

losses-append : (es fs : List Event) → losses (es ++ fs) ≡ losses es + losses fs
losses-append [] fs = omega arith
losses-append (connected ∷ es) fs = losses-append es fs
losses-append (disconnected ∷ es) fs = omega (arith, losses-append es fs)
losses-append (connect_failed ∷ es) fs = losses-append es fs
losses-append (send_timeout ∷ es) fs = losses-append es fs
losses-append (recv_timeout ∷ es) fs = losses-append es fs
losses-append (received xs ∷ es) fs = losses-append es fs

module _ (conf : Conf) (handler : Handler) where
  -- Polling a connection reports neither.
  read-quiet :
      (r : ReadResult) (c : Conn)
      → let es = (read conf handler r c).1 in (stands es ≡ 0) × (losses es ≡ 0)
  unfolding read
  read-quiet (got xs) c = (refl, refl)
  read-quiet eof c = (refl, refl)
  read-quiet would_block c = (refl, refl)
  read-quiet (read_failed e) c = (refl, refl)

  poll_conn-quiet :
      (now : ℕ) (r : ReadResult) (c : Conn)
      → let es = (poll_conn conf handler now r c).1 in (stands es ≡ 0) × (losses es ≡ 0)
  unfolding poll_conn send_timer recv_timer
  poll_conn-quiet now r c = ground (
    arith,
    read-quiet r c1,
    stands-append sent (o.1 ++ late),
    stands-append o.1 late,
    losses-append sent (o.1 ++ late),
    losses-append o.1 late,
  )
    where
      c1 : Conn
      c1 = (send_timer conf handler now c).0

      sent : List Event
      sent = (send_timer conf handler now c).1

      o : Conn × List Event × Bool
      o = read conf handler r c1

      late : List Event
      late = (recv_timer conf handler now o.2 o.0).1

-- `connect` leaves what is to be reported, succeeds only with an open connection, and else with none.
connect-state :
    (conf : Conf) (now : ℕ) (k : Calls) (s : Client)
    → s.conn.fd ≡ none
    → let (s', p) = connect conf now k s in
      (s'.report_disconnect ≡ s.report_disconnect) × (p ≢ success → s'.conn.fd ≡ none)
unfolding connect begin finish open_conn close
connect-state conf now k s e = ground arith

abbrev pub due : Client → ℕ
due s = if s.report_disconnect then 1 else 0

-- An open connection is one whose loss is still to be reported.
abbrev pub IsConsistent : Client → Type 0
IsConsistent s = s.conn.fd ≢ none → s.report_disconnect ≡ true

-- A poll of the client: the time, and what the system calls return.
abbrev pub Round : Type 0
Round = ℕ × Calls × ReadResult

module _ (conf : Conf) (handler : Handler) where
  pub rounds : List Round → Client → Client × List Event
  rounds [] s = (s, [])
  rounds ((now, k, r) ∷ ps) s =
      let (s', es) = poll conf handler now k r s in let (s'', fs) = rounds ps s' in (s'', es ++ fs)

module _ (conf : Conf) (handler : Handler) (h : IsHandler handler) where
  poll-reports :
      (now : ℕ) (k : Calls) (r : ReadResult) (s : Client)
      → IsConsistent s
      → let (s', es) = poll conf handler now k r s in
        IsConsistent s' × (stands es + due s ≡ losses es + due s')
  unfolding poll is_connected
  poll-reports now k r s v = elim (Option-cases s.conn.fd) [
    | inr (fd, e) ↦ ground (arith, poll_conn-quiet conf handler now r s.conn)
    | inl e ↦ elim (Bool-cases s.report_disconnect) [
      | inl b ↦ ground (arith, h.on_disconnect s.conn, connect-state conf now k lost, after lost)
      | inr b ↦ ground (arith, connect-state conf now k s, after s)
    ]
  ]
    where
      lost : Client
      lost = record s { conn = handler.on_disconnect s.conn; report_disconnect = false }

      after :
          (s1 : Client)
          → let c = (connect conf now k s1).0.conn in
            let es = (poll_conn conf handler now r (handler.on_connected c)).1 in
            (stands es ≡ 0) × (losses es ≡ 0)
      after s1 =
          poll_conn-quiet conf handler now r (handler.on_connected (connect conf now k s1).0.conn)

  -- However a client is polled, the user is told of as many losses as of connections made, but for
  -- a connection that still stands or whose loss the next poll reports.
  pub rounds-reports :
      (ps : List Round) (s : Client)
      → IsConsistent s
      → let (s', es) = rounds conf handler ps s in
        IsConsistent s' × (stands es + due s ≡ losses es + due s')
  unfolding rounds
  rounds-reports [] s v = (v, refl)
  rounds-reports ((now, k, r) ∷ ps) s v =
      let o = poll conf handler now k r s in
      let p = rounds conf handler ps o.0 in
      let step = poll-reports now k r s v in
      let rest = rounds-reports ps o.0 step.0 in
      (rest.0, omega (arith, step.1, rest.1, stands-append o.1 p.1, losses-append o.1 p.1))

-- A poll that asks for a new descriptor: not connected, none being connected, and time to retry.
abbrev pub asks : ℕ → Client → Bool
asks now s = elim s.conn.fd [
  | some fd ↦ false
  | none ↦ elim s.conn_fd [ some fd ↦ false | none ↦ leb s.next_conn_ts now ]
]

abbrev pub retry_at : Conf → ℕ → ℕ
retry_at conf now = if conf.conn_retry_sec == 0 then never else now + conf.conn_retry_sec

-- No poll of a run asks.
abbrev pub NeverAsks : Conf → Handler → List Round → Client → Type 0
NeverAsks conf handler [] s = Unit {0}
NeverAsks conf handler ((now, k, r) ∷ ps) s =
    (asks now s ≡ false) × NeverAsks conf handler ps (poll conf handler now k r s).0

abbrev pub AllBefore : ℕ → List Round → Type 0
AllBefore t [] = Unit {0}
AllBefore t ((now, k, r) ∷ ps) = (now < t) × AllBefore t ps

module _ (conf : Conf) (handler : Handler) where
  poll-next :
      (now : ℕ) (k : Calls) (r : ReadResult) (s : Client)
      → (poll conf handler now k r s).0.next_conn_ts
        ≡ (if asks now s then retry_at conf now else s.next_conn_ts)
  unfolding poll connect begin finish is_connected
  poll-next now k r s = ground arith

  never-asks :
      (t : ℕ) (ps : List Round) (s : Client)
      → t ≤ s.next_conn_ts
      → AllBefore t ps
      → NeverAsks conf handler ps s
  never-asks t [] s h a = tt
  never-asks t ((now, k, r) ∷ ps) s h a =
      let quiet : asks now s ≡ false = ground arith in
      (
        quiet,
        never-asks t ps (poll conf handler now k r s).0
            (omega (
              arith,
              poll-next now k r s ∙ ap (λ b. if b then retry_at conf now else s.next_conn_ts) quiet,
            ))
            a.1,
      )

  -- After a poll that asked for a descriptor, whatever came of it, none of the polls before the
  -- retry period is over asks for another; with a period of 0, none before the end of time.
  pub attempts_apart :
      (now : ℕ) (k : Calls) (r : ReadResult) (s : Client) (ps : List Round)
      → asks now s ≡ true
      → AllBefore (retry_at conf now) ps
      → NeverAsks conf handler ps (poll conf handler now k r s).0
  attempts_apart now k r s ps e a =
      never-asks (retry_at conf now) ps (poll conf handler now k r s).0
        (omega (
          arith,
          poll-next now k r s ∙ ap (λ b. if b then retry_at conf now else s.next_conn_ts) e,
        ))
        a
