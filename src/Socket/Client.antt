-- ===== src/Socket/Client.antt =====
-- `SocketTcpClient` of Socket.h: connecting without blocking, retries, and the reports to the user.
pub mod Descriptors
pub mod Reports
use Prim.Native.String.{String}
use pollnet.Base.{
  ℕ, ◌+◌, ◌-◌, ◌^◌, Bool, true, false, not, ◌&&◌, Option, none, some, List, [], ◌∷◌, ◌++◌, ltb,
  ◌==◌, if◌then◌else◌,
}
use pollnet.Wire.{swap16}
use pollnet.Stream.{or_kept}
use pollnet.Socket.Os.{ReadResult, LastError, Descriptor, opened, no_descriptor}
use pollnet.Socket.Conn.{
  Conf, Conn, Handler, Event, connected, connect_failed, disconnected, is_connected, open_conn,
  poll_conn,
}

-- The members beside those of the connection that the client is. The address is in network order.
pub record Client : Type 0 where
  pub conn : Conn
  pub report_disconnect : Bool
  pub conn_fd : Option ℕ
  pub next_conn_ts : ℕ
  pub conn_expire_ts : ℕ
  pub server_ip : ℕ
  pub server_port_be : ℕ
  pub local_port_be : ℕ

-- `::connect`, which also ends well with EISCONN and goes on with EINPROGRESS and EALREADY.
pub data ConnectResult : Type 0 where
  established : ConnectResult
  in_progress : ℕ → ConnectResult
  refused : ℕ → ConnectResult

-- What the system calls of one `connect` return, if they are made; `none` is success.
pub record Calls : Type 0 where
  pub socket : Descriptor
  pub bind : Option ℕ
  pub nonblock : Option ℕ
  pub connect : ConnectResult
  pub open_nonblock : Option ℕ
  pub open_nodelay : Option ℕ

-- `connect` returns -1, 0 or 1.
pub data Progress : Type 0 where
  failed pending success : Progress

-- `std::numeric_limits<int64_t>::max()`
abbrev pub never : ℕ
never = 2 ^ 63 - 1

abbrev pub save_error : String → Option ℕ → Client → Client
save_error reason errno s =
    let c = s.conn in
    record s { conn = record c { last_error = record { reason = reason; errno = errno } } }

-- `::close(fd)`
abbrev pub close_fd : ℕ → Client → Client
close_fd fd s = let c = s.conn in record s { conn = record c { closed = fd ∷ c.closed } }

pub init : (List ℕ → Option ℕ) → List ℕ → ℕ → ℕ → Client → Client
init inet_pton server_ip server_port local_port s = record s {
  server_ip = or_kept (inet_pton server_ip) s.server_ip;
  server_port_be = swap16 server_port;
  local_port_be = swap16 local_port;
}

pub allow_reconnect : Client → Client
allow_reconnect s = record s { next_conn_ts = 0 }

module _ (conf : Conf) where
  -- From `::connect` on, with the descriptor `conn_fd_`.
  pub finish : ℕ → Calls → ℕ → Client → Client × Progress
  finish now k fd s = elim k.connect [
    | established ↦
        let (c, done) = open_conn conf now fd k.open_nonblock k.open_nodelay s.conn in
        (record s { conn = c; conn_fd = none }, if done then success else failed)
    | in_progress e ↦
        if ltb now s.conn_expire_ts
        then (s, pending)
        else (record (close_fd fd (save_error "connect expired" none s)) { conn_fd = none }, failed)
    | refused e ↦
        let reason =
          if ltb now s.conn_expire_ts
          then save_error "connect error" (some e) s
          else save_error "connect expired" none s in
        (record (close_fd fd reason) { conn_fd = none }, failed)
  ]

  -- The new descriptor is bound and made non-blocking, and kept in `conn_fd_`.
  pub begin : ℕ → Calls → ℕ → Client → Client × Progress
  unfolding finish
  begin now k fd s =
      let s' = record s {
        conn_fd = some fd;
        conn_expire_ts = if conf.conn_timeout_sec == 0 then never else now + conf.conn_timeout_sec;
      } in
      let go : Client × Progress = elim k.nonblock [
        | some e ↦ (close_fd fd (save_error "fcntl O_NONBLOCK error" (some e) s), failed)
        | none ↦ finish now k fd s'
      ] in
      if s.local_port_be == 0 then go else elim k.bind [
        | some e ↦ (close_fd fd (save_error "bind error" (some e) s), failed)
        | none ↦ go
      ]

  pub connect : ℕ → Calls → Client → Client × Progress
  unfolding begin
  connect now k s =
      let s' = record s {
        next_conn_ts = if conf.conn_retry_sec == 0 then never else now + conf.conn_retry_sec;
      } in
      elim s.conn_fd [
        | some fd ↦ finish now k fd s
        | none ↦ if ltb now s.next_conn_ts then (s, pending) else elim k.socket [
          | no_descriptor e ↦ (save_error "socket error" (some e) s', failed)
          | opened fd ↦ begin now k fd s'
        ]
      ]

module _ (conf : Conf) (handler : Handler) where
  pub poll : ℕ → Calls → ReadResult → Client → Client × List Event
  poll now k r s =
      let s1 =
        if s.report_disconnect
        then record s { conn = handler.on_disconnect s.conn; report_disconnect = false }
        else s in
      let lost = if s.report_disconnect then disconnected ∷ [] else [] in
      let (s2, progress) = connect conf now k s1 in
      if is_connected s.conn
      then (let (c, es) = poll_conn conf handler now r s.conn in (record s { conn = c }, es))
      else elim progress [
        | failed ↦ (s2, lost ++ connect_failed ∷ [])
        | pending ↦ (s2, lost)
        | success ↦
            let (c, es) = poll_conn conf handler now r (handler.on_connected s2.conn) in
            (record s2 { conn = c; report_disconnect = true }, lost ++ connected ∷ es)
      ]
