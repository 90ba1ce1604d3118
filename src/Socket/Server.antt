-- ===== src/Socket/Server.antt =====
-- `SocketTcpServer` of Socket.h: a pool of connections, of which `conns_[0 .. conns_cnt_)` are in
-- use. `conns` maps the index in `conns_` to the connection's index in `conns_data_`.
pub mod Pool
pub mod Counts
pub mod Census
pub mod Listen
use Prim.Native.String.{String}
use pollnet.Base.{
  ℕ, zero, suc, ◌+◌, ◌-◌, Bool, true, false, Option, none, some, List, [], ◌∷◌, ◌++◌, map, ltb,
  ◌==◌, if◌then◌else◌,
}
use pollnet.Socket.Os.{ReadResult, LastError}
use pollnet.Socket.Handle.{Setting}
use pollnet.Socket.Conn.{
  Conf, Conn, Handler, Event, connected, disconnected, is_connected, open_conn, poll_conn,
}

-- `settings` is what the system has made of `listenfd_`.
pub record Server : Type 0 where
  pub listenfd : Option ℕ
  pub conns_cnt : ℕ
  pub conns : ℕ → ℕ
  pub conns_data : ℕ → Conn
  pub last_error : LastError
  pub closed : List ℕ
  pub settings : List Setting

abbrev pub update {ℓ} : {A : Type ℓ} → (ℕ → A) → ℕ → A → ℕ → A
update f i v j = if j == i then v else f j

-- `std::swap(a[i], a[j])`
abbrev pub swap : (ℕ → ℕ) → ℕ → ℕ → ℕ → ℕ
swap a i j k = if k == i then a j else if k == j then a i else a k

-- What the calls of one `poll` return: `::accept`, the two calls of `open`, and `::read` on each
-- connection.
pub record Calls : Type 0 where
  pub accept : Option ℕ
  pub open_nonblock : Option ℕ
  pub open_nodelay : Option ℕ
  pub read : ℕ → ReadResult

-- The calls of the handler, each with the connection that it is about.
abbrev pub Log : Type 0
Log = List (ℕ × Event)

module _ (conf : Conf) (handler : Handler) (now : ℕ) (k : Calls) where
  -- Take a new connection in, if the pool has one that is not in use.
  unfoldable pub accept_conn : Server → Server × Log
  accept_conn s =
      let id = s.conns s.conns_cnt in
      let take = elim k.accept as (λ a. Server × Log) [
        | none ↦ (s, [])
        | some fd ↦
            let (c, done) =
              open_conn conf now fd k.open_nonblock k.open_nodelay (s.conns_data id) in
            if done
            then (
              record s {
                conns_cnt = s.conns_cnt + 1;
                conns_data = update s.conns_data id (handler.on_connected c);
              },
              (id, connected) ∷ [],
            )
            else (record s { conns_data = update s.conns_data id c }, [])
      ] in
      if ltb s.conns_cnt conf.max_conns then take else (s, [])

  -- The connection of index `i` has been polled, and stays in use.
  unfoldable pub keep_conn : ℕ → Conn → Server → Server
  keep_conn i c s = record s { conns_data = update s.conns_data (s.conns i) c }

  -- It is closed: the last one in use takes its place.
  unfoldable pub drop_conn : ℕ → Conn → Server → Server
  drop_conn i c s = record s {
    conns = swap s.conns i (s.conns_cnt - 1);
    conns_cnt = s.conns_cnt - 1;
    conns_data = update s.conns_data (s.conns i) (handler.on_disconnect c);
  }

  -- `for (i = 0; i < conns_cnt_;)`: a round either moves `i` on or takes a connection out, so
  -- `conns_cnt_ - i` rounds are enough.
  unfoldable pub serve : ℕ → ℕ → Server → Server × Log
  serve zero i s = (s, [])
  serve (suc fuel) i s =
      let id = s.conns i in
      let (c, es) = poll_conn conf handler now (k.read id) (s.conns_data id) in
      let here = map (λ (e : Event). (id, e)) es in
      elim (ltb i s.conns_cnt) [
        | false ↦ (s, [])
        | true ↦ elim (is_connected c) [
          | true ↦ let (s', log) = serve fuel (i + 1) (keep_conn i c s) in (s', here ++ log)
          | false ↦
              let (s', log) = serve fuel i (drop_conn i c s) in
              (s', here ++ (id, disconnected) ∷ log)
        ]
      ]

  unfoldable pub poll : Server → Server × Log
  poll s =
      let (s1, log) = accept_conn s in let (s2, log2) = serve s1.conns_cnt 0 s1 in (s2, log ++ log2)

-- `foreachConn`: the connections in use, in order.
unfoldable pub each_conn : ℕ → ℕ → Server → List ℕ
each_conn zero i s = []
each_conn (suc n) i s = s.conns i ∷ each_conn n (i + 1) s

unfoldable pub foreach_conn : Server → List ℕ
unfolding each_conn
foreach_conn s = each_conn s.conns_cnt 0 s
