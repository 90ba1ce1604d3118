-- ===== src/Tcpdirect/Server.antt =====
-- `TcpdirectTcpServer` of Tcpdirect.h: the pool of connections, as that of Socket.h.
use Prim.Native.String.{String}
use pollnet.Base.{
  ℕ, zero, suc, ◌+◌, ◌-◌, Bool, true, false, Option, none, some, List, [], ◌∷◌, ◌++◌, map, ltb,
  if◌then◌else◌,
}
use pollnet.Socket.Os.{LastError, Descriptor, opened, no_descriptor}
use pollnet.Socket.Conn.{Conf, Event, connected, disconnected}
use pollnet.Socket.Server.{update, swap, Log}
use pollnet.Tcpdirect.Conn.{Conn, Handler, Received, is_connected, open_conn, poll_conn}

-- The members. `listeners_freed` and `stacks_freed` list what `zftl_free` and `zf_stack_free` were
-- given, `attrs_freed` what `zf_attr_free` was.
pub record Server : Type 0 where
  pub stack : Option ℕ
  pub listener : Option ℕ
  pub conns_cnt : ℕ
  pub conns : ℕ → ℕ
  pub conns_data : ℕ → Conn
  pub last_error : LastError
  pub listeners_freed : List ℕ
  pub stacks_freed : List ℕ
  pub attrs_freed : List ℕ

abbrev pub with_error : String → Option ℕ → Server → Server
with_error msg rc s = record s { last_error = record { reason = msg; errno = rc } }

-- `init` from `zftl_listen` on.
unfoldable pub listen : Descriptor → Server → Server × Bool
listen (opened l) s = (record s { listener = some l }, true)
listen (no_descriptor e) s = (with_error "zftl_listen error" (some e) s, false)

-- From `zf_stack_alloc` on, with the attributes `a`.
unfoldable pub alloc_stack : ℕ → Descriptor → Descriptor → Server → Server × Bool
unfolding listen
alloc_stack a (opened t) l s = listen l (record s { stack = some t })
alloc_stack a (no_descriptor e) l s = (
  record (with_error "zf_stack_alloc error" (some e) s) { attrs_freed = a ∷ s.attrs_freed },
  false,
)

unfoldable pub alloc_attr : Descriptor → Descriptor → Descriptor → Server → Server × Bool
unfolding alloc_stack
alloc_attr (opened a) t l s = alloc_stack a t l s
alloc_attr (no_descriptor e) t l s = (with_error "zf_attr_alloc error" (some e) s, false)

-- `init`, with what `_zf_init`, `zf_attr_alloc`, `zf_stack_alloc` and `zftl_listen` return.
unfoldable pub init : Option ℕ → Descriptor → Descriptor → Descriptor → Server → Server × Bool
unfolding alloc_attr
init none a t l s = alloc_attr a t l (record s { conns = λ i. i })
init (some e) a t l s = (with_error "zf_init error" (some e) (record s { conns = λ i. i }), false)

unfoldable pub free_listener : String → Option ℕ → Server → Server
free_listener reason none s = s
free_listener reason (some l) s =
    with_error reason none (record s { listener = none; listeners_freed = l ∷ s.listeners_freed })

unfoldable pub free_stack : Option ℕ → Server → Server
free_stack none s = s
free_stack (some t) s = record s { stack = none; stacks_freed = t ∷ s.stacks_freed }

-- `close`
unfoldable pub close_server : String → Server → Server
unfolding free_listener free_stack
close_server reason s = let s' = free_listener reason s.listener s in free_stack s'.stack s'

-- What the calls of one `poll` return: `zftl_accept`, and for each connection `zft_zc_recv` and
-- whether its zocket is established then.
pub record Calls : Type 0 where
  pub accept : Option ℕ
  pub recv : ℕ → Received
  pub up : ℕ → Bool

module _ (conf : Conf) (handler : Handler) (now : ℕ) (k : Calls) where
  -- With the result of `zftl_accept`.
  unfoldable pub take_conn : Option ℕ → Server → Server × Log
  unfolding open_conn
  take_conn none s = (s, [])
  take_conn (some z) s =
      let id = s.conns s.conns_cnt in
      (
        record s {
          conns_cnt = s.conns_cnt + 1;
          conns_data =
              update s.conns_data id
                (handler.on_connected (open_conn conf now z (s.conns_data id)));
        },
        (id, connected) ∷ [],
      )

  unfoldable pub accept_conn : Server → Server × Log
  unfolding take_conn
  accept_conn s = if ltb s.conns_cnt conf.max_conns then take_conn k.accept s else (s, [])

  -- The connection of index `i` has been polled, and stays in use.
  unfoldable pub keep_conn : ℕ → Conn → Server → Server
  keep_conn i c s = record s { conns_data = update s.conns_data (s.conns i) c }

  -- It is not connected any more: the last one in use takes its place.
  unfoldable pub drop_conn : ℕ → Conn → Server → Server
  drop_conn i c s = record s {
    conns = swap s.conns i (s.conns_cnt - 1);
    conns_cnt = s.conns_cnt - 1;
    conns_data = update s.conns_data (s.conns i) (handler.on_disconnect c);
  }

  -- The loop of `poll`: `conns_cnt_ - i` rounds are enough.
  unfoldable pub serve : ℕ → ℕ → Server → Server × Log
  unfolding poll_conn is_connected keep_conn drop_conn
  serve zero i s = (s, [])
  serve (suc fuel) i s =
      let id = s.conns i in
      let (c, es) = poll_conn conf handler now (k.recv id) (s.conns_data id) in
      let here = map (λ (e : Event). (id, e)) es in
      elim (ltb i s.conns_cnt) as (λ b. Server × Log) [
        | false ↦ (s, [])
        | true ↦ elim (is_connected (k.up id) c) as (λ b. Server × Log) [
          | true ↦ let (s', log) = serve fuel (i + 1) (keep_conn i c s) in (s', here ++ log)
          | false ↦
              let (s', log) = serve fuel i (drop_conn i c s) in
              (s', here ++ (id, disconnected) ∷ log)
        ]
      ]

  unfoldable pub poll : Server → Server × Log
  unfolding accept_conn serve
  poll s =
      let (s1, log) = accept_conn s in let (s2, log2) = serve s1.conns_cnt 0 s1 in (s2, log ++ log2)

-- `foreachConn`: the connections in use, in order.
unfoldable pub each_conn : ℕ → ℕ → Server → List ℕ
each_conn zero i s = []
each_conn (suc n) i s = s.conns i ∷ each_conn n (i + 1) s
