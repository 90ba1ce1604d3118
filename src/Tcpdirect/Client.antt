-- ===== src/Tcpdirect/Client.antt =====
-- `TcpdirectTcpClient` of Tcpdirect.h, with `connect` of its connection.
use Prim.Native.String.{String}
use pollnet.Base.{
  ℕ, ◌+◌, Bool, true, false, Option, none, some, List, [], ◌∷◌, ◌++◌, ltb, ◌==◌, if◌then◌else◌,
}
use pollnet.Wire.{swap16}
use pollnet.Stream.{or_kept}
use pollnet.Socket.Os.{Descriptor, opened, no_descriptor}
use pollnet.Socket.Conn.{Conf, Event, connected, connect_failed, disconnected}
use pollnet.Socket.Client.{never}
use pollnet.Tcpdirect.Conn.{Conn, Handler, Received, save_error, is_connected, open_conn, poll_conn}

-- The members beside those of the connection. `handles_freed` lists what `zft_handle_free` was given,
-- and `attrs_freed` what `zf_attr_free` was.
pub record Client : Type 0 where
  pub conn : Conn
  pub stack : Option ℕ
  pub attr : Option ℕ
  pub next_conn_ts : ℕ
  pub server_ip : ℕ
  pub server_port_be : ℕ
  pub local_port_be : ℕ
  pub handles_freed : List ℕ
  pub attrs_freed : List ℕ

-- `zft_state`
pub data State : Type 0 where
  syn_sent established other : State

-- What the calls of one `connect` return, if they are made: `zft_alloc`, `zft_addr_bind`,
-- `zft_connect`, `zft_state` from round to round, and `time`.
pub record Calls : Type 0 where
  pub alloc : Descriptor
  pub bind : Option ℕ
  pub connect : Descriptor
  pub states : List State
  pub time : ℕ

abbrev pub with_error : String → Option ℕ → Client → Client
with_error msg rc s = record s { conn = save_error msg rc s.conn }

-- The first state that is not `TCP_SYN_SENT`: whether it is established.
unfoldable pub settled : List State → Option Bool
settled [] = none
settled (syn_sent ∷ ss) = settled ss
settled (established ∷ ss) = some true
settled (other ∷ ss) = some false

module _ (conf : Conf) where
  -- The end of the wait for `zft_connect`, which has given `z`; `none` while it lasts.
  unfoldable pub arrive : ℕ → ℕ → Client → Option Bool → Client × Option Bool
  unfolding open_conn
  arrive time z s none = (let c = s.conn in record s { conn = record c { zock = some z } }, none)
  arrive time z s (some true) = (record s { conn = open_conn conf time z s.conn }, some true)
  arrive time z s (some false) =
      let c = s.conn in
      (
        with_error "zft_state error" none (record s { conn = record c { zock = some z } }),
        some false,
      )

  -- `zft_connect`, with its result.
  unfoldable pub finish : Calls → ℕ → Client → Descriptor → Client × Option Bool
  unfolding arrive settled
  finish k handle s (opened z) = arrive k.time z s (settled k.states)
  finish k handle s (no_descriptor e) = (
    record (with_error "zft_connect error" (some e) s) { handles_freed = handle ∷ s.handles_freed },
    some false,
  )

  -- `connect`
  unfoldable pub connect : Calls → Client → Client × Option Bool
  unfolding finish
  connect k s = elim k.alloc as (λ d. Client × Option Bool) [
    | no_descriptor e ↦ (with_error "zft_alloc error" (some e) s, some false)
    | opened handle ↦
        if s.local_port_be == 0
        then finish k handle s k.connect
        else elim k.bind as (λ o. Client × Option Bool) [
          | none ↦ finish k handle s k.connect
          | some e ↦ (
            record (with_error "bind error" (some e) s) {
              handles_freed = handle ∷ s.handles_freed;
            },
            some false,
          )
        ]
  ]

unfoldable pub allow_reconnect : Client → Client
allow_reconnect s = record s { next_conn_ts = 0 }

-- `init`: what `inet_pton`, `_zf_init`, `zf_attr_alloc` and `zf_stack_alloc` give.
unfoldable pub init_addr : (List ℕ → Option ℕ) → List ℕ → ℕ → ℕ → Client → Client
init_addr inet_pton server_ip server_port local_port s = record s {
  server_ip = or_kept (inet_pton server_ip) s.server_ip;
  server_port_be = swap16 server_port;
  local_port_be = swap16 local_port;
}

-- The stack, for the attributes `a`.
unfoldable pub init_stack : ℕ → Descriptor → Client → Client × Bool
init_stack a new_stack s = elim s.stack as (λ o. Client × Bool) [
  | some t ↦ (record s { attr = some a }, true)
  | none ↦ elim new_stack as (λ d. Client × Bool) [
    | opened t ↦ (record s { attr = some a; stack = some t }, true)
    | no_descriptor e ↦ (
      record (with_error "zf_stack_alloc error" (some e) s) {
        attr = none;
        attrs_freed = a ∷ s.attrs_freed;
      },
      false,
    )
  ]
]

unfoldable pub init : Option ℕ → Descriptor → Descriptor → Client → Client × Bool
unfolding init_stack
init zf_init new_attr new_stack s = elim zf_init as (λ o. Client × Bool) [
  | some e ↦ (with_error "zf_init error" (some e) s, false)
  | none ↦ elim s.attr as (λ o. Client × Bool) [
    | some a ↦ init_stack a new_stack s
    | none ↦ elim new_attr as (λ d. Client × Bool) [
      | opened a ↦ init_stack a new_stack s
      | no_descriptor e ↦ (with_error "zf_attr_alloc error" (some e) s, false)
    ]
  ]
]

module _ (conf : Conf) (handler : Handler) where
  -- The end of `poll`: the connection is polled, and may be lost then.
  unfoldable pub poll_rest : ℕ → Received → Bool → Client → Client × List Event
  unfolding poll_conn is_connected
  poll_rest now r up_after s =
      let (c, es) = poll_conn conf handler now r s.conn in
      if is_connected up_after c
      then (record s { conn = c }, es)
      else (record s { conn = handler.on_disconnect c }, es ++ disconnected ∷ [])

  -- What `poll` makes of `connect`.
  unfoldable pub after_connect :
      ℕ → Received → Bool → Client → Option Bool → Client × Option (List Event)
  unfolding poll_rest
  after_connect now r up_after s none = (s, none)
  after_connect now r up_after s (some false) = (s, some (connect_failed ∷ []))
  after_connect now r up_after s (some true) =
      let (s', es) = poll_rest now r up_after (record s { conn = handler.on_connected s.conn }) in
      (s', some (connected ∷ es))

  -- `poll`, where the zocket is established or not at the begin and at the end; the events are `none`
  -- while `connect` waits.
  unfoldable pub poll : ℕ → Calls → Received → Bool → Bool → Client → Client × Option (List Event)
  unfolding connect after_connect is_connected
  poll now k r up up_after s =
      let s1 = record s {
        next_conn_ts = if conf.conn_retry_sec == 0 then never else now + conf.conn_retry_sec;
      } in
      let (s2, done) = connect conf k s1 in
      let kept = poll_rest now r up_after s in
      if is_connected up s.conn
      then (kept.0, some kept.1)
      else if ltb now s.next_conn_ts
      then (s, some [])
      else after_connect now r up_after s2 done
