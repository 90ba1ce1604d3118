-- ===== src/Efvitcp/Stack/Recycled.antt =====
-- The buffers that `poll` of efvitcp/TcpClient.h and of efvitcp/TcpServer.h gives back.
use pollnet.Base.{
  ℕ, ◌+◌, ◌≡◌, ◌==◌, Bool, true, false, not, ◌||◌, ◌&&◌, leb, ◌*◌, List, [], ◌∷◌, length, count,
  refl, ◌∙◌, if◌then◌else◌, inl, inr, Bool-cases,
}
use pollnet.Base.Buf.{Buf, shift}
use pollnet.Efvitcp.Conn.{Conf, Conn, SendBuf, Handler, Effect, sends, del_entry, enter_tw, reports}
use pollnet.Efvitcp.Conn.Bufs.{get_send_buf}
use pollnet.Base.Word.{add32}
use pollnet.Segs.{at}
use pollnet.Efvitcp.Conn.Ack.{resend_una}
use pollnet.Wire.{le16, le32, swap32}
use pollnet.Efvitcp.Conn.Send.{on_close}
use pollnet.Efvitcp.Conn.Setup.{reset, send_syn}
use pollnet.Efvitcp.Conn.Syn.{on_syn, on_establish}
use pollnet.Efvitcp.Conn.Pack.{flag, on_pack}
use pollnet.Efvitcp.Stack.Client.{acks_syn}
use pollnet.Efvitcp.Core as CoreMod
use pollnet.Efvitcp.Core.{
  Core, get_tbl_size, write_at, take_tw, enter_time_wait, add_entry, try_expand_conn_tbl, expand,
}
use pollnet.Efvitcp.Core.Replies.{rsp_rst, send_frame}
use pollnet.Efvitcp.Core.Poll.{NetEvent}
use pollnet.Efvitcp.Core.Polled.{rx_ids, del_entry-others, poll_net-recycles}
use pollnet.Efvitcp.Stack.{
  Stack, refused, with_core, do_effect, do_effects, finish_call, call, conn_key,
}
use pollnet.Efvitcp.Stack.Client as Client
use pollnet.Efvitcp.Stack.Server as Server
use pollnet.Efvitcp.Stack.Frames.{join, fork, tx_done, poll_client, poll_server}

-- A stack that leaves the buffers that are given back as they were.
record Keeps (s s' : Stack) : Type 0 where
  same : s'.core.recycled ≡ s.core.recycled

if-Keeps : {s x y : Stack} (b : Bool) → Keeps s x → Keeps s y → Keeps s (if b then x else y)
if-Keeps true h k = h
if-Keeps false h k = k

-- What does not touch the buffers that are given back.
rsp_rst-recycled : (d : Buf) (c : Core) → (rsp_rst d c).recycled ≡ c.recycled
unfolding rsp_rst send_frame
rsp_rst-recycled d c = elim (Bool-cases (flag 2 d || not c.rst.avail)) [
  | inl e ↦ rw e refl
  | inr e ↦ rw e refl
]

module _ (core_conf : CoreMod.Conf) where
  enter_time_wait-recycled :
      (key : ℕ) (b : SendBuf) (has_ts : Bool) (tsecr : ℕ) (c : Core)
      → (enter_time_wait core_conf key b has_ts tsecr c).recycled ≡ c.recycled
  unfolding enter_time_wait take_tw
  enter_time_wait-recycled key b has_ts tsecr c =
      elim (Bool-cases (c.tw_cnt == core_conf.max_time_wait_conn_cnt)) [
        | inl e ↦ rw e (del_entry-others core_conf key c).0
        | inr e ↦ rw e refl
      ]

  add_entry-recycled :
      (i key id : ℕ) (c : Core) → (add_entry core_conf i key id c).recycled ≡ c.recycled
  unfolding add_entry try_expand_conn_tbl expand
  add_entry-recycled i key id c = elim (Bool-cases (leb (get_tbl_size c * 2) c.tbl_mask)) [
    | inl e ↦ rw e refl
    | inr e ↦ rw e refl
  ]

  do_effects-recycled :
      (id key : ℕ) (es : List Effect) (s : Stack)
      → (do_effects core_conf id key es s).core.recycled ≡ s.core.recycled
  unfolding do_effects do_effect
  do_effects-recycled id key [] s = refl
  do_effects-recycled id key (e ∷ es) s =
      do_effects-recycled id key es (do_effect core_conf id key e s)
      ∙ elim e as (λ e. (do_effect core_conf id key e s).core.recycled ≡ s.core.recycled) [
        | sends b ↦ refl
        | del_entry ↦ (del_entry-others core_conf key s.core).0
        | enter_tw b has_ts tsecr ↦ enter_time_wait-recycled key b has_ts tsecr s.core
        | reports e ↦ refl
      ]

  call-Keeps :
      (conf : Conf) (id : ℕ) (f : Conn → Conn) (s : Stack) → Keeps s (call core_conf conf id f s)
  unfolding call finish_call
  call-Keeps conf id f s =
      let c = f (record (s.conns id) { effects = [] }) in
      record {
        same =
            do_effects-recycled id (conn_key conf c) c.effects
              (record s { conns = write_at s.conns id c });
      }

rsp_rst-Keeps : (d : Buf) (s : Stack) → Keeps s (with_core (rsp_rst d) s)
rsp_rst-Keeps d s = record { same = rsp_rst-recycled d s.core }

itself-Keeps : (s : Stack) → Keeps s s
itself-Keeps s = record { same = refl }

module _ (core_conf : CoreMod.Conf) (conf : Conf) where
  client_syn_sent-Keeps :
      (h : Handler) (d : Buf) (s : Stack) → Keeps s (Client.on_syn_sent core_conf conf h d s)
  unfolding Client.on_syn_sent
  client_syn_sent-Keeps h d s =
      let s1 = record s { told = refused ∷ s.told } in
      let told : Keeps s (call core_conf conf 0 (on_close conf false) s1) = record {
        same = (call-Keeps core_conf conf 0 (on_close conf false) s1).same;
      } in
      let now = s.core.wheel.now_ts in
      let packs =
        call-Keeps core_conf conf 0
          (λ c. on_pack conf now h d (on_establish conf now h d (on_syn conf d c))) s in
      if-Keeps (not (acks_syn conf d (s.conns 0))) (rsp_rst-Keeps d s)
        (if-Keeps (flag 2 d) told (if-Keeps (not (flag 1 d)) (itself-Keeps s) packs))

  client-Keeps :
      (h : Handler) (key i : ℕ) (d : Buf) (s : Stack)
      → Keeps s (Client.on_frame core_conf conf h key i d s)
  unfolding Client.on_frame
  client-Keeps h key i d s = if-Keeps (not ((s.core.conn_tbl i).key == key)) (rsp_rst-Keeps d s) (
      if-Keeps (not (s.conns 0).established) (client_syn_sent-Keeps h d s)
        (call-Keeps core_conf conf 0 (on_pack conf s.core.wheel.now_ts h d) s))

module _ (core_conf : CoreMod.Conf) (conf : Conf) (h : Handler) (allow : ℕ → ℕ → Bool)
    (server_port_be : ℕ) where
  accept-Keeps :
      (key i : ℕ) (d : Buf) (s : Stack)
      → Keeps s (Server.accept core_conf conf h allow server_port_be key i d s)
  unfolding Server.accept
  accept-Keeps key i d s =
      let now = s.core.wheel.now_ts in
      let id = s.core.conns s.core.conn_cnt in
      let c : Core = record s.core { conn_cnt = s.core.conn_cnt + 1 } in
      let s1 : Stack = record s { core = add_entry core_conf i key id c } in
      let called =
        call-Keeps core_conf conf id
          (λ c.
            send_syn conf now
              (on_syn conf d (reset conf now server_port_be (shift d 6) (le32 d 26) (le16 d 34) c)))
          s1 in
      record { same = called.same ∙ add_entry-recycled core_conf i key id c }

  stranger-Keeps :
      (key i : ℕ) (d : Buf) (s : Stack)
      → Keeps s (Server.on_stranger core_conf conf h allow server_port_be key i d s)
  unfolding Server.on_stranger
  stranger-Keeps key i d s = if-Keeps (flag 2 d) (itself-Keeps s) (
      if-Keeps
        (flag 4 d
          || (not (flag 1 d)
              || ((s.core.conn_cnt == core_conf.max_conn_cnt)
                  || not (allow (le32 d 26) (le16 d 34)))))
        (rsp_rst-Keeps d s) (accept-Keeps key i d s))

  syn_received-Keeps :
      (id : ℕ) (d : Buf) (s : Stack)
      → Keeps s (Server.on_syn_received core_conf conf h allow server_port_be id d s)
  unfolding Server.on_syn_received
  syn_received-Keeps id d s =
      let now = s.core.wheel.now_ts in
      let c = s.conns id in
      let expected = add32 c.rcv.recv_buf_seq (at c.rcv.segs 0).second in
      let next_seq = (get_send_buf conf c.snd.send_next c.snd).seq_num in
      if-Keeps (flag 1 d && not (flag 4 d))
        (call-Keeps core_conf conf id (resend_una conf now false) s)
        (if-Keeps (flag 2 d && (swap32 (le32 d 38) == expected))
          (call-Keeps core_conf conf id (on_close conf false) s)
          (if-Keeps (not (flag 4 d)) (itself-Keeps s) (
            if-Keeps (not (le32 d 42 == next_seq)) (rsp_rst-Keeps d s) (
              call-Keeps core_conf conf id (λ c. on_pack conf now h d (on_establish conf now h d c))
                s))))

  server-Keeps :
      (key i : ℕ) (d : Buf) (s : Stack)
      → Keeps s (Server.on_frame core_conf conf h allow server_port_be key i d s)
  unfolding Server.on_frame
  server-Keeps key i d s =
      let e = s.core.conn_tbl i in
      if-Keeps (not (e.key == key)) (stranger-Keeps key i d s) (
        if-Keeps (not (s.conns e.conn_id).established) (syn_received-Keeps e.conn_id d s)
          (call-Keeps core_conf conf e.conn_id (on_pack conf s.core.wheel.now_ts h d) s))

-- Whatever the adapter polls, and whatever the user's handler does: a poll of a client, and one of a
-- server, gives the adapter each buffer back that it came with, once, discarded ones, those of
-- strangers and those for connections in TIME_WAIT included, and no other; and it pushes them
-- exactly if there is one.
pub poll_client-poll_server :
    (core_conf : CoreMod.Conf) (conf : Conf) (h : Handler) (allow : ℕ → ℕ → Bool)
    (server_port_be : ℕ) (es : List NetEvent) (s : Stack)
    → let (c', c_pushed) = poll_client core_conf conf h es s in
      let (s', s_pushed) = poll_server core_conf conf h allow server_port_be es s in
      ((x : ℕ)
        → (count x c'.core.recycled ≡ count x s.core.recycled + count x (rx_ids es))
          × (count x s'.core.recycled ≡ count x s.core.recycled + count x (rx_ids es)))
      × (c_pushed ≡ not (length (rx_ids es) == 0))
      × (s_pushed ≡ not (length (rx_ids es) == 0))
unfolding poll_client poll_server
poll_client-poll_server core_conf conf h allow server_port_be es s =
    let (a, b) =
      poll_net-recycles core_conf
        (λ key i d t. fork (Client.on_frame core_conf conf h key i d (join t))) (tx_done conf)
        (λ key i d t. (client-Keeps core_conf conf h key i d (join t)).same) es (fork s) in
    let (c, d) =
      poll_net-recycles core_conf
        (λ key i d t. fork (Server.on_frame core_conf conf h allow server_port_be key i d (join t)))
        (tx_done conf)
        (λ key i d t. (server-Keeps core_conf conf h allow server_port_be key i d (join t)).same) es
        (fork s) in
    (λ x. (a x, c x), b, d)
