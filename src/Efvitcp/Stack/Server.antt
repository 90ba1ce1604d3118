-- ===== src/Efvitcp/Stack/Server.antt =====
-- `TcpServer` of efvitcp/TcpServer.h.
use Prim.Native.String.{String}
use pollnet.Base.{ℕ, zero, suc, ◌+◌, Bool, false, not, ◌&&◌, ◌||◌, Option, ◌==◌, if◌then◌else◌}
use pollnet.Base.Word.{add32}
use pollnet.Base.Buf.{Buf, shift}
use pollnet.Wire.{le16, le32, swap32}
use pollnet.Segs.{at}
use pollnet.Efvitcp.Conn.{Conf, Handler}
use pollnet.Efvitcp.Conn.Bufs.{get_send_buf}
use pollnet.Efvitcp.Conn.Send.{on_close, close}
use pollnet.Efvitcp.Conn.Setup.{reset, send_syn}
use pollnet.Efvitcp.Conn.Syn.{on_syn, on_establish}
use pollnet.Efvitcp.Conn.Ack.{resend_una}
use pollnet.Efvitcp.Conn.Pack.{flag, on_pack}
use pollnet.Efvitcp.Core as CoreMod
use pollnet.Efvitcp.Core.{Core, add_entry}
use pollnet.Efvitcp.Core.Replies.{rsp_rst}
use pollnet.Efvitcp.Filter.{Added, del_filter, set_server_filter}
use pollnet.Efvitcp.Stack.{Stack, with_core, call}

-- `listen`, with the port in network order
unfoldable pub listen : ℕ → Bool → Added → Stack → Stack × Option String
unfolding set_server_filter
listen port_be specified result s =
    let f = set_server_filter port_be specified result s.filters in
    (record s { filters = f.filters }, f.err)

-- `foreachConn`: what the handler does to each established connection.
unfoldable pub foreach_conn : ℕ → (ℕ → Stack → Stack) → Stack → Stack
foreach_conn zero f s = s
foreach_conn (suc n) f s =
    let s' = foreach_conn n f s in if (s'.conns n).established then f n s' else s'

module _ (core_conf : CoreMod.Conf) (conf : Conf) where
  -- `close`: the connections in order, then the filter.
  unfoldable pub close_conns : ℕ → Stack → Stack
  unfolding call close
  close_conns zero s = s
  close_conns (suc n) s =
      let s' = close_conns n s in call core_conf conf n (close conf s'.core.wheel.now_ts) s'

  unfoldable pub close_server : Stack → Stack
  unfolding close_conns del_filter
  close_server s =
      let s' = close_conns core_conf.max_conn_cnt s in record s' { filters = del_filter s'.filters }

module _ (core_conf : CoreMod.Conf) (conf : Conf) (h : Handler) (allow : ℕ → ℕ → Bool)
    (server_port_be : ℕ) where
  -- A SYN takes a free connection, which answers it.
  unfoldable pub accept : ℕ → ℕ → Buf → Stack → Stack
  unfolding call add_entry reset on_syn send_syn
  accept key i d s =
      let now = s.core.wheel.now_ts in
      let id = s.core.conns s.core.conn_cnt in
      let c = record s.core { conn_cnt = s.core.conn_cnt + 1 } in
      call core_conf conf id
        (λ c.
          send_syn conf now
            (on_syn conf d (reset conf now server_port_be (shift d 6) (le32 d 26) (le16 d 34) c)))
        (record s { core = add_entry core_conf i key id c })

  -- A frame from a peer that has no connection.
  unfoldable pub on_stranger : ℕ → ℕ → Buf → Stack → Stack
  unfolding rsp_rst accept
  on_stranger key i d s =
      if flag 2 d
      then s
      else if flag 4 d
          || (not (flag 1 d)
              || ((s.core.conn_cnt == core_conf.max_conn_cnt)
                  || not (allow (le32 d 26) (le16 d 34))))
      then with_core (rsp_rst d) s
      else accept key i d s

  -- A frame in SYN-RECEIVED.
  unfoldable pub on_syn_received : ℕ → Buf → Stack → Stack
  unfolding call resend_una on_close rsp_rst on_establish on_pack
  on_syn_received id d s =
      let now = s.core.wheel.now_ts in
      let c = s.conns id in
      let expected = add32 c.rcv.recv_buf_seq (at c.rcv.segs 0).second in
      if flag 1 d && not (flag 4 d)
      then call core_conf conf id (resend_una conf now false) s
      else if flag 2 d && (swap32 (le32 d 38) == expected)
      then call core_conf conf id (on_close conf false) s
      else if not (flag 4 d)
      then s
      else if not (le32 d 42 == (get_send_buf conf c.snd.send_next c.snd).seq_num)
      then with_core (rsp_rst d) s
      else call core_conf conf id (λ c. on_pack conf now h d (on_establish conf now h d c)) s

  -- What `poll` hands to `pollNet`.
  unfoldable pub on_frame : ℕ → ℕ → Buf → Stack → Stack
  unfolding on_stranger on_syn_received call on_pack
  on_frame key i d s =
      let e = s.core.conn_tbl i in
      if not (e.key == key)
      then on_stranger key i d s
      else if not (s.conns e.conn_id).established
      then on_syn_received e.conn_id d s
      else call core_conf conf e.conn_id (on_pack conf s.core.wheel.now_ts h d) s
