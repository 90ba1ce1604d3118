-- ===== src/Efvitcp/Stack/Frames.antt =====
-- The frames that `poll` of efvitcp/TcpClient.h and of efvitcp/TcpServer.h take from `pollNet`.
use pollnet.Base.{ℕ, ◌/◌, Bool, true, List}
use pollnet.Efvitcp.Conn.{Conf, Handler}
use pollnet.Efvitcp.Conn.Bufs.{get_send_buf, set_send_buf}
use pollnet.Efvitcp.Stack.Client.{acks_syn}
use pollnet.Efvitcp.Core as CoreMod
use pollnet.Efvitcp.Core.{
  Core, get_tbl_size, write_at, take_tw, enter_time_wait, add_entry, try_expand_conn_tbl, expand,
}
use pollnet.Efvitcp.Core.Poll.{NetEvent, poll_net}
use pollnet.Efvitcp.Stack.{Stack}
use pollnet.Efvitcp.Stack.Client as Client
use pollnet.Efvitcp.Stack.Server as Server

-- A stack's core, and the rest of it with a core that is not looked at.
abbrev pub join : Core × Stack → Stack
join (c, s) = record s { core = c }

abbrev pub fork : Stack → Core × Stack
fork s = (s.core, s)

module _ (conf : Conf) where
  -- `getSendBuf(send_id)->avail = true`, for a connection's buffer.
  unfoldable pub tx_done : ℕ → Stack → Stack
  tx_done id s =
      let n = id / conf.conn_send_buf_cnt in
      let c = s.conns n in
      let b = get_send_buf conf id c.snd in
      record s {
        conns =
            write_at s.conns n
              (record c { snd = set_send_buf conf id (record b { avail = true }) c.snd });
      }

module _ (core_conf : CoreMod.Conf) (conf : Conf) (h : Handler) where
  -- The second half of `TcpClient::poll`, and whether buffers are pushed.
  unfoldable pub poll_client : List NetEvent → Stack → Stack × Bool
  unfolding poll_net Client.on_frame tx_done
  poll_client es s =
      let (t, pushed) =
        poll_net core_conf (λ key i d t. fork (Client.on_frame core_conf conf h key i d (join t)))
          (tx_done conf) es (fork s) in
      (join t, pushed)

  -- The second half of `TcpServer::poll`.
  unfoldable pub poll_server : (ℕ → ℕ → Bool) → ℕ → List NetEvent → Stack → Stack × Bool
  unfolding poll_net Server.on_frame tx_done
  poll_server allow server_port_be es s =
      let (t, pushed) =
        poll_net core_conf
          (λ key i d t.
            fork (Server.on_frame core_conf conf h allow server_port_be key i d (join t)))
          (tx_done conf) es (fork s) in
      (join t, pushed)
