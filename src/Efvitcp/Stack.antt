-- ===== src/Efvitcp/Stack.antt =====
-- The core with the connections over it, which efvitcp/TcpClient.h and efvitcp/TcpServer.h share: what
-- a connection asks of the core is done in the order of its effects.
pub mod Client
pub mod Server
pub mod Syn
pub mod Refuse
pub mod Frames
pub mod Recycled
mod Tests
use pollnet.Base.{ℕ, zero, suc, ◌+◌, ◌==◌, if◌then◌else◌, List, [], ◌∷◌, Option}
use pollnet.Efvitcp.Table.{conn_hash_key}
use pollnet.Efvitcp.Conn.{Conf, Conn, SendBuf, Event, Effect, sends, del_entry, enter_tw, reports}
use pollnet.Efvitcp.Conn.Bufs.{get_send_buf}
use pollnet.Efvitcp.Filter.{Filters}
use pollnet.Efvitcp.Core as CoreMod
use pollnet.Efvitcp.Core.{Core, write_at, enter_time_wait}

-- What the event handler is told: of a connection, or that there is none.
pub data Report : Type 0 where
  about : ℕ → Event → Report
  refused : Report

pub record Stack : Type 0 where
  pub core : Core
  pub conns : ℕ → Conn
  pub told : List Report
  pub filters : Filters

abbrev pub with_core : (Core → Core) → Stack → Stack
with_core f s = record s { core = f s.core }

module _ (core_conf : CoreMod.Conf) where
  -- What the connection `id` with the given key asks for.
  unfoldable pub do_effect : ℕ → ℕ → Effect → Stack → Stack
  unfolding CoreMod.del_entry enter_time_wait conn_hash_key
  do_effect id key (sends b) s = record s { core = record s.core { sent = b ∷ s.core.sent } }
  do_effect id key del_entry s = with_core (CoreMod.del_entry core_conf key) s
  do_effect id key (enter_tw b has_ts tsecr) s =
      with_core (enter_time_wait core_conf key b has_ts tsecr) s
  do_effect id key (reports e) s = record s { told = about id e ∷ s.told }

  unfoldable pub do_effects : ℕ → ℕ → List Effect → Stack → Stack
  unfolding do_effect
  do_effects id key [] s = s
  do_effects id key (e ∷ es) s = do_effects id key es (do_effect id key e s)

-- The key that `onClose` ends: the address and the port of the first buffer.
abbrev pub conn_key : Conf → Conn → ℕ
conn_key conf c = let b = get_send_buf conf 0 c.snd in conn_hash_key b.dst_ip b.dst_port

module _ (core_conf : CoreMod.Conf) (conf : Conf) where
  -- The connection `id` is `c` after a method.
  unfoldable pub finish_call : ℕ → Conn → Stack → Stack
  unfolding do_effects conn_hash_key
  finish_call id c s =
      do_effects core_conf id (conn_key conf c) c.effects
        (record s { conns = write_at s.conns id c })

  -- A method of the connection `id`.
  unfoldable pub call : ℕ → (Conn → Conn) → Stack → Stack
  unfolding finish_call
  call id f s = finish_call id (f (record (s.conns id) { effects = [] })) s
