-- ===== src/Efvitcp/Stack/Tests.antt =====
-- A client's connection that is refused, and its filter, at concrete values.
use pollnet.Base.{
  ℕ, ◌+◌, ◌/◌, ◌%◌, ◌^◌, ◌≡◌, ◌≢◌, ◌==◌, refl, true, none, some, not, List, length, count, [], ◌∷◌,
  arith, if◌then◌else◌,
}
use pollnet.Base.Buf.{Buf}
use pollnet.Efvitcp.Table.{conn_hash_key}
use pollnet.Efvitcp.Conn.{SendBuf, is_closed}
use pollnet.Efvitcp.Conn.Setup.{reset, send_syn}
use pollnet.Efvitcp.Conn.Examples.{conf, blank, handler, begun, opening}
use pollnet.Efvitcp.Core.{Core, init_tables}
use pollnet.Efvitcp.Core.Replies.{init_rst, rsp_rst}
use pollnet.Efvitcp.Core.Ids.{IsIds}
use pollnet.Efvitcp.Core.Open.{open_entry}
use pollnet.Efvitcp.Core.Steps.{Step, opens, here, next, Reach-IsIds}
use pollnet.Efvitcp.Core.Examples.{core_conf, start, ready}
use pollnet.Efvitcp.Filter.{
  Filters, given, added, exists, refused, Round, set_client_filter, set_server_filter,
}
use pollnet.Efvitcp.Filter.Install.{IsInstalled, set_client_filter-IsInstalled}
use pollnet.Efvitcp.Stack.{Stack, conn_key}
use pollnet.Efvitcp.Stack as StackMod
use pollnet.Efvitcp.Stack.Client.{on_syn_sent}
use pollnet.Efvitcp.Core.Poll.{NetEvent, rx, rx_discard, tx, other}
use pollnet.Efvitcp.Core.Polled.{rx_ids}
use pollnet.Efvitcp.Stack.Frames.{poll_client, poll_server}
use pollnet.Efvitcp.Stack.Recycled.{poll_client-poll_server}
use pollnet.Efvitcp.Stack.Syn.{Carries, sent_syn}
use pollnet.Efvitcp.Stack.Refuse.{answer, rsp_rst-on_syn_sent}

-- A frame with a buffer's number, flags and length.
abbrev frame_of : SendBuf → Buf
frame_of b i =
    if i == 16
    then b.tot_len % 256
    else if i == 17
    then b.tot_len / 256
    else if i == 38
    then b.seq_num % 256
    else if i == 39
    then b.seq_num / 256 % 256
    else if i == 40
    then b.seq_num / 2 ^ 16 % 256
    else if i == 41
    then b.seq_num / 2 ^ 24
    else if i == 42
    then b.ack_num % 256
    else if i == 43
    then b.ack_num / 256 % 256
    else if i == 44
    then b.ack_num / 2 ^ 16 % 256
    else if i == 45
    then b.ack_num / 2 ^ 24
    else if i == 46
    then b.offset_flags % 256
    else b.offset_flags / 256

frame_of-Carries : (b : SendBuf) → Carries (frame_of b) b
frame_of-Carries b = record {
  total = omega arith;
  seq = omega arith;
  ack = omega arith;
  offset = omega arith;
  flags = refl;
}

abbrev server : ℕ
server = conn_key conf opening

abbrev opened : Core
opened = open_entry core_conf server (init_tables core_conf start)

opened_step : Step core_conf (init_tables core_conf start) opened
unfolding init_tables reset send_syn conn_hash_key
opened_step =
    opens (init_tables core_conf start) server 32 (omega arith) (omega arith) (omega arith)
      (λ p e. absurd (omega (arith, e))) refl (omega arith) (omega arith)

opened-IsIds : IsIds core_conf opened
opened-IsIds = Reach-IsIds core_conf start (next here opened_step)

abbrev no_filters : Filters
no_filters = record { cookie = none; lost = [] }

abbrev client : Stack
client = record { core = opened; conns = λ i. opening; told = []; filters = no_filters }

abbrev syn : SendBuf
syn = sent_syn conf 1000 begun blank

abbrev rst : SendBuf
rst = answer blank (rsp_rst (frame_of syn) ready).sent

rsp_rst-on_syn_sent_example :
    let s' = on_syn_sent core_conf conf handler (frame_of rst) client in
    (s'.told ≡ StackMod.refused ∷ client.told)
    × (is_closed (s'.conns 0) ≡ true)
    × IsIds core_conf s'.core
    × ((q : ℕ) → (s'.core.conn_tbl q).key ≢ conn_key conf (client.conns 0))
unfolding init_tables reset send_syn open_entry init_rst is_closed conn_hash_key
rsp_rst-on_syn_sent_example =
    rsp_rst-on_syn_sent core_conf conf handler 1000 31 32 begun blank ready (frame_of syn)
      (frame_of rst) client refl refl refl (omega arith) refl (frame_of-Carries syn)
      (frame_of-Carries rst) (omega arith) opened-IsIds refl (λ e. absurd (omega (arith, e)))
      (omega arith) refl (omega arith)

-- The first port that the system offers has a filter already.
abbrev offers : ℕ → Round
offers i = record {
  offered = given (1000 + i);
  specified = true;
  result = if i == 0 then exists else added;
}

-- A filter from before.
abbrev old_filters : Filters
old_filters = record { cookie = some (record { local_port = 7; remote = none }); lost = [] }

set_client_filter-IsInstalled_example :
    let s = set_client_filter 0 (33554442, 0x1f90) offers old_filters in
    IsInstalled old_filters (some (33554442, 0x1f90)) s
    × (◌≢◌ {A = ℕ} 0 0 → s.local_port ≡ 0)
    × IsInstalled old_filters none (set_server_filter 0 true refused old_filters)
set_client_filter-IsInstalled_example =
    set_client_filter-IsInstalled 0 (33554442, 0x1f90) offers true refused old_filters

abbrev polled : List NetEvent
polled = rx 3 (frame_of rst) ∷ tx (8 ∷ 1 ∷ []) ∷ rx_discard 4 ∷ other ∷ rx 5 (λ i. 0) ∷ []

poll_client-poll_server_example :
    let (c', c_pushed) = poll_client core_conf conf handler polled client in
    let (s', s_pushed) = poll_server core_conf conf handler (λ ip p. true) 0x1f90 polled client in
    ((x : ℕ)
      → (count x c'.core.recycled ≡ count x client.core.recycled + count x (rx_ids polled))
        × (count x s'.core.recycled ≡ count x client.core.recycled + count x (rx_ids polled)))
    × (c_pushed ≡ not (length (rx_ids polled) == 0))
    × (s_pushed ≡ not (length (rx_ids polled) == 0))
poll_client-poll_server_example =
    poll_client-poll_server core_conf conf handler (λ ip p. true) 0x1f90 polled client
