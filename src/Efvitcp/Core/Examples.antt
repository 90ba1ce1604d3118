-- ===== src/Efvitcp/Core/Examples.antt =====
-- Concrete values of the core of efvitcp/Core.h, which the tests run on.
use pollnet.Base.{ℕ, true, []}
use pollnet.Efvitcp.Wheel.{Node}
use pollnet.Efvitcp.Conn.{SendBuf}
use pollnet.Efvitcp.Conn.Examples.{blank}
use pollnet.Efvitcp.Core.{Conf, TimeWaitConn, Core, init_tables, enter_time_wait, del_entry}
use pollnet.Efvitcp.Core.Replies.{init_rst}
use pollnet.Efvitcp.Core.Open.{open_entry}

abbrev pub core_conf : Conf
core_conf = record {
  max_conn_cnt = 2;
  max_time_wait_conn_cnt = 2;
  max_table_size = 128;
  total = 132;
  send_buf_cnt = 9;
}

-- A peer's connection in TIME_WAIT, to 10.0.0.2:80.
abbrev pub waiting : TimeWaitConn
waiting = record {
  dst_mac = λ i. 0;
  has_ts = true;
  dst_ip = 0x0200_000a;
  src_port = 0x901f;
  dst_port = 0x5000;
  seq_num = 77;
  ack_num = 99;
  tsecr = 1234;
}

-- The core as its constructor leaves it.
abbrev pub start : Core
start = record {
  conn_tbl = λ i. record { key = 0; conn_id = 0 };
  tbl_mask = 0;
  conns = λ i. 0;
  conn_cnt = 0;
  tw_ids = λ i. 0;
  tw_cnt = 0;
  tws = λ i. waiting;
  wheel = record { now_ts = 1000; short = λ i. []; long = λ i. [] };
  fired = [];
  rst = blank;
  rst_ipsum = 0;
  rst_tcpsum = 0;
  sent = [];
  recycled = [];
}

-- After `init`.
abbrev pub ready : Core
ready = init_rst (init_tables core_conf start)

-- The key of the peer, which has its entry at its home, 80.
abbrev pub peer : ℕ
peer = 5497558204496

-- The peer's connection is opened, goes into TIME_WAIT, and ends.
abbrev pub one_open : Core
one_open = open_entry core_conf peer (init_tables core_conf start)

abbrev pub peer_buf : SendBuf
peer_buf = record blank { dst_ip = 0x0200_000a; dst_port = 0x5000 }

abbrev pub one_waits : Core
one_waits = enter_time_wait core_conf (one_open.conn_tbl 80).key peer_buf true 7 one_open

abbrev pub one_ended : Core
one_ended = del_entry core_conf (one_waits.conn_tbl 80).key one_waits

abbrev pub fired_node : ℕ → Node
fired_node id = record { conn_id = id; expire_ts = 0 }
