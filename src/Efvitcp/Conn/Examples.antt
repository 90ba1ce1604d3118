-- ===== src/Efvitcp/Conn/Examples.antt =====
-- Concrete values of `TcpConn` of efvitcp/TcpConn.h, which its tests run on.
use pollnet.Base.{◌+◌, ◌*◌, ◌/◌, true, false, none, [], ◌∷◌, length, ◌==◌}
use pollnet.Wire.{swap32}
use pollnet.Segs.{seg}
use pollnet.Efvitcp.Conn.{Conf, SendBuf, Conn, Handler}
use pollnet.Efvitcp.Conn.Setup.{reset, send_syn}

abbrev pub conf : Conf
conf = record {
  conn_send_buf_cnt = 4;
  conn_recv_buf_size = 4096;
  send_mtu = 1500;
  syn_retries = 2;
  tcp_retries = 5;
  delayed_ack_ms = 10;
  min_rto_ms = 100;
  max_rto_ms = 30000;
  window_scale = true;
  timestamp = true;
  congestion = 2;
}

abbrev pub blank : SendBuf
blank = record {
  send_ts = 0;
  avail = true;
  dst_mac = λ i. 0;
  src_ip = 16777226;
  dst_ip = 0;
  tot_len = 0;
  ip_checksum = 0;
  src_port = 0;
  dst_port = 0;
  seq_num = 0;
  ack_num = 0;
  offset_flags = 0;
  window_size = 0;
  checksum = 0;
  area = λ i. 0;
}

-- The state after the constructor: not established, and closed.
abbrev pub fresh : Conn
fresh = record {
  snd = record {
    bufs = λ i. blank;
    send_una = 0;
    send_next = 0;
    data_next = 0;
    data_next_size = 0;
    data_sum = 0;
    smss = 0;
    send_wnd_seq = 0;
    both_wnd_seq = 0;
  };
  rcv = record { segs = seg 0 0 ∷ []; recv_buf_seq = 0; recv_buf = λ i. 0 };
  cong = record {
    cwnd = 0;
    ssthresh = 0;
    fast_re = false;
    cong_av = false;
    in_recover = false;
    recover = 0;
    cong_av_ts = 0;
    dup_ack_cnt = 0;
    cubic_wmax = 0;
    cubic_k = 0;
  };
  timers = λ i. none;
  rto = 0;
  srtt = 0;
  rttvar = 0;
  established = false;
  fin_sent = false;
  fin_received = true;
  pending_ack = false;
  has_ws = false;
  has_ts = false;
  retries = 0;
  recv_wnd_shift = 0;
  send_wnd_shift = 0;
  last_ack_seq = 0;
  recent_ts = 0;
  ipsum = 0;
  tcpsum = 0;
  effects = [];
}

-- A handler that takes every other byte, and does nothing else.
abbrev pub handler : Handler
handler = record { on_event = λ e c. c; on_data = λ xs c. (c, length xs / 2) }

-- A connection that a client opens: it is reset, and then its SYN is sent.
abbrev pub begun : Conn
begun = reset conf 1000 0x5000 (λ i. 0) 33554442 0x1f90 fresh

abbrev pub opening : Conn
opening = send_syn conf 1000 begun

-- An open one in the middle of its data: two buffers in flight, one that waits.
abbrev pub busy : Conn
busy = record fresh {
  snd = record fresh.snd {
    bufs = λ i. record blank { seq_num = swap32 (100 + 10 * i); avail = i == 3 };
    send_una = 0;
    send_next = 2;
    data_next = 2;
    data_next_size = 4;
    smss = 10;
    send_wnd_seq = 200;
    both_wnd_seq = 200;
  };
  established = true;
  fin_received = false;
}
