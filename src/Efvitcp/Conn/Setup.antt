-- ===== src/Efvitcp/Conn/Setup.antt =====
-- How a connection begins: `reset` and `sendSyn` of efvitcp/TcpConn.h.
use pollnet.Base.{
  ℕ, zero, suc, ◌+◌, ◌-◌, ◌*◌, ◌/◌, ◌%◌, ◌^◌, true, false, ◌&&◌, List, [], ◌∷◌, ◌++◌, length, ◌==◌,
  if◌then◌else◌, min,
}
use pollnet.Base.Buf.{Buf, memcpy, of_list}
use pollnet.Wire.{swap16, swap32}
use pollnet.Segs.{seg}
use pollnet.Efvitcp.Csum.{add16, add_word, add_bytes}
use pollnet.Efvitcp.Table.{conn_hash_key}
use pollnet.Efvitcp.Conn.{Conf, SendBuf, Conn}
use pollnet.Efvitcp.Conn.Bufs.{
  offset_flags, get_send_buf, set_send_buf, has_stamps, send_buf, advance_next,
}

-- `getMSB`, on fuel: 32 rounds empty a 32-bit number.
unfoldable pub get_msb : ℕ → ℕ → ℕ
get_msb zero n = 0
get_msb (suc fuel) n = let rest = get_msb fuel (n / 2) in if n == 0 then 0 else suc rest

-- `ipsum.add<sizeof(IpHeader)>`, of a header whose other fields are as `Core::init` fills them.
abbrev pub add_words : ℕ → List ℕ → ℕ
add_words sum [] = sum
add_words sum (w ∷ ws) = add_words (add16 sum w) ws

abbrev pub ip_words : SendBuf → List ℕ
ip_words b =
    0x45
    ∷ b.tot_len
    ∷ 0
    ∷ swap16 0x4000
    ∷ (64 + 256 * 6)
    ∷ b.ip_checksum
    ∷ (b.src_ip % 2 ^ 16)
    ∷ (b.src_ip / 2 ^ 16)
    ∷ (b.dst_ip % 2 ^ 16)
    ∷ (b.dst_ip / 2 ^ 16)
    ∷ []

-- The two NOPs before the timestamp option, with its kind and length.
abbrev pub stamp_header : List ℕ
stamp_header = 1 ∷ 1 ∷ 8 ∷ 10 ∷ []

module _ (conf : Conf) (now_ts : ℕ) where
  -- The first buffer, addressed, with the initial sequence number: the source address is in it.
  unfoldable pub syn_addressed : ℕ → Buf → ℕ → ℕ → SendBuf → SendBuf
  unfolding conn_hash_key
  syn_addressed src_port_be dst_mac dst_ip dst_port_be b = record b {
    dst_mac = dst_mac;
    dst_ip = dst_ip;
    tot_len = 0;
    ip_checksum = 0;
    src_port = src_port_be;
    dst_port = dst_port_be;
    seq_num = swap32 ((conn_hash_key dst_ip dst_port_be + now_ts) % 2 ^ 32);
    area = if conf.timestamp then memcpy b.area 0 (of_list stamp_header) 4 else b.area;
  }

module _ (conf : Conf) where
  -- The sum of the pseudo header, the ports and the header of the timestamp option.
  unfoldable pub initial_tcpsum : SendBuf → ℕ
  unfolding add_word add_bytes
  initial_tcpsum b =
      let sum = add16 (add_word (add_word 0 b.src_ip) b.dst_ip) (swap16 0x6) in
      let sum = add16 (add16 sum b.src_port) b.dst_port in
      if conf.timestamp then add_bytes sum b.area 0 2 else sum

module _ (conf : Conf) (now_ts : ℕ) where
  unfoldable pub reset : ℕ → Buf → ℕ → ℕ → Conn → Conn
  unfolding syn_addressed initial_tcpsum get_msb
  reset src_port_be dst_mac dst_ip dst_port_be c =
      let b =
        syn_addressed conf now_ts src_port_be dst_mac dst_ip dst_port_be
          (get_send_buf conf 0 c.snd) in
      let s = set_send_buf conf 0 b c.snd in
      let shift = min 14 (get_msb 32 conf.conn_recv_buf_size - 16) in
      record c {
        snd = record s {
          send_una = 0;
          send_next = 0;
          data_next = 1;
          data_next_size = 0;
          data_sum = 0;
          smss = 536;
          send_wnd_seq = swap32 b.seq_num;
        };
        rcv = record c.rcv { segs = seg 0 0 ∷ []; recv_buf_seq = 0 };
        cong = record c.cong {
          fast_re = false;
          cong_av = false;
          in_recover = false;
          dup_ack_cnt = 0;
        };
        established = false;
        fin_sent = false;
        fin_received = false;
        pending_ack = false;
        has_ws = conf.window_scale;
        has_ts = conf.timestamp;
        retries = 0;
        recv_wnd_shift = if conf.window_scale then shift else c.recv_wnd_shift;
        send_wnd_shift = if conf.window_scale then 0 else c.send_wnd_shift;
        recent_ts = if conf.timestamp then 0 else c.recent_ts;
        ipsum = add_words 0 (ip_words b);
        tcpsum = initial_tcpsum conf b;
      }

module _ (conf : Conf) where
  -- The options that `sendSyn` writes behind those of the timestamp: MSS, and the window scale.
  abbrev pub syn_options : Conn → List ℕ
  syn_options c =
      (2 ∷ 4 ∷ 1460 / 256 ∷ 1460 % 256 ∷ [])
      ++ (if conf.window_scale && c.has_ws then 1 ∷ 3 ∷ 3 ∷ c.recv_wnd_shift ∷ [] else [])

module _ (conf : Conf) (now_ts : ℕ) where
  -- The SYN is written and sent.
  unfoldable pub send_syn_buf : Conn → Conn
  unfolding add_bytes send_buf
  send_syn_buf c =
      let s = c.snd in
      let b = get_send_buf conf s.send_next s in
      let opts = syn_options conf c in
      let at = if has_stamps conf c then 12 else 0 in
      let area = memcpy b.area at (of_list opts) (length opts) in
      let flags = offset_flags ((at + length opts + 20) / 4) false true false false c.pending_ack in
      let sum = add16 (add_bytes 0 area at (length opts / 2)) flags in
      let s' = set_send_buf conf s.send_next (record b { offset_flags = flags; area = area }) s in
      send_buf conf now_ts (length opts) sum s.send_next (record c { rto = 1000; snd = s' })

  unfoldable pub send_syn : Conn → Conn
  unfolding send_syn_buf advance_next
  send_syn c = advance_next conf now_ts 1 (send_syn_buf c)
