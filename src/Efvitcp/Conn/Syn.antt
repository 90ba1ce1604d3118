-- ===== src/Efvitcp/Conn/Syn.antt =====
-- The answer to a SYN: `onSyn` and `onEstablished` of efvitcp/TcpConn.h.
-- A frame is the memory behind its Ethernet header, with the IP header at 14.
use pollnet.Base.{
  ℕ, zero, suc, ◌+◌, ◌-◌, ◌*◌, ◌/◌, ◌%◌, ◌^◌, Bool, true, false, not, ◌&&◌, ltb, leb, ◌==◌,
  if◌then◌else◌, min, max,
}
use pollnet.Base.Word.{add32, sub32}
use pollnet.Base.Buf.{Buf, memcpy}
use pollnet.Wire.{swap16, swap32, le16, le32, sequence_number, data_offset, syn_flag}
use pollnet.Efvitcp.Csum.{add16, sub_word}
use pollnet.Efvitcp.Conn.{Conf, SendBuf, Snd, Conn, Handler, on_established, tell}
use pollnet.Efvitcp.Conn.Bufs.{
  offset_flags, get_send_buf, set_send_buf, has_stamps, update_rto, update_both_wnd_seq,
}

module _ (conf : Conf) where
  -- What `onSyn` does with an option of kind 2, 3 or 8 whose contents begin at `p`.
  unfoldable pub on_option : Buf → ℕ → ℕ → ℕ → Conn → Conn
  on_option d kind len p c =
      if (kind == 2) && (len == 4)
      then record c {
        snd = record c.snd { smss = min ((conf.send_mtu - 40) % 2 ^ 16) (swap16 (le16 d p)) };
      }
      else if (kind == 3) && (conf.window_scale && (len == 3))
      then record c { has_ws = true; send_wnd_shift = min 14 (d p) }
      else if (kind == 8) && (conf.timestamp && (len == 10))
      then record c { has_ts = true; recent_ts = swap32 (le32 d p) }
      else c

  -- `while (opt < data)`
  unfoldable pub read_options : ℕ → Buf → ℕ → ℕ → Conn → Conn
  unfolding on_option
  read_options zero d opt end c = c
  read_options (suc fuel) d opt end c =
      let kind = d opt in
      let len = d (opt + 1) in
      let is_short = leb kind 1 in
      let opt' = if is_short then opt + 1 else opt + 2 + (len - 2) in
      let c' = if is_short then c else on_option d kind len (opt + 2) c in
      let rest = read_options fuel d opt' end c' in if ltb opt end then rest else c

  -- The state before the options are read, and what the missing ones mean.
  unfoldable pub begin_syn : Buf → Conn → Conn
  begin_syn d c = record c {
    rcv = record c.rcv { recv_buf_seq = add32 (swap32 (sequence_number d)) 1 };
    pending_ack = true;
    has_ws = false;
    has_ts = false;
  }

  unfoldable pub settle_options : Conn → Conn
  unfolding sub_word
  settle_options c =
      let c2 = if c.has_ws then c else record c { recv_wnd_shift = 0 } in
      let s = c2.snd in
      if not conf.timestamp
      then c2
      else if c2.has_ts
      then record c2 { snd = record s { smss = sub32 s.smss 12 } }
      else record c2 { tcpsum = sub_word c2.tcpsum (le32 (get_send_buf conf s.send_una s).area 0) }

  unfoldable pub on_syn : Buf → Conn → Conn
  unfolding begin_syn read_options settle_options
  on_syn d c =
      let end = 34 + data_offset d * 4 in
      settle_options (read_options (end - 54) d 54 end (begin_syn d c))

  -- The headers of the buffers that are not in use yet, copied from the first one.
  abbrev pub fill_bufs : Bool → SendBuf → Snd → Snd
  fill_bufs stamps syn s = record s {
    bufs = λ i.
        let b = s.bufs i in
        if leb s.send_next i && ltb i conf.conn_send_buf_cnt
        then record b {
          dst_mac = syn.dst_mac;
          dst_ip = syn.dst_ip;
          src_port = syn.src_port;
          dst_port = syn.dst_port;
          offset_flags = syn.offset_flags;
          area = if stamps then memcpy b.area 0 syn.area 4 else b.area;
        }
        else b;
  }

  -- `tcp_hdr->window_size`, scaled unless the frame is a SYN.
  abbrev pub peer_window : Buf → Conn → ℕ
  peer_window d c =
      let size = swap16 (le16 d 48) in
      if conf.window_scale && (syn_flag d == 0) then size * 2 ^ c.send_wnd_shift % 2 ^ 32 else size

module _ (conf : Conf) (now_ts : ℕ) where
  unfoldable pub on_establish : Handler → Buf → Conn → Conn
  unfolding update_both_wnd_seq update_rto tell
  on_establish h d c =
      let s = record c.snd { send_wnd_seq = add32 (swap32 (le32 d 42)) (peer_window conf d c) } in
      let cwnd = s.smss * (if ltb 1095 s.smss then 3 else 4) % 2 ^ 32 in
      let cong =
        if conf.congestion == 0 then c.cong else record c.cong { cwnd = cwnd; ssthresh = 2 ^ 30 } in
      let c1 = update_both_wnd_seq conf (record c { snd = s; cong = cong }) in
      let s1 = c1.snd in
      let stamps = has_stamps conf c1 in
      let b = get_send_buf conf s1.send_una s1 in
      let flags = offset_flags (if stamps then 8 else 5) false false false true true in
      let syn = record b { offset_flags = flags } in
      let srtt = max 1 (sub32 now_ts syn.send_ts) in
      let c2 = update_rto conf (record c1 {
        established = true;
        tcpsum = add16 c1.tcpsum flags;
        srtt = srtt;
        rttvar = srtt / 2;
        snd = fill_bufs conf stamps syn (set_send_buf conf s1.send_una syn s1);
      }) in
      tell h on_established c2
