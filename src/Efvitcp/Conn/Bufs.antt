-- ===== src/Efvitcp/Conn/Bufs.antt =====
-- The send buffers of `TcpConn` and what is written to them when one is sent: efvitcp/TcpConn.h.
use pollnet.Base.{
  ℕ, zero, suc, ◌+◌, ◌-◌, ◌*◌, ◌/◌, ◌%◌, ◌^◌, Bool, true, false, ◌&&◌, Option, none, some, ◌==◌,
  if◌then◌else◌, min, max,
}
use pollnet.Base.Word.{add32, sub32, is_neg32}
use pollnet.Base.Buf.{Buf, memcpy}
use pollnet.Wire.{swap16, swap32}
use pollnet.Segs.{at}
use pollnet.Efvitcp.Csum.{add16, add_word, set_opt_data_len}
use pollnet.Efvitcp.Conn.{Conf, SendBuf, Snd, Conn, sends, emit, set_timer}

abbrev pub bit : Bool → ℕ
bit false = 0
bit true = 1

-- The bits of `offset_flags`, after the low nibble `reserved`.
abbrev pub offset_flags : ℕ → Bool → Bool → Bool → Bool → Bool → ℕ
offset_flags data_offset fin syn rst psh ack =
    data_offset * 16 + 256 * (bit fin + 2 * bit syn + 4 * bit rst + 8 * bit psh + 16 * bit ack)

-- `tcp_hdr.fin = v`, `tcp_hdr.rst = 1`
abbrev pub with_fin : Bool → SendBuf → SendBuf
with_fin v b = record b {
  offset_flags = b.offset_flags - 256 * (b.offset_flags / 256 % 2) + 256 * bit v;
}

abbrev pub with_rst : SendBuf → SendBuf
with_rst b = record b { offset_flags = b.offset_flags - 1024 * (b.offset_flags / 1024 % 2) + 1024 }

-- A 32-bit word written in the host's order.
abbrev pub put32 : Buf → ℕ → ℕ → Buf
put32 b i w = memcpy b i (λ k. w / 2 ^ (8 * k) % 256) 4

module _ (conf : Conf) where
  -- `getSendBuf`, whose count is a power of two, and a write through the pointer that it returns.
  abbrev pub slot : ℕ → ℕ
  slot idx = idx % conf.conn_send_buf_cnt

  abbrev pub get_send_buf : ℕ → Snd → SendBuf
  get_send_buf idx s = s.bufs (slot idx)

  abbrev pub set_send_buf : ℕ → SendBuf → Snd → Snd
  set_send_buf idx b s = record s { bufs = λ i. if i == slot idx then b else s.bufs i }

  abbrev pub get_send_seq : ℕ → Snd → ℕ
  get_send_seq idx s = swap32 (get_send_buf idx s).seq_num

  -- `hasTs`
  abbrev pub has_stamps : Conn → Bool
  has_stamps c = conf.timestamp && c.has_ts

  -- `getRMSS`
  abbrev pub get_rmss : Conn → ℕ
  get_rmss c = 1460 - (if has_stamps c then 12 else 0)

  unfoldable pub get_recv_window_size : Conn → ℕ
  get_recv_window_size c =
      let size = sub32 conf.conn_recv_buf_size (at c.rcv.segs 0).second in
      if conf.window_scale && c.established
      then swap16 (size / 2 ^ c.recv_wnd_shift)
      else swap16 (min 65535 size)

  unfoldable pub update_rto : Conn → Conn
  update_rto c = record c {
    rto = max conf.min_rto_ms (add32 c.srtt (max 1 (c.rttvar * 4 % 2 ^ 32)));
  }

  unfoldable pub update_both_wnd_seq : Conn → Conn
  update_both_wnd_seq c =
      let s = c.snd in
      let cwnd_seq = add32 (get_send_seq s.send_una s) c.cong.cwnd in
      if conf.congestion == 0
      then record c { snd = record s { both_wnd_seq = s.send_wnd_seq } }
      else record c {
        snd = record s {
          both_wnd_seq =
              if is_neg32 (sub32 cwnd_seq s.send_wnd_seq) then cwnd_seq else s.send_wnd_seq;
        };
      }

-- `updateLastAck`, and the number that it returns.
unfoldable pub update_last_ack : Conn → Conn × ℕ
update_last_ack c =
    let last = add32 c.rcv.recv_buf_seq (at c.rcv.segs 0).second in
    (record (set_timer 1 none c) { pending_ack = false; last_ack_seq = last }, swap32 last)

unfoldable pub start_resend_timer : Conn → Conn
start_resend_timer c = set_timer 0 (some c.rto) c

module _ (conf : Conf) (now_ts : ℕ) where
  -- `sendBuf` and `Core::send`, of the buffer of index `idx`.
  unfoldable pub send_buf : ℕ → ℕ → ℕ → Conn → Conn
  unfolding update_last_ack get_recv_window_size add16 add_word set_opt_data_len
  send_buf opt_data_size sum idx c =
      let (c', ack_num) = update_last_ack c in
      let b = get_send_buf conf idx c.snd in
      let window_size = get_recv_window_size conf c' in
      let sum = add16 (add_word (add_word sum b.seq_num) ack_num) window_size in
      let now = swap32 now_ts in
      let recent = swap32 c'.recent_ts in
      let stamps = has_stamps conf c' in
      let sum' = add32 (if stamps then add_word (add_word sum now) recent else sum) c'.tcpsum in
      let size = if stamps then opt_data_size + 12 else opt_data_size in
      let (tot_len, ip_checksum, checksum) = set_opt_data_len size c'.ipsum sum' in
      let sent = record b {
        tot_len = tot_len;
        ip_checksum = ip_checksum;
        ack_num = ack_num;
        window_size = window_size;
        checksum = checksum;
        area = if stamps then put32 (put32 b.area 4 now) 8 recent else b.area;
      } in
      emit (sends sent)
        (record c' { snd = set_send_buf conf idx (record sent { avail = false }) c'.snd })

  -- `advanceNext`
  unfoldable pub advance_next : ℕ → Conn → Conn
  unfolding start_resend_timer
  advance_next inc_seq c =
      let s = c.snd in
      let next = get_send_buf conf s.send_next s in
      let s1 = set_send_buf conf s.send_next (record next { send_ts = now_ts }) s in
      let c1 = record c { snd = s1 } in
      let c2 = if s.send_next == s.send_una then start_resend_timer c1 else c1 in
      let n = add32 s.send_next 1 in
      let after = get_send_buf conf n s1 in
      let seq = swap32 (get_send_buf conf s.send_next s1).seq_num in
      let b = record after { seq_num = swap32 (add32 seq inc_seq) } in
      record c2 { snd = record (set_send_buf conf n b s1) { send_next = n } }

-- `advanceData`
unfoldable pub advance_data : Conn → Conn
advance_data c =
    let s = c.snd in
    record c {
      snd = record s { data_next = add32 s.data_next 1; data_sum = 0; data_next_size = 0 };
    }

module _ (conf : Conf) where
  -- The search of `getAckBuf`, downwards to the buffer that is being filled.
  unfoldable pub find_avail : ℕ → ℕ → Snd → Option ℕ
  find_avail zero idx s = none
  find_avail (suc fuel) idx s =
      let rest = find_avail fuel (sub32 idx 1) s in
      if idx == sub32 s.data_next 1
      then none
      else if (get_send_buf conf idx s).avail
      then some idx
      else rest

  -- The FIN bit of the buffer that is found is cleared.
  unfoldable pub clear_fin : Conn → Option ℕ → Conn × Option ℕ
  clear_fin c none = (c, none)
  clear_fin c (some idx) =
      let s = c.snd in
      (
        record c { snd = set_send_buf conf idx (with_fin false (get_send_buf conf idx s)) s },
        some idx,
      )

  -- `getAckBuf`: a free buffer.
  unfoldable pub get_ack_buf : Conn → Conn × Option ℕ
  unfolding find_avail clear_fin
  get_ack_buf c =
      let last = sub32 (add32 c.snd.send_una conf.conn_send_buf_cnt) 1 in
      clear_fin c (find_avail conf.conn_send_buf_cnt last c.snd)
