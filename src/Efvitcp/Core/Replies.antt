-- ===== src/Efvitcp/Core/Replies.antt =====
-- The frames that efvitcp/Core.h sends by itself, from the last send buffer: `sumRst`, `rspRst`,
-- `ackTW` and `send`.
use pollnet.Base.{ℕ, ◌+◌, ◌*◌, ◌/◌, ◌%◌, Bool, true, false, not, ◌||◌, ◌∷◌, if◌then◌else◌}
use pollnet.Base.Word.{add32, sub32}
use pollnet.Base.Buf.{Buf, memcpy, shift, of_list}
use pollnet.Wire.{swap16, swap32, le16, le32, total_length, data_offset, syn_flag}
use pollnet.Efvitcp.Csum.{add16, add_word, add_bytes, set_opt_data_len}
use pollnet.Efvitcp.Conn.{SendBuf}
use pollnet.Efvitcp.Conn.Bufs.{bit, put32}
use pollnet.Efvitcp.Conn.Pack.{flag}
use pollnet.Efvitcp.Conn.Setup.{add_words, ip_words, stamp_header}
use pollnet.Efvitcp.Core.{TimeWaitConn, Core}

-- `offset_flags` with the given `data_offset`, `rst` and `ack`, and the other bits as they are.
abbrev pub with_flags : ℕ → Bool → Bool → ℕ → ℕ
with_flags data_offset rst ack flags =
    flags % 16
    + 16 * data_offset
    + 256 * (flags / 256 % 4)
    + 1024 * bit rst
    + 2048 * (flags / 2048 % 2)
    + 4096 * bit ack
    + 8192 * (flags / 8192)

-- The end of `init`: what is common to the sums of these frames, and the timestamp option's header.
unfoldable pub init_rst : Core → Core
unfolding add_word add16
init_rst c = record c {
  rst = record c.rst { area = memcpy c.rst.area 0 (of_list stamp_header) 4 };
  rst_ipsum = add_words 0 (ip_words c.rst);
  rst_tcpsum = add16 (add_word 0 c.rst.src_ip) (swap16 0x6);
}

-- `sumRst`
unfoldable pub sum_rst : ℕ → ℕ → Bool → SendBuf → SendBuf
unfolding add_word add16 add_bytes set_opt_data_len
sum_rst rst_ipsum rst_tcpsum has_ts b =
    let ipsum = add_word rst_ipsum b.dst_ip in
    let tcpsum = add16 (add16 (add_word rst_tcpsum b.dst_ip) b.src_port) b.dst_port in
    let tcpsum = add16 (add_word (add_word tcpsum b.seq_num) b.ack_num) b.offset_flags in
    let tcpsum = if has_ts then add_bytes tcpsum b.area 0 6 else tcpsum in
    let (tot_len, ip, tcp) = set_opt_data_len (if has_ts then 12 else 0) ipsum tcpsum in
    record b { tot_len = tot_len; ip_checksum = ip; checksum = tcp }

-- `send`
unfoldable pub send_frame : SendBuf → Core → Core
send_frame b c = record c { sent = b ∷ c.sent; rst = record b { avail = false } }

-- `ntohs(ip_hdr->tot_len) - 20 - (tcp_hdr->data_offset << 2) + tcp_hdr->syn + tcp_hdr->fin`
abbrev pub seg_len : Buf → ℕ
seg_len d =
    add32 (sub32 (sub32 (swap16 (total_length d)) 20) (data_offset d * 4))
      (syn_flag d + bit (flag 0 d))

-- The buffer that answers a frame: a RST to the numbers that the other end expects.
unfoldable pub rst_buf : Buf → SendBuf → SendBuf
rst_buf d b =
    let to_ack = flag 4 d in
    record b {
      dst_mac = shift d 6;
      dst_ip = le32 d 26;
      src_port = le16 d 36;
      dst_port = le16 d 34;
      offset_flags = with_flags 5 true (not to_ack) b.offset_flags;
      seq_num = if to_ack then le32 d 42 else 0;
      ack_num = if to_ack then b.ack_num else swap32 (add32 (swap32 (le32 d 38)) (seg_len d));
    }

-- `rspRst`
unfoldable pub rsp_rst : Buf → Core → Core
unfolding rst_buf sum_rst send_frame
rsp_rst d c =
    if flag 2 d || not c.rst.avail
    then c
    else send_frame (sum_rst c.rst_ipsum c.rst_tcpsum false (rst_buf d c.rst)) c

-- The buffer that acknowledges for a connection in TIME_WAIT. The option's two words are written
-- as they are.
unfoldable pub ack_buf : ℕ → TimeWaitConn → SendBuf → SendBuf
ack_buf now_ts tw b = record b {
  dst_mac = tw.dst_mac;
  dst_ip = tw.dst_ip;
  src_port = tw.src_port;
  dst_port = tw.dst_port;
  offset_flags = with_flags (if tw.has_ts then 8 else 5) false true b.offset_flags;
  seq_num = tw.seq_num;
  ack_num = tw.ack_num;
  area = if tw.has_ts then put32 (put32 b.area 4 now_ts) 8 tw.tsecr else b.area;
}

-- `ackTW`
unfoldable pub ack_tw : TimeWaitConn → Core → Core
unfolding ack_buf sum_rst send_frame
ack_tw tw c =
    if c.rst.avail
    then send_frame (sum_rst c.rst_ipsum c.rst_tcpsum tw.has_ts (ack_buf c.wheel.now_ts tw c.rst)) c
    else c
