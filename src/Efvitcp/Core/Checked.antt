-- ===== src/Efvitcp/Core/Checked.antt =====
-- The checksums of the frames that efvitcp/Core.h sends by itself.
use pollnet.Base.{
  ℕ, ◌+◌, ◌-◌, ◌*◌, ◌/◌, ◌%◌, ◌^◌, ◌<◌, ◌≡◌, Bool, true, false, not, if◌then◌else◌, arith, ap, ◌∙◌,
  Bool-cases, inl, inr,
}
use pollnet.Base.Buf.{Buf, memcpy}
use pollnet.Wire.{swap16, swap32, le32, IsBytes}
use pollnet.Efvitcp.Csum.{fold, words, add16, add_word, add_bytes, set_opt_data_len}
use pollnet.Efvitcp.Conn.{SendBuf}
use pollnet.Efvitcp.Conn.Bufs.{bit, put32}
use pollnet.Efvitcp.Conn.Pack.{flag}
use pollnet.Efvitcp.Core.{TimeWaitConn, Core}
use pollnet.Efvitcp.Core.Replies.{
  sum_rst, rst_buf, rsp_rst, ack_buf, ack_tw, send_frame, with_flags,
}

fold-add : (sum : ℕ) → sum < 2 ^ 31 → fold (sum + fold sum) ≡ 0
unfolding fold
fold-add sum h = omega arith

abbrev halves : ℕ → ℕ
halves w = w % 2 ^ 16 + w / 2 ^ 16

-- The words of the IP header, and those of the pseudo header, the TCP header and its options.
abbrev pub ip_sum : SendBuf → ℕ
ip_sum b =
    0x45
    + b.tot_len
    + swap16 0x4000
    + (64 + 256 * 6)
    + b.ip_checksum
    + halves b.src_ip
    + halves b.dst_ip

abbrev pub tcp_sum : Bool → SendBuf → ℕ
tcp_sum has_ts b =
    halves b.src_ip
    + halves b.dst_ip
    + swap16 0x6
    + swap16 (swap16 b.tot_len - 20)
    + b.src_port
    + b.dst_port
    + halves b.seq_num
    + halves b.ack_num
    + b.offset_flags
    + b.window_size
    + b.checksum
    + (if has_ts then words b.area 0 6 else 0)

-- Both fold to 0, as a receiver checks.
abbrev pub IsSummed : Bool → SendBuf → Type 0
IsSummed has_ts b = (fold (ip_sum b) ≡ 0) × (fold (tcp_sum has_ts b) ≡ 0)

-- A connection in TIME_WAIT whose fields are of their width.
pub record IsWaiting (tw : TimeWaitConn) : Type 0 where
  pub dst_ip : tw.dst_ip < 2 ^ 32
  pub src_port : tw.src_port < 2 ^ 16
  pub dst_port : tw.dst_port < 2 ^ 16
  pub seq_num : tw.seq_num < 2 ^ 32
  pub ack_num : tw.ack_num < 2 ^ 32
  pub tsecr : tw.tsecr < 2 ^ 32

-- The last buffer: its fields are of their width, and the sums are those of what stays the same.
pub record IsReady (ipsum tcpsum : ℕ) (b : SendBuf) : Type 0 where
  pub src_ip : b.src_ip < 2 ^ 32
  pub dst_ip : b.dst_ip < 2 ^ 32
  pub src_port : b.src_port < 2 ^ 16
  pub dst_port : b.dst_port < 2 ^ 16
  pub seq_num : b.seq_num < 2 ^ 32
  pub ack_num : b.ack_num < 2 ^ 32
  pub offset_flags : b.offset_flags < 2 ^ 16
  pub window_size : b.window_size ≡ 0
  pub area : IsBytes b.area
  pub ipsum_of : ipsum ≡ 0x45 + swap16 0x4000 + (64 + 256 * 6) + halves b.src_ip
  pub tcpsum_of : tcpsum ≡ halves b.src_ip + swap16 0x6

words_six : (d : Buf) → IsBytes d → words d 0 6 < 2 ^ 20
words_six d h = omega (arith, h 0, h 1, h 2, h 3, h 4, h 5, h 6, h 7, h 8, h 9, h 10, h 11)

summed : (x s : ℕ) → x < 2 ^ 31 → s ≡ x + fold x → fold s ≡ 0
summed x s h e = ap fold e ∙ fold-add x h

pub sum_rst-IsSummed :
    (ipsum tcpsum : ℕ) (has_ts : Bool) (b : SendBuf)
    → IsReady ipsum tcpsum b
    → IsSummed has_ts (sum_rst ipsum tcpsum has_ts b)
unfolding sum_rst add16 add_word add_bytes set_opt_data_len
sum_rst-IsSummed ipsum tcpsum true b r =
    let tcp = tcp_sum true (record b { tot_len = swap16 52; checksum = 0 }) in
    let l = words_six b.area r.area in
    (
      summed (ip_sum (record b { tot_len = swap16 52; ip_checksum = 0 })) _ (omega (arith, r))
          (omega (arith, r)),
      summed tcp _ (omega (arith, r, l)) (omega (arith, r, l)),
    )
sum_rst-IsSummed ipsum tcpsum false b r = (
  summed (ip_sum (record b { tot_len = swap16 40; ip_checksum = 0 })) _ (omega (arith, r))
      (omega (arith, r)),
  summed (tcp_sum false (record b { tot_len = swap16 40; checksum = 0 })) _ (omega (arith, r))
      (omega (arith, r)),
)

-- The bits that are written are read again.
pub with_flags_lem :
    (off flags : ℕ) (rst ack : Bool)
    → off < 16
    → flags < 2 ^ 16
    → let f = with_flags off rst ack flags in
      (f < 2 ^ 16) × (f / 16 % 16 ≡ off) × (f / 1024 % 2 ≡ bit rst) × (f / 4096 % 2 ≡ bit ack)
with_flags_lem off flags true true h k = omega arith
with_flags_lem off flags true false h k = omega arith
with_flags_lem off flags false true h k = omega arith
with_flags_lem off flags false false h k = omega arith

pub rst_buf-IsReady :
    (ipsum tcpsum : ℕ) (d : Buf) (b : SendBuf)
    → IsBytes d
    → IsReady ipsum tcpsum b
    → IsReady ipsum tcpsum (rst_buf d b)
unfolding rst_buf
rst_buf-IsReady ipsum tcpsum d b h r = record {
  src_ip = r.src_ip;
  dst_ip = omega (arith, h 26, h 27, h 28, h 29);
  src_port = omega (arith, h 36, h 37);
  dst_port = omega (arith, h 34, h 35);
  seq_num = ground (arith, h 42, h 43, h 44, h 45);
  ack_num = ground (arith, r.ack_num);
  offset_flags =
      (with_flags_lem 5 b.offset_flags true (not (flag 4 d)) (omega arith) r.offset_flags).0;
  window_size = r.window_size;
  area = r.area;
  ipsum_of = r.ipsum_of;
  tcpsum_of = r.tcpsum_of;
}

-- The timestamp option as a receiver reads it.
abbrev pub stamps_of : SendBuf → ℕ × ℕ
stamps_of b = (swap32 (le32 b.area 4), swap32 (le32 b.area 8))

ack_area-IsBytes : (d : Buf) (v w : ℕ) → IsBytes d → IsBytes (put32 (put32 d 4 v) 8 w)
unfolding memcpy
ack_area-IsBytes d v w h i = ground (arith, h i)

pub ack_buf-IsReady :
    (ipsum tcpsum now_ts : ℕ) (tw : TimeWaitConn) (b : SendBuf)
    → IsWaiting tw
    → IsReady ipsum tcpsum b
    → IsReady ipsum tcpsum (ack_buf now_ts tw b)
unfolding ack_buf
ack_buf-IsReady ipsum tcpsum now_ts tw b v r = record {
  src_ip = r.src_ip;
  dst_ip = v.dst_ip;
  src_port = v.src_port;
  dst_port = v.dst_port;
  seq_num = v.seq_num;
  ack_num = v.ack_num;
  offset_flags =
      (with_flags_lem (if tw.has_ts then 8 else 5) b.offset_flags false true (ground arith)
        r.offset_flags).0;
  window_size = r.window_size;
  area = elim (Bool-cases tw.has_ts) [
    | inl e ↦ rw e (ack_area-IsBytes b.area now_ts tw.tsecr r.area)
    | inr e ↦ rw e r.area
  ];
  ipsum_of = r.ipsum_of;
  tcpsum_of = r.tcpsum_of;
}

-- The frame that each of them sends.
pub rsp_rst-sends :
    (d : Buf) (c : Core)
    → flag 2 d ≡ false
    → c.rst.avail ≡ true
    → rsp_rst d c ≡ send_frame (sum_rst c.rst_ipsum c.rst_tcpsum false (rst_buf d c.rst)) c
unfolding rsp_rst
rsp_rst-sends d c e a = simp (e, a)

pub ack_tw-sends :
    (tw : TimeWaitConn) (c : Core)
    → c.rst.avail ≡ true
    → ack_tw tw c
      ≡ send_frame (sum_rst c.rst_ipsum c.rst_tcpsum tw.has_ts (ack_buf c.wheel.now_ts tw c.rst)) c
unfolding ack_tw
ack_tw-sends tw c a = simp a

-- The buffer is ready again when it has been sent.
pub sent-IsReady :
    (ipsum tcpsum : ℕ) (has_ts : Bool) (b : SendBuf)
    → IsReady ipsum tcpsum b
    → IsReady ipsum tcpsum (record (sum_rst ipsum tcpsum has_ts b) { avail = false })
unfolding sum_rst
sent-IsReady ipsum tcpsum has_ts b v = record {
  src_ip = v.src_ip;
  dst_ip = v.dst_ip;
  src_port = v.src_port;
  dst_port = v.dst_port;
  seq_num = v.seq_num;
  ack_num = v.ack_num;
  offset_flags = v.offset_flags;
  window_size = v.window_size;
  area = v.area;
  ipsum_of = v.ipsum_of;
  tcpsum_of = v.tcpsum_of;
}
