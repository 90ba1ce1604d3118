-- ===== src/Efvitcp/Core/Answers.antt =====
-- The frames that `rspRst` and `ackTW` of efvitcp/Core.h send.
use pollnet.Base.{
  ℕ, ◌+◌, ◌*◌, ◌/◌, ◌%◌, ◌^◌, ◌<◌, ◌≡◌, refl, Bool, true, false, not, ◌∷◌, arith, ap₂,
}
use pollnet.Base.Buf.{Buf, memcpy}
use pollnet.Base.Word.{add32, sub32}
use pollnet.Wire.{swap32-swap32, swap16, swap32, le16, le32, IsBytes, data_offset, syn_flag}
use pollnet.Efvitcp.Conn.{SendBuf}
use pollnet.Efvitcp.Conn.Bufs.{bit, put32}
use pollnet.Efvitcp.Conn.Pack.{flag}
use pollnet.Efvitcp.Core.{TimeWaitConn, Core}
use pollnet.Efvitcp.Core.Replies.{sum_rst, rst_buf, rsp_rst, ack_buf, ack_tw, send_frame}
use pollnet.Efvitcp.Core.Checked.{
  IsWaiting, IsReady, IsSummed, with_flags_lem, rst_buf-IsReady, ack_buf-IsReady, stamps_of,
  sum_rst-IsSummed, sent-IsReady, rsp_rst-sends, ack_tw-sends,
}

-- What RFC 793 wants of the RST that answers a segment: from where it came, to where it came from,
-- with the number that it acknowledges, or else acknowledging all of its numbers.
pub record IsRst (d : Buf) (b : SendBuf) : Type 0 where
  pub addressed : b.dst_ip ≡ le32 d 26
  pub ports : (b.src_port ≡ le16 d 36) × (b.dst_port ≡ le16 d 34)
  pub is_rst : b.offset_flags / 1024 % 2 ≡ 1
  pub offset : b.offset_flags / 16 % 16 ≡ 5
  pub is_ack : b.offset_flags / 4096 % 2 ≡ bit (not (flag 4 d))
  pub answers : flag 4 d ≡ true → b.seq_num ≡ le32 d 42
  pub begins : flag 4 d ≡ false → b.seq_num ≡ 0
  pub acks :
      flag 4 d ≡ false
      → (swap32 b.ack_num + 20 + 4 * data_offset d) % 2 ^ 32
        ≡ (swap32 (le32 d 38) + swap16 (le16 d 16) + syn_flag d + bit (flag 0 d)) % 2 ^ 32

acks_lem :
    (d : Buf) (fin : Bool)
    → let seq = swap32 (le32 d 38) in
      let len =
        add32 (sub32 (sub32 (swap16 (le16 d 16)) 20) (data_offset d * 4)) (syn_flag d + bit fin) in
      (swap32 (swap32 (add32 seq len)) + 20 + 4 * data_offset d) % 2 ^ 32
      ≡ (seq + swap16 (le16 d 16) + syn_flag d + bit fin) % 2 ^ 32
acks_lem d fin =
    let seq = swap32 (le32 d 38) in
    let len =
      add32 (sub32 (sub32 (swap16 (le16 d 16)) 20) (data_offset d * 4)) (syn_flag d + bit fin) in
    rw (swap32-swap32 (add32 seq len) (omega arith)) (omega arith)

sum_rst-IsRst :
    (ipsum tcpsum : ℕ) (d : Buf) (b : SendBuf)
    → IsBytes d
    → b.offset_flags < 2 ^ 16
    → IsRst d (sum_rst ipsum tcpsum false (rst_buf d b))
unfolding sum_rst rst_buf
sum_rst-IsRst ipsum tcpsum d b h r =
    let f = with_flags_lem 5 b.offset_flags true (not (flag 4 d)) (omega arith) r in
    record {
      addressed = refl;
      ports = (refl, refl);
      is_rst = f.2;
      offset = f.1;
      is_ack = f.3;
      answers = λ e. rw e refl;
      begins = λ e. rw e refl;
      acks = λ e. rw e (acks_lem d (flag 0 d));
    }

-- The answer to a frame that is no RST, with the last buffer free: one frame, a RST as RFC 793
-- wants it, whose checksums a receiver verifies. The buffer is in use then, and ready for the next.
pub rsp_rst-IsRst :
    (d : Buf) (c : Core)
    → IsBytes d
    → IsReady c.rst_ipsum c.rst_tcpsum c.rst
    → flag 2 d ≡ false
    → c.rst.avail ≡ true
    → let c' = rsp_rst d c in
      (b : SendBuf) × (c'.sent ≡ b ∷ c.sent)
      × IsRst d b
      × IsSummed false b
      × (c'.rst ≡ record b { avail = false })
      × IsReady c'.rst_ipsum c'.rst_tcpsum c'.rst
unfolding send_frame
rsp_rst-IsRst d c h r e a =
    let v = rst_buf-IsReady c.rst_ipsum c.rst_tcpsum d c.rst h r in
    rw (rsp_rst-sends d c e a) (
      sum_rst c.rst_ipsum c.rst_tcpsum false (rst_buf d c.rst),
      refl,
      sum_rst-IsRst c.rst_ipsum c.rst_tcpsum d c.rst h r.offset_flags,
      sum_rst-IsSummed c.rst_ipsum c.rst_tcpsum false (rst_buf d c.rst) v,
      refl,
      sent-IsReady c.rst_ipsum c.rst_tcpsum false (rst_buf d c.rst) v,
    )

-- What `ackTW` writes.
stamps_lem :
    (v w : ℕ) (d : Buf)
    → v < 2 ^ 32
    → w < 2 ^ 32
    → let d' = put32 (put32 d 4 v) 8 w in (le32 d' 4 ≡ v) × (le32 d' 8 ≡ w)
unfolding memcpy
stamps_lem v w d h k = omega arith

ack_buf-numbers :
    (ipsum tcpsum now_ts : ℕ) (tw : TimeWaitConn) (r : SendBuf)
    → now_ts < 2 ^ 32
    → tw.tsecr < 2 ^ 32
    → let b = sum_rst ipsum tcpsum tw.has_ts (ack_buf now_ts tw r) in
      ((b.src_port ≡ tw.src_port)
        × (b.dst_port ≡ tw.dst_port)
        × (b.seq_num ≡ tw.seq_num)
        × (b.ack_num ≡ tw.ack_num))
      × (tw.has_ts ≡ true → stamps_of b ≡ (swap32 now_ts, swap32 tw.tsecr))
unfolding sum_rst ack_buf
ack_buf-numbers ipsum tcpsum now_ts tw r h k =
    let (x, y) = stamps_lem now_ts tw.tsecr r.area h k in
    ((refl, refl, refl, refl), λ e. rw e (ap₂ (λ (a b : ℕ). (swap32 a, swap32 b)) x y))

-- The acknowledgement for a connection in TIME_WAIT, with the last buffer free: one frame, from and
-- to the connection's ports with its numbers, whose checksums a receiver verifies. If timestamps
-- are in use, the receiver reads the time and the last stamp with their bytes reversed.
pub ack_tw-IsSummed :
    (tw : TimeWaitConn) (c : Core)
    → IsWaiting tw
    → c.wheel.now_ts < 2 ^ 32
    → IsReady c.rst_ipsum c.rst_tcpsum c.rst
    → c.rst.avail ≡ true
    → let c' = ack_tw tw c in
      (b : SendBuf) × (c'.sent ≡ b ∷ c.sent)
      × IsSummed tw.has_ts b
      × ((b.src_port ≡ tw.src_port)
          × (b.dst_port ≡ tw.dst_port)
          × (b.seq_num ≡ tw.seq_num)
          × (b.ack_num ≡ tw.ack_num))
      × (tw.has_ts ≡ true → stamps_of b ≡ (swap32 c.wheel.now_ts, swap32 tw.tsecr))
      × IsReady c'.rst_ipsum c'.rst_tcpsum c'.rst
unfolding send_frame
ack_tw-IsSummed tw c v n r a =
    let b = ack_buf c.wheel.now_ts tw c.rst in
    let v' = ack_buf-IsReady c.rst_ipsum c.rst_tcpsum c.wheel.now_ts tw c.rst v r in
    let (numbers, stamps) =
      ack_buf-numbers c.rst_ipsum c.rst_tcpsum c.wheel.now_ts tw c.rst n v.tsecr in
    rw (ack_tw-sends tw c a) (
      sum_rst c.rst_ipsum c.rst_tcpsum tw.has_ts b,
      refl,
      sum_rst-IsSummed c.rst_ipsum c.rst_tcpsum tw.has_ts b v',
      numbers,
      stamps,
      sent-IsReady c.rst_ipsum c.rst_tcpsum tw.has_ts b v',
    )
