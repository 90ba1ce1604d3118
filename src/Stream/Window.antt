-- ===== src/Stream/Window.antt =====
-- Where `handlePacket` of TcpStream.h places a payload, in uint32_t arithmetic that may wrap.
use pollnet.Base.{ℕ, ◌+◌, ◌-◌, ◌*◌, ◌^◌, ◌≤◌, ◌<◌, ◌≡◌, false, arith, ltb, ◌==◌, ◌||◌}
use pollnet.Base.Word.{add32, is_neg32}
use pollnet.Base.Buf.{Buf}
use pollnet.Wire.{data_offset, swap16, total_length}
use pollnet.Segs.{at}
use pollnet.Stream.{TcpStream, Cut, cut, packet_seq}

-- Where the TCP payload begins in the packet.
abbrev pub payload : Buf → ℕ
payload d = 14 + (20 + data_offset d * 4)

-- A cut that the guards let through lies past what is in order, within the buffer, and its bytes
-- are the packet's bytes at the sequence numbers of its place.
pub record Fits (bufsize : ℕ) (s : TcpStream) (d : Buf) (c : Cut) : Type 0 where
  pub ahead : (at s.segs 0).second ≤ c.loc
  pub ends : c.loc + c.size ≡ c.loc_end
  pub some_data : 0 < c.size
  pub inside : c.loc_end ≤ bufsize
  pub skips : payload d ≤ c.off
  pub within : c.off + c.size ≤ 14 + swap16 (total_length d)
  pub numbered : add32 s.buf_seq c.loc ≡ add32 (packet_seq d) (c.off - payload d)

pub packet_seq-lt : (d : Buf) → packet_seq d < 2 ^ 32
unfolding packet_seq
packet_seq-lt d = ground arith

pub cut-Fits :
    (bufsize : ℕ) (s : TcpStream) (d : Buf)
    → bufsize ≤ 2 ^ 30
    → s.buf_seq < 2 ^ 32
    → (at s.segs 0).second ≤ bufsize
    → ((cut s d).size == 0) || is_neg32 (cut s d).size ≡ false
    → ltb bufsize (cut s d).loc_end ≡ false
    → Fits bufsize s d (cut s d)
unfolding cut
cut-Fits bufsize s d hb hs h0 g1 g2 = ground (arith, packet_seq-lt d)
