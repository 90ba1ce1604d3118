-- ===== src/Efvitcp/Conn/Text.antt =====
-- The text of an arriving frame, in `onPack` of efvitcp/TcpConn.h: where it lies in the receive window,
-- the segments, the handler, and the room that is made in the buffer.
use pollnet.Base.{
  ℕ, ◌+◌, ◌-◌, ◌/◌, ◌^◌, Bool, false, not, ◌&&◌, List, map, take, set, length, ltb, leb, ◌==◌,
  if◌then◌else◌,
}
use pollnet.Base.Word.{add32, sub32, is_neg32}
use pollnet.Base.Buf.{Buf, memcpy, shift, bytes}
use pollnet.Segs.{Seg, seg, at, skip, slot_end, place}
use pollnet.Stream.{set_first}
use pollnet.Efvitcp.Conn.{Conf, Conn, Rcv, Handler}
use pollnet.Efvitcp.Conn.Bufs.{get_rmss}

-- The part of a frame's text that is used: `data_buf_loc`, `data_end_loc`, and the offset of `data` in
-- the frame.
pub record Text : Type 0 where
  pub loc : ℕ
  pub loc_end : ℕ
  pub off : ℕ

-- `MaxRecvSegs`
abbrev pub max_recv_segs : ℕ
max_recv_segs = 5

-- The segment goes in, and where five are kept already the last one goes out for a new one, unless
-- the new one is itself the last.
unfoldable pub put_seg : ℕ → ℕ → List Seg → List Seg
put_seg loc loc_end segs =
    let i = skip loc segs in
    if not (i == slot_end loc loc_end segs)
    then place loc loc_end segs
    else if leb max_recv_segs i
    then segs
    else if length segs == max_recv_segs
    then place loc loc_end (take (max_recv_segs - 1) segs)
    else place loc loc_end segs

-- Old data is skipped.
unfoldable pub skip_old : ℕ → Text → Text
skip_old expected t =
    let diff = sub32 t.loc expected in
    if is_neg32 diff then record t { loc = sub32 t.loc diff; off = t.off + (2 ^ 32 - diff) } else t

-- The window's end cuts the text, which then has no FIN.
unfoldable pub clip : ℕ → Bool → Text → Text × Bool
clip size fin t = if ltb size t.loc_end then (record t { loc_end = size }, false) else (t, fin)

abbrev pub set_rcv : (Rcv → Rcv) → Conn → Conn
set_rcv f c = record c { rcv = f c.rcv }

abbrev pub keep_first : ℕ → Rcv → Rcv
keep_first remaining r = record r { segs = set_first (sub32 (at r.segs 0).second remaining) r.segs }

module _ (h : Handler) where
  -- The text is all that is there in order: the handler reads the frame, and what it leaves is kept.
  unfoldable pub deliver_frame : Text → Buf → Conn → Conn
  deliver_frame t d c =
      let size = sub32 t.loc_end t.loc in
      let (c1, remaining) = h.on_data (bytes (shift d t.off) size) c in
      let left = shift d (t.off + size - remaining) in
      set_rcv
        (λ r. record (keep_first remaining r) {
          recv_buf = memcpy r.recv_buf (sub32 (at r.segs 0).second remaining) left remaining;
        })
        c1

  unfoldable pub deliver_buffer : Conn → Conn
  deliver_buffer c =
      let s = at c.rcv.segs 0 in
      let (c1, remaining) =
        h.on_data (bytes (shift c.rcv.recv_buf s.first) (sub32 s.second s.first)) c in
      set_rcv (keep_first remaining) c1

-- Room is made once the handler has taken a full segment's size.
unfoldable pub make_room : ℕ → ℕ → Rcv → Rcv
make_room rmss size r =
    let diff = (at r.segs 0).first in
    let end = (at r.segs (length r.segs - 1)).second in
    if not (leb rmss diff)
    then r
    else if diff == end
    then record r { recv_buf_seq = add32 r.recv_buf_seq diff; segs = set r.segs 0 (seg 0 0) }
    else if leb (size / 2) diff
    then record r {
      recv_buf = memcpy r.recv_buf 0 (shift r.recv_buf diff) (sub32 end diff);
      recv_buf_seq = add32 r.recv_buf_seq diff;
      segs = map (λ (t : Seg). seg (sub32 t.first diff) (sub32 t.second diff)) r.segs;
    }
    else r

-- Text in the window is stored: the handler is called if the first segment grows.
unfoldable pub store_text : Handler → Text → Buf → Conn → Conn
unfolding put_seg deliver_frame deliver_buffer
store_text h t d c =
    let c1 = set_rcv (λ r. record r { segs = put_seg t.loc t.loc_end r.segs }) c in
    let s = at c1.rcv.segs 0 in
    let copied =
      set_rcv
        (λ r. record r {
          recv_buf = memcpy r.recv_buf t.loc (shift d t.off) (sub32 t.loc_end t.loc);
        })
        c1 in
    if (s.first == t.loc) && (s.second == t.loc_end)
    then deliver_frame h t d c1
    else if skip t.loc c.rcv.segs == 0
    then deliver_buffer h copied
    else copied

unfoldable pub take_text : Conf → Handler → Text → Buf → Conn → Conn
unfolding store_text make_room
take_text conf h t d c =
    let c' = store_text h t d c in set_rcv (make_room (get_rmss conf c') conf.conn_recv_buf_size) c'
