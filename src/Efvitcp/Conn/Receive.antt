-- ===== src/Efvitcp/Conn/Receive.antt =====
-- The text of a frame, from the first check of `onPack` of efvitcp/TcpConn.h to the handler.
use pollnet.Base.{ℕ, ◌^◌, ◌≤◌, ◌≡◌, ◌⊎◌, refl, Bool, false, ◌||◌, ◌==◌}
use pollnet.Base.Word.{sub32, is_neg32}
use pollnet.Base.Buf.{Buf}
use pollnet.Segs.{skip}
use pollnet.Efvitcp.Conn.{Conf, Conn, Handler}
use pollnet.Efvitcp.Conn.Text.{take_text}
use pollnet.Efvitcp.Conn.Pack.{Pack, is_unacceptable, cut_text}
use pollnet.Efvitcp.Conn.Content.{IsReceived}
use pollnet.Efvitcp.Conn.Window.{IsCarried, cut_text-IsText}
use pollnet.Efvitcp.Conn.Deliver.{Keeps, Delivers, take_text-Delivers}
use pollnet.Efvitcp.Conn.Stored.{IsStored, take_text-IsStored}

-- A frame that the first check lets through, whose text is the stream's, and of whose text something is
-- left by `cut_text`, which cuts what is old and what is past the window. What `take_text` does with
-- that: the buffer keeps the stream's bytes only, in at most five segments that are in order and apart.
-- Each byte of the text is kept there or is one that the handler has taken, unless five segments lie
-- before the text. The handler is not called, or once, with the stream's bytes from its position on,
-- which moves behind those that it takes.
pub take_text-cut_text :
    (stream : ℕ → ℕ) (conf : Conf) (h : Handler) (p : Pack) (fin : Bool) (d : Buf) (c : Conn)
    → conf.conn_recv_buf_size ≤ 2 ^ 30
    → Keeps h
    → IsReceived stream conf.conn_recv_buf_size c.rcv
    → IsCarried stream p fin d
    → is_unacceptable conf p c ≡ false
    → let t = (cut_text conf p fin c).0 in
      let size = sub32 t.loc_end t.loc in
      (is_neg32 size || (size == 0)) ≡ false
      → let c' = take_text conf h t d c in
        IsReceived stream conf.conn_recv_buf_size c'.rcv
        × ((5 ≤ skip t.loc c.rcv.segs) ⊎ IsStored t c.rcv c'.rcv)
        × Delivers stream h c c'
take_text-cut_text stream conf h p fin d c z keeps v x ok some_left =
    let t = (cut_text conf p fin c).0 in
    let text = cut_text-IsText stream conf p fin d c z v x ok some_left in
    let (received, delivered) = take_text-Delivers stream z h keeps conf t d c refl v text in
    (received, take_text-IsStored z h keeps stream conf t d c refl v text, delivered)
