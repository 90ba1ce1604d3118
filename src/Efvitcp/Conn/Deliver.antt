-- ===== src/Efvitcp/Conn/Deliver.antt =====
-- What `onPack` of efvitcp/TcpConn.h passes on to the handler, against the TCP stream.
use pollnet.Base.{
  ℕ, ◌-◌, ◌^◌, ◌≤◌, ◌≡◌, refl, sym, ◌∙◌, ap, ap₂, subst, inl, inr, ◌&&◌, List, arith, length, ◌==◌,
  Bool-cases,
}
use pollnet.Base.Word.{add32, sub32}
use pollnet.Base.Buf.{Buf, shift, bytes, length-bytes, bytes-ext}
use pollnet.Segs.{at, skip}
use pollnet.Stream.Invariant.{Ordered-bounds}
use pollnet.Efvitcp.Conn.{Conf, Conn, Handler}
use pollnet.Efvitcp.Conn.Bufs.{get_rmss}
use pollnet.Efvitcp.Conn.Text.{
  Text, put_seg, keep_first, make_room, set_rcv, deliver_frame, deliver_buffer, store_text,
  take_text,
}
use pollnet.Efvitcp.Conn.Place.{Put, put_seg-Put}
use pollnet.Efvitcp.Conn.Content.{
  position, IsReceived, IsText, copied, copied-IsReceived, keep_first-IsReceived, ready-bytes,
  make_room-IsReceived,
}
use pollnet.Efvitcp.Conn.Tail.{tail_of, tail-IsReceived}

-- The handler leaves what is received alone, and no more bytes than it was given.
pub record Keeps (h : Handler) : Type 0 where
  pub rcv : (xs : List ℕ) (c : Conn) → (h.on_data xs c).0.rcv ≡ c.rcv
  pub bound : (xs : List ℕ) (c : Conn) → (h.on_data xs c).1 ≤ length xs

-- The handler was not called; or it was called once, with the stream's bytes from the position on,
-- which moves behind those that it took. But for what is received nothing else changed.
pub data Delivers (stream : ℕ → ℕ) (h : Handler) (c c' : Conn) : Type 0 where
  held : c' ≡ record c { rcv = c'.rcv } → position c'.rcv ≡ position c.rcv → Delivers stream h c c'
  passed :
      (n remaining : ℕ) (x y : Conn)
      → x ≡ record c { rcv = x.rcv }
      → h.on_data (bytes (λ k. stream (add32 (position c.rcv) k)) n) x ≡ (y, remaining)
      → c' ≡ record y { rcv = c'.rcv }
      → position c'.rcv ≡ add32 (position c.rcv) (n - remaining)
      → Delivers stream h c c'

module _ (stream : ℕ → ℕ) {size : ℕ} (z : size ≤ 2 ^ 30) (h : Handler) (keeps : Keeps h) where
  -- The first segment is passed on from the buffer.
  deliver_buffer-Delivers :
      (c0 c : Conn)
      → c ≡ record c0 { rcv = c.rcv }
      → position c.rcv ≡ position c0.rcv
      → IsReceived stream size c.rcv
      → let c' = deliver_buffer h c in IsReceived stream size c'.rcv × Delivers stream h c0 c'
  unfolding deliver_buffer
  deliver_buffer-Delivers c0 c e pos v =
      let s = at c.rcv.segs 0 in
      let n = sub32 s.second s.first in
      let xs = bytes (shift c.rcv.recv_buf s.first) n in
      let y = h.on_data xs c in
      let (a, b) = Ordered-bounds size c.rcv.segs v.order in
      let few : y.1 ≤ n =
        omega (arith, keeps.bound xs c, length-bytes (shift c.rcv.recv_buf s.first) n) in
      let k = keep_first-IsReceived stream z y.1 c.rcv (omega (arith, few)) v in
      let same = keeps.rcv xs c in
      let given : xs ≡ bytes (λ k. stream (add32 (position c0.rcv) k)) n =
        ready-bytes stream z c.rcv v ∙ ap (λ p. bytes (λ k. stream (add32 p k)) n) pos in
      (
        subst (λ r. IsReceived stream size (keep_first y.1 r)) (sym same) k.0,
        passed n y.1 c y.0 e (ap (λ l. h.on_data l c) (sym given)) refl (
            ap (λ r. position (keep_first y.1 r)) same ∙ k.1 ∙ ap₂ add32 pos (omega (arith, a, b))),
      )

  -- The frame itself is passed on.
  deliver_frame-Delivers :
      (t : Text) (d : Buf) (c0 c : Conn)
      → c ≡ record c0 { rcv = c.rcv }
      → position c.rcv ≡ position c0.rcv
      → IsReceived stream size c0.rcv
      → IsText stream size c0.rcv d t
      → Put size t.loc t.loc_end c0.rcv.segs c.rcv.segs
      → c.rcv.recv_buf_seq ≡ c0.rcv.recv_buf_seq
      → c.rcv.recv_buf ≡ c0.rcv.recv_buf
      → (at c.rcv.segs 0).first ≡ t.loc
      → (at c.rcv.segs 0).second ≡ t.loc_end
      → let c' = deliver_frame h t d c in IsReceived stream size c'.rcv × Delivers stream h c0 c'
  unfolding deliver_frame
  deliver_frame-Delivers t d c0 c e pos v x p seq buf first second =
      let n = sub32 t.loc_end t.loc in
      let xs = bytes (shift d t.off) n in
      let y = h.on_data xs c in
      let few : y.1 ≤ t.loc_end - t.loc =
        omega (arith, keeps.bound xs c, length-bytes (shift d t.off) n, x.inside, x.some_data) in
      let k = tail-IsReceived stream z t d c0.rcv c.rcv v x p seq buf first second y.1 few in
      let same = keeps.rcv xs c in
      let given : xs ≡ bytes (λ j. stream (add32 (position c0.rcv) j)) n = bytes-ext _ _ n (λ j l.
        x.carried j (omega (arith, x.inside, x.some_data))
        ∙ ap stream (omega (arith, first, seq, pos, x.inside))) in
      (
        subst (λ r. IsReceived stream size (tail_of t d y.1 r)) (sym same) k.0,
        passed n y.1 c y.0 e (ap (λ l. h.on_data l c) (sym given)) refl (
            ap (λ r. position (tail_of t d y.1 r)) same
            ∙ k.1
            ∙ ap₂ add32 pos (omega (arith, x.inside, x.some_data))),
      )

  make_room-Delivers :
      (rmss : ℕ) (c0 c : Conn)
      → IsReceived stream size c.rcv × Delivers stream h c0 c
      → let c' = set_rcv (make_room rmss size) c in
        IsReceived stream size c'.rcv × Delivers stream h c0 c'
  make_room-Delivers rmss c0 c (v, held e pos) =
      let (v', p) = make_room-IsReceived stream z rmss c.rcv v in
      (v', held (ap (set_rcv (make_room rmss size)) e) (p ∙ pos))
  make_room-Delivers rmss c0 c (v, passed n remaining x y e g k pos) =
      let (v', p) = make_room-IsReceived stream z rmss c.rcv v in
      (v', passed n remaining x y e g (ap (set_rcv (make_room rmss size)) k) (p ∙ pos))

  pub store_text-Delivers :
      (t : Text) (d : Buf) (c : Conn)
      → IsReceived stream size c.rcv
      → IsText stream size c.rcv d t
      → let c' = store_text h t d c in IsReceived stream size c'.rcv × Delivers stream h c c'
  unfolding store_text
  store_text-Delivers t d c v x =
      let p =
        put_seg-Put size t.loc t.loc_end c.rcv.segs v.order x.ahead x.some_data x.inside v.count in
      let s = at (put_seg t.loc t.loc_end c.rcv.segs) 0 in
      let c1 = set_rcv (λ r. record r { segs = put_seg t.loc t.loc_end r.segs }) c in
      let pos : add32 c.rcv.recv_buf_seq s.first ≡ position c.rcv =
        ap (add32 c.rcv.recv_buf_seq) p.start in
      let v' = copied-IsReceived stream z t d c.rcv v x p in
      elim (Bool-cases ((s.first == t.loc) && (s.second == t.loc_end))) [
        | inl frame ↦
            rw frame (
              deliver_frame-Delivers t d c c1 refl pos v x p refl refl (ground arith)
                (ground arith))
        | inr other ↦ elim (Bool-cases (skip t.loc c.rcv.segs == 0)) [
          | inl first ↦
              rw (other, first) (deliver_buffer-Delivers c (set_rcv (copied t d) c) refl pos v')
          | inr later ↦ rw (other, later) (v', held refl pos)
        ]
      ]

  -- Text in the window is passed on in the order of the stream, at most once and without a gap, from the
  -- frame or from the buffer; what is kept stays the stream's, in at most five segments.
  pub take_text-Delivers :
      (conf : Conf) (t : Text) (d : Buf) (c : Conn)
      → conf.conn_recv_buf_size ≡ size
      → IsReceived stream size c.rcv
      → IsText stream size c.rcv d t
      → let c' = take_text conf h t d c in IsReceived stream size c'.rcv × Delivers stream h c c'
  unfolding take_text
  take_text-Delivers conf t d c same v x =
      let c' = store_text h t d c in
      subst
        (λ n.
          let c'' = set_rcv (make_room (get_rmss conf c') n) c' in
          IsReceived stream size c''.rcv × Delivers stream h c c'')
        (sym same) (make_room-Delivers (get_rmss conf c') c c' (store_text-Delivers t d c v x))
