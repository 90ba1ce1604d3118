-- ===== src/Efvitcp/Conn/Stored.antt =====
-- What becomes of the bytes of a text that `onPack` of efvitcp/TcpConn.h stores: each has been taken by
-- the handler or is covered by a segment.
use pollnet.Base.{
  ℕ, ◌+◌, ◌-◌, ◌^◌, ◌/◌, ◌≤◌, ◌<◌, ◌≡◌, ◌⊎◌, refl, sym, ap, subst, inl, inr, true, List, arith, leb,
  ltb, ◌==◌, ◌&&◌, Bool-cases,
}
use pollnet.Base.Word.{add32, sub32}
use pollnet.Base.Buf.{Buf}
use pollnet.Segs.{Seg, at, skip}
use pollnet.Segs.Order.{Ordered}
use pollnet.Segs.Cover.{covers}
use pollnet.Segs.Shift.{last_end}
use pollnet.Efvitcp.Conn.{Rcv, Conn, Conf, Handler}
use pollnet.Efvitcp.Conn.Text.{
  Text, put_seg, keep_first, make_room, set_rcv, deliver_frame, deliver_buffer, store_text,
  take_text,
}
use pollnet.Efvitcp.Conn.Content.{IsReceived, IsText, copied}
use pollnet.Efvitcp.Conn.Deliver.{Keeps, store_text-Delivers}
use pollnet.Efvitcp.Conn.Bufs.{get_rmss}
use pollnet.Efvitcp.Conn.Place.{put_seg-Put}
use pollnet.Base.Buf.{bytes, shift, length-bytes}
use pollnet.Stream.Invariant.{Ordered-bounds}
use pollnet.Efvitcp.Conn.Kept.{
  IsKept, put_seg-covers, set_first-IsKept, shift_down-IsKept, emptied-IsKept, unmoved-IsKept,
}

-- The bytes of `t` in a buffer that begins `diff` bytes further on than that of `t`: each is before the
-- first byte that the handler has not taken, or a segment covers it.
abbrev pub StoredAt : ℕ → Text → List Seg → Type 0
StoredAt diff t segs =
    (k : ℕ)
    → t.loc ≤ k
    → k < t.loc_end
    → (k < diff + (at segs 0).first) ⊎ (covers segs (k - diff) ≡ true)

-- The same in `r'`, for a text that lies at its offsets in `r`.
abbrev pub IsStored : Text → Rcv → Rcv → Type 0
IsStored t r r' = StoredAt (sub32 r'.recv_buf_seq r.recv_buf_seq) t r'.segs

moved_by :
    (diff seq seq' : ℕ) (t : Text) (segs : List Seg)
    → seq < 2 ^ 32
    → diff ≤ 2 ^ 30
    → seq' ≡ add32 seq diff
    → StoredAt diff t segs
    → StoredAt (sub32 seq' seq) t segs
moved_by diff seq seq' t segs w l e h =
    let same : diff ≡ sub32 seq' seq = omega (arith, e) in subst (λ n. StoredAt n t segs) same h

module _ {size : ℕ} (z : size ≤ 2 ^ 30) where
  make_room-IsStored :
      (rmss : ℕ) (t : Text) (r0 r : Rcv)
      → Ordered size r.segs
      → r.recv_buf_seq < 2 ^ 32
      → r.recv_buf_seq ≡ r0.recv_buf_seq
      → ((k : ℕ) → t.loc ≤ k → k < t.loc_end → IsKept r.segs k)
      → IsStored t r0 (make_room rmss size r)
  unfolding make_room
  make_room-IsStored rmss t r0 r o w e h =
      let diff = (at r.segs 0).first in
      let (a, b) = Ordered-bounds size r.segs o in
      let r0_word : r0.recv_buf_seq < 2 ^ 32 = omega (arith, w, e) in
      let begin : add32 r.recv_buf_seq diff ≡ add32 r0.recv_buf_seq diff =
        ap (λ n. add32 n diff) e in
      let same : IsStored t r0 r =
        moved_by 0 r0.recv_buf_seq r.recv_buf_seq t r.segs r0_word (omega arith)
          (omega (arith, w, e)) (λ k a b. unmoved-IsKept k r.segs (h k a b)) in
      elim (Bool-cases (leb rmss diff)) [
        | inr few ↦ rw few same
        | inl many ↦ elim (Bool-cases (diff == last_end r.segs)) [
          | inl all ↦
              rw (many, all)
                (moved_by diff r0.recv_buf_seq _ t _ r0_word (omega (arith, a, b)) begin
                  (λ k a b. inl (emptied-IsKept size k r.segs o (ground arith) (h k a b))))
          | inr some_left ↦ elim (Bool-cases (leb (size / 2) diff)) [
            | inr front ↦ rw (many, some_left, front) same
            | inl back ↦
                rw (many, some_left, back)
                  (moved_by diff r0.recv_buf_seq _ t _ r0_word (omega (arith, a, b)) begin
                    (λ k a b. shift_down-IsKept size k r.segs z o (h k a b)))
          ]
        ]
      ]

  -- The handler leaves `remaining` bytes of the first segment.
  keep_first-IsKept :
      (remaining k : ℕ) (r : Rcv)
      → Ordered size r.segs
      → remaining ≤ (at r.segs 0).second - (at r.segs 0).first
      → IsKept r.segs k
      → IsKept (keep_first remaining r).segs k
  keep_first-IsKept remaining k r o few kept =
      let (a, b) = Ordered-bounds size r.segs o in
      set_first-IsKept (sub32 (at r.segs 0).second remaining) k r.segs kept (omega (arith, few))

  module _ (h : Handler) (keeps : Keeps h) (stream : ℕ → ℕ) where
    deliver_buffer-IsKept :
        (c : Conn)
        → Ordered size c.rcv.segs
        → let r' = (deliver_buffer h c).rcv in
          (r'.recv_buf_seq ≡ c.rcv.recv_buf_seq)
          × ((k : ℕ) → IsKept c.rcv.segs k → IsKept r'.segs k)
    unfolding deliver_buffer
    deliver_buffer-IsKept c o =
        let s = at c.rcv.segs 0 in
        let n = sub32 s.second s.first in
        let xs = bytes (shift c.rcv.recv_buf s.first) n in
        let y = h.on_data xs c in
        let same = keeps.rcv xs c in
        let (a, b) = Ordered-bounds size c.rcv.segs o in
        let few = keeps.bound xs c in
        let all = length-bytes (shift c.rcv.recv_buf s.first) n in
        (
          ap (λ (r : Rcv). r.recv_buf_seq) same,
          λ k kept.
              subst (λ r. IsKept (keep_first y.1 r).segs k) (sym same)
                (keep_first-IsKept y.1 k c.rcv o (omega (arith, few, all)) kept),
        )

    deliver_frame-IsKept :
        (t : Text) (d : Buf) (c : Conn)
        → Ordered size c.rcv.segs
        → (at c.rcv.segs 0).first ≡ t.loc
        → (at c.rcv.segs 0).second ≡ t.loc_end
        → let r' = (deliver_frame h t d c).rcv in
          (r'.recv_buf_seq ≡ c.rcv.recv_buf_seq)
          × ((k : ℕ) → IsKept c.rcv.segs k → IsKept r'.segs k)
    unfolding deliver_frame
    deliver_frame-IsKept t d c o first second =
        let n = sub32 t.loc_end t.loc in
        let xs = bytes (shift d t.off) n in
        let y = h.on_data xs c in
        let same = keeps.rcv xs c in
        let (a, b) = Ordered-bounds size c.rcv.segs o in
        let few = keeps.bound xs c in
        let all = length-bytes (shift d t.off) n in
        (
          ap (λ (r : Rcv). r.recv_buf_seq) same,
          λ k kept.
              subst (λ r. IsKept (keep_first y.1 r).segs k) (sym same)
                (keep_first-IsKept y.1 k c.rcv o (omega (arith, few, all, first, second)) kept),
        )

    store_text-IsKept :
        (t : Text) (d : Buf) (c : Conn)
        → IsReceived stream size c.rcv
        → IsText stream size c.rcv d t
        → skip t.loc c.rcv.segs < 5
        → let r' = (store_text h t d c).rcv in
          (r'.recv_buf_seq ≡ c.rcv.recv_buf_seq)
          × ((k : ℕ) → t.loc ≤ k → k < t.loc_end → IsKept r'.segs k)
    unfolding store_text
    store_text-IsKept t d c v x few =
        let p =
          put_seg-Put size t.loc t.loc_end c.rcv.segs v.order x.ahead x.some_data x.inside
            v.count in
        let segs' = put_seg t.loc t.loc_end c.rcv.segs in
        let s = at segs' 0 in
        let c1 = set_rcv (λ r. record r { segs = put_seg t.loc t.loc_end r.segs }) c in
        let put : (k : ℕ) → t.loc ≤ k → k < t.loc_end → IsKept segs' k = λ k a b. inr (
          put_seg-covers size t.loc t.loc_end c.rcv.segs k v.order x.ahead x.some_data few
            (ground arith)) in
        elim (Bool-cases ((s.first == t.loc) && (s.second == t.loc_end))) [
          | inl frame ↦
              let (e, kept) = deliver_frame-IsKept t d c1 p.order (ground arith) (ground arith) in
              rw frame (e, λ k a b. kept k (put k a b))
          | inr other ↦ elim (Bool-cases (skip t.loc c.rcv.segs == 0)) [
            | inl first ↦
                let (e, kept) = deliver_buffer-IsKept (set_rcv (copied t d) c) p.order in
                rw (other, first) (e, λ k a b. kept k (put k a b))
            | inr later ↦ rw (other, later) (refl, put)
          ]
        ]

    -- Text that is in the window is stored, unless five segments lie before it.
    pub take_text-IsStored :
        (conf : Conf) (t : Text) (d : Buf) (c : Conn)
        → conf.conn_recv_buf_size ≡ size
        → IsReceived stream size c.rcv
        → IsText stream size c.rcv d t
        → (5 ≤ skip t.loc c.rcv.segs) ⊎ IsStored t c.rcv (take_text conf h t d c).rcv
    unfolding take_text
    take_text-IsStored conf t d c same v x = elim (Bool-cases (ltb (skip t.loc c.rcv.segs) 5)) [
      | inr many ↦ inl (ground arith)
      | inl few ↦
          let c' = store_text h t d c in
          let v' = (store_text-Delivers stream z h keeps t d c v x).0 in
          let (e, kept) = store_text-IsKept t d c v x (ground arith) in
          inr (
            subst (λ n. IsStored t c.rcv (make_room (get_rmss conf c') n c'.rcv)) (sym same)
              (make_room-IsStored (get_rmss conf c') t c.rcv c'.rcv v'.order v'.seq_word e kept))
    ]
