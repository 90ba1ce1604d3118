-- ===== src/Efvitcp/Conn/Content.antt =====
-- The receive buffer of `TcpConn` against the bytes of the TCP stream: what the steps of `onPack` of
-- efvitcp/TcpConn.h make of it.
use pollnet.Base.{
  ℕ, ◌+◌, ◌-◌, ◌^◌, ◌≤◌, ◌<◌, ◌≡◌, refl, sym, ◌∙◌, ap, subst, inl, inr, true, List, [], ◌∷◌, arith,
  length, leb, ◌==◌, Bool-cases, ◌/◌, set,
}
use pollnet.Base.Word.{add32, sub32}
use pollnet.Base.Buf.{Buf, memcpy, shift, bytes, bytes-ext, memcpy-in, memcpy-out}
use pollnet.Segs.{Seg, seg, at}
use pollnet.Segs.Order.{Ordered, Apart-le}
use pollnet.Segs.Cover.{within, covers}
use pollnet.Segs.Shift.{shift_down, covers-shift_down, last_end, covers-last_end, last_end-cons}
use pollnet.Stream.{set_first}
use pollnet.Stream.Invariant.{compact-segs, set_first-Ordered, Ordered-bounds}
use pollnet.Stream.Content.{set_first-covers, head-covers}
use pollnet.Efvitcp.Conn.{Rcv}
use pollnet.Efvitcp.Conn.Text.{Text, put_seg, keep_first, make_room}
use pollnet.Efvitcp.Conn.Place.{Put}

-- The number of the next byte that the handler has not taken.
abbrev pub position : Rcv → ℕ
position r = add32 r.recv_buf_seq (at r.segs 0).first

-- The segments are in order, apart, within the buffer and at most five, and what they cover of the
-- buffer is the stream, a function from sequence numbers to bytes.
pub record IsReceived (stream : ℕ → ℕ) (size : ℕ) (r : Rcv) : Type 0 where
  pub seq_word : r.recv_buf_seq < 2 ^ 32
  pub order : Ordered size r.segs
  pub count : length r.segs ≤ 5
  pub content : (p : ℕ) → covers r.segs p ≡ true → r.recv_buf p ≡ stream (add32 r.recv_buf_seq p)

-- A text that lies in the window, behind what is in order, and carries the stream's bytes.
pub record IsText (stream : ℕ → ℕ) (size : ℕ) (r : Rcv) (d : Buf) (t : Text) : Type 0 where
  pub ahead : (at r.segs 0).second ≤ t.loc
  pub some_data : t.loc < t.loc_end
  pub inside : t.loc_end ≤ size
  pub carried :
      (k : ℕ) → k < t.loc_end - t.loc → d (t.off + k) ≡ stream (add32 r.recv_buf_seq (t.loc + k))

pub set_first-at :
    (limit a : ℕ) (segs : List Seg) → Ordered limit segs → (at (set_first a segs) 0).first ≡ a
set_first-at limit a [] h = absurd h
set_first-at limit a (t ∷ r) h = refl

-- A list whose first segment begins where the last one ends is that segment alone.
alone :
    (limit : ℕ) (segs : List Seg)
    → Ordered limit segs
    → (at segs 0).first ≡ last_end segs
    → set segs 0 (seg 0 0) ≡ seg 0 0 ∷ []
alone limit [] h e = absurd h
alone limit (t ∷ []) h e = refl
alone limit (t ∷ u ∷ r) h e =
    let same : last_end (t ∷ u ∷ r) ≡ last_end (u ∷ r) =
      last_end-cons t (u ∷ r) ∙ sym (last_end-cons u r) in
    absurd (omega (arith, h.0, h.1.0, h.1.1, same, (covers-last_end limit 0 u r h.1.2).0, e))

-- What is covered after a move was covered before, and lies before the end.
moved_covers :
    (limit : ℕ)
    → limit ≤ 2 ^ 30
    → (p : ℕ) (segs : List Seg) → Ordered limit segs
    → covers (shift_down (at segs 0).first segs) p ≡ true
    → let diff = (at segs 0).first in
      (covers segs (diff + p) ≡ true) × (p < sub32 (last_end segs) diff)
moved_covers limit z p [] h k = absurd h
moved_covers limit z p (t ∷ r) h k = ground (
  arith,
  Apart-le t.second limit r h.1,
  covers-shift_down t.first t.second limit p r h.1,
  covers-last_end limit (t.first + p) t r h.1,
)

-- The segment put in, and the text copied.
abbrev pub copied : Text → Buf → Rcv → Rcv
copied t d r = record r {
  segs = put_seg t.loc t.loc_end r.segs;
  recv_buf = memcpy r.recv_buf t.loc (shift d t.off) (sub32 t.loc_end t.loc);
}

module _ (stream : ℕ → ℕ) {size : ℕ} (z : size ≤ 2 ^ 30) where
  pub copied-IsReceived :
      (t : Text) (d : Buf) (r : Rcv)
      → IsReceived stream size r
      → IsText stream size r d t
      → Put size t.loc t.loc_end r.segs (put_seg t.loc t.loc_end r.segs)
      → IsReceived stream size (copied t d r)
  copied-IsReceived t d r v x p = record {
    seq_word = v.seq_word;
    order = p.order;
    count = p.count;
    content = λ q k. elim (Bool-cases (within t.loc t.loc_end q)) [
      | inl i ↦
          let e : d (t.off + (q - t.loc)) ≡ stream (add32 r.recv_buf_seq (t.loc + (q - t.loc))) =
            x.carried (q - t.loc) (ground arith) in
          memcpy-in r.recv_buf t.loc (shift d t.off) (sub32 t.loc_end t.loc) q (ground (arith, x))
          ∙ e
          ∙ ap (λ n. stream (add32 r.recv_buf_seq n)) (ground arith)
      | inr o ↦
          memcpy-out r.recv_buf t.loc (shift d t.off) (sub32 t.loc_end t.loc) q (ground (arith, x))
          ∙ v.content q (ground (arith, p.cover q k))
    ];
  }

  -- The handler leaves `remaining` bytes of the first segment.
  pub keep_first-IsReceived :
      (remaining : ℕ) (r : Rcv)
      → remaining ≤ (at r.segs 0).second - (at r.segs 0).first
      → IsReceived stream size r
      → IsReceived stream size (keep_first remaining r)
        × (position (keep_first remaining r)
            ≡ add32 (position r) ((at r.segs 0).second - (at r.segs 0).first - remaining))
  keep_first-IsReceived remaining r h v =
      let (a, b) = Ordered-bounds size r.segs v.order in
      let new = sub32 (at r.segs 0).second remaining in
      let o = set_first-Ordered size new r.segs v.order (omega arith) in
      (
        record {
          seq_word = v.seq_word;
          order = o.0;
          count = omega (arith, o.1, v.count);
          content = λ p k. v.content p (
              ground (
                arith,
                set_first-covers size new p r.segs v.order k,
                head-covers size p r.segs v.order,
              ));
        },
        omega (arith, set_first-at size new r.segs v.order),
      )

  -- The bytes of the first segment.
  pub ready-bytes :
      (r : Rcv)
      → IsReceived stream size r
      → let s = at r.segs 0 in
        bytes (shift r.recv_buf s.first) (sub32 s.second s.first)
        ≡ bytes (λ k. stream (add32 (position r) k)) (sub32 s.second s.first)
  ready-bytes r v =
      let s = at r.segs 0 in
      let (a, b) = Ordered-bounds size r.segs v.order in
      bytes-ext _ _ _ λ k l.
        v.content (s.first + k) (head-covers size (s.first + k) r.segs v.order (ground arith))
        ∙ ap stream (omega arith)

  -- All was taken: the buffer begins anew.
  emptied :
      (r : Rcv)
      → IsReceived stream size r
      → (at r.segs 0).first ≡ last_end r.segs
      → let r' = record r {
        recv_buf_seq = add32 r.recv_buf_seq (at r.segs 0).first;
        segs = set r.segs 0 (seg 0 0);
      } in
        IsReceived stream size r' × (position r' ≡ position r)
  emptied r v e =
      let one = alone size r.segs v.order e in
      (
        record {
          seq_word = omega arith;
          order = subst (Ordered size) (sym one) (omega arith);
          count = subst (λ l. length l ≤ 5) (sym one) (omega arith);
          content = λ p k.
              let none_left : covers (seg 0 0 ∷ []) p ≡ true =
                subst (λ l. covers l p ≡ true) one k in
              absurd (ground arith);
        },
        ap (λ l. add32 (add32 r.recv_buf_seq (at r.segs 0).first) (at l 0).first) one ∙ omega arith,
      )

  -- The bytes that are left move to the front.
  moved :
      (r : Rcv)
      → IsReceived stream size r
      → let diff = (at r.segs 0).first in
        let r' = record r {
          recv_buf = memcpy r.recv_buf 0 (shift r.recv_buf diff) (sub32 (last_end r.segs) diff);
          recv_buf_seq = add32 r.recv_buf_seq diff;
          segs = shift_down diff r.segs;
        } in
        IsReceived stream size r' × (position r' ≡ position r)
  moved r v =
      let diff = (at r.segs 0).first in
      let c = compact-segs size r.segs z v.order in
      (
        record {
          seq_word = omega arith;
          order = c.0;
          count = omega (arith, c.2, v.count);
          content = λ p k.
              let same : diff + (p - 0) ≡ diff + p = omega arith in
              let (old, below) = moved_covers size z p r.segs v.order k in
              memcpy-in r.recv_buf 0 (shift r.recv_buf diff) (sub32 (last_end r.segs) diff) p
                (ground (arith, below))
              ∙ ap r.recv_buf same
              ∙ v.content (diff + p) old
              ∙ ap stream (omega arith);
        },
        omega (arith, c.1),
      )

  pub make_room-IsReceived :
      (rmss : ℕ) (r : Rcv)
      → IsReceived stream size r
      → IsReceived stream size (make_room rmss size r)
        × (position (make_room rmss size r) ≡ position r)
  unfolding make_room
  make_room-IsReceived rmss r v =
      let diff = (at r.segs 0).first in
      elim (Bool-cases (leb rmss diff)) [
        | inr few ↦ rw few (v, refl)
        | inl many ↦ elim (Bool-cases (diff == last_end r.segs)) [
          | inl all ↦ rw (many, all) (emptied r v (ground arith))
          | inr some_left ↦ elim (Bool-cases (leb (size / 2) diff)) [
            | inr front ↦ rw (many, some_left, front) (v, refl)
            | inl back ↦ rw (many, some_left, back) (moved r v)
          ]
        ]
      ]
