-- ===== src/Efvitcp/Conn/Tail.antt =====
-- The tail of a text that the handler leaves, which `onPack` of efvitcp/TcpConn.h copies to its place.
use pollnet.Base.{
  ℕ, ◌+◌, ◌-◌, ◌^◌, ◌≤◌, ◌<◌, ◌≡◌, sym, ◌∙◌, ap, inl, inr, true, false, arith, Bool-cases,
}
use pollnet.Base.Word.{add32, sub32}
use pollnet.Base.Buf.{Buf, memcpy, shift, memcpy-in, memcpy-out}
use pollnet.Segs.{at}
use pollnet.Segs.Cover.{within, covers}
use pollnet.Stream.Invariant.{set_first-Ordered}
use pollnet.Stream.Content.{set_first-covers}
use pollnet.Efvitcp.Conn.{Rcv}
use pollnet.Efvitcp.Conn.Text.{Text, keep_first}
use pollnet.Efvitcp.Conn.Place.{Put}
use pollnet.Efvitcp.Conn.Content.{position, IsReceived, IsText, set_first-at}

within-bounds : (a b p : ℕ) → within a b p ≡ true → (a ≤ p) × (p < b)
within-bounds a b p h = ground arith

abbrev pub tail_of : Text → Buf → ℕ → Rcv → Rcv
tail_of t d remaining r =
    let n = sub32 t.loc_end t.loc in
    record (keep_first remaining r) {
      recv_buf =
          memcpy r.recv_buf (sub32 (at r.segs 0).second remaining) (shift d (t.off + n - remaining))
            remaining;
    }

-- The tail of a text that the handler leaves is copied to its place.
module _ (stream : ℕ → ℕ) {size : ℕ} (z : size ≤ 2 ^ 30) (t : Text) (d : Buf) (r0 r : Rcv)
    (v : IsReceived stream size r0) (x : IsText stream size r0 d t)
    (p : Put size t.loc t.loc_end r0.segs r.segs) (seq : r.recv_buf_seq ≡ r0.recv_buf_seq)
    (buf : r.recv_buf ≡ r0.recv_buf) (first : (at r.segs 0).first ≡ t.loc)
    (second : (at r.segs 0).second ≡ t.loc_end) where
  abbrev tail : ℕ → Rcv
  tail remaining = tail_of t d remaining r

  -- What is covered else was covered before.
  behind :
      (remaining q : ℕ)
      → remaining ≤ t.loc_end - t.loc
      → covers (tail remaining).segs q ≡ true
      → let new = sub32 (at r.segs 0).second remaining in
        within new (new + remaining) q ≡ false → covers r0.segs q ≡ true
  behind remaining q h k o = ground (
    arith,
    second,
    x.inside,
    p.cover q,
    set_first-covers size (sub32 (at r.segs 0).second remaining) q r.segs p.order k,
  )

  tail-content :
      (remaining q : ℕ)
      → remaining ≤ t.loc_end - t.loc
      → covers (tail remaining).segs q ≡ true
      → (tail remaining).recv_buf q ≡ stream (add32 r0.recv_buf_seq q)
  tail-content remaining q h k =
      let n = sub32 t.loc_end t.loc in
      let new = sub32 (at r.segs 0).second remaining in
      let from = t.off + n - remaining in
      elim (Bool-cases (within new (new + remaining) q)) [
        | inl i ↦
            let j = t.loc_end - t.loc - remaining + (q - new) in
            let (low, high) = within-bounds new (new + remaining) q i in
            let at_end : new ≡ t.loc_end - remaining = omega (arith, second, x.inside) in
            memcpy-in r.recv_buf new (shift d from) remaining q i
            ∙ ap d (omega (arith, at_end, low, high, x.some_data, x.inside))
            ∙ x.carried j (omega (arith, at_end, low, high, x.some_data))
            ∙ ap (λ n. stream (add32 r0.recv_buf_seq n)) (omega (arith, at_end, low, x.some_data))
        | inr o ↦
            memcpy-out r.recv_buf new (shift d from) remaining q o
            ∙ ap (λ (b : Buf). b q) buf
            ∙ v.content q (behind remaining q h k o)
      ]

  pub tail-IsReceived :
      (remaining : ℕ)
      → remaining ≤ t.loc_end - t.loc
      → IsReceived stream size (tail remaining)
        × (position (tail remaining) ≡ add32 (position r) (t.loc_end - t.loc - remaining))
  tail-IsReceived remaining h =
      let new = sub32 (at r.segs 0).second remaining in
      let o = set_first-Ordered size new r.segs p.order (omega (arith, second)) in
      (
        record {
          seq_word = omega (arith, seq, v.seq_word);
          order = o.0;
          count = omega (arith, o.1, p.count);
          content = λ q k. tail-content remaining q h k ∙ ap (λ n. stream (add32 n q)) (sym seq);
        },
        omega (arith, set_first-at size new r.segs p.order, second, first, x.inside, x.some_data),
      )
