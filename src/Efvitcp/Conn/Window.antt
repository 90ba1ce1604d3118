-- ===== src/Efvitcp/Conn/Window.antt =====
-- The first check of `onPack` of efvitcp/TcpConn.h, and the text that it lets through.
use pollnet.Base.{
  ℕ, ◌+◌, ◌-◌, ◌^◌, ◌≤◌, ◌<◌, ◌≡◌, refl, sym, subst, inl, inr, ◌∙◌, ap, Bool, true, false, not,
  ◌&&◌, ◌||◌, ltb, if◌then◌else◌, arith, ◌==◌, Bool-cases, leb→le,
}
use pollnet.Base.Word.{add32, sub32, is_neg32}
use pollnet.Base.Buf.{Buf}
use pollnet.Segs.{at}
use pollnet.Stream.Invariant.{Ordered-bounds}
use pollnet.Efvitcp.Conn.{Conf, Conn}
use pollnet.Efvitcp.Conn.Bufs.{bit}
use pollnet.Efvitcp.Conn.Text.{Text, skip_old, clip}
use pollnet.Efvitcp.Conn.Pack.{Pack, text_of, is_unacceptable, cut_text}
use pollnet.Efvitcp.Conn.Content.{IsReceived, IsText}

-- The arithmetic: a frame at `loc`, of `n` numbers, against the end `e` of what is in order and the
-- buffer's size.
module _ (loc n fin e size : ℕ) (z : size ≤ 2 ^ 30) (w : loc < 2 ^ 32) (short : n ≤ 1501)
    (f : fin ≤ n) (one : fin ≤ 1) (le : e ≤ size) where
  abbrev old : Bool
  old = is_neg32 (sub32 loc e)

  abbrev end : ℕ
  end = sub32 (add32 loc n) fin

  abbrev is_out : Bool
  is_out =
      let after = sub32 (add32 loc n) e in
      let past = sub32 (add32 loc n) size in
      (old || not (is_neg32 (sub32 loc size)))
      && ((is_neg32 after || (after == 0)) || (not (is_neg32 past) && not (past == 0)))

  -- Text that begins in order or behind.
  new_text :
      old ≡ false
      → is_out ≡ false
      → let end' = if ltb size end then size else end in
        (is_neg32 (sub32 end' loc) || (sub32 end' loc == 0)) ≡ false
        → (e ≤ loc) × (loc < end') × (end' ≤ size) × (end' ≤ loc + (n - fin))
  new_text o k h = ground arith

  -- Text that begins with old data.
  old_text :
      old ≡ true
      → is_out ≡ false
      → let end' = if ltb size end then size else end in
        (is_neg32 (sub32 end' e) || (sub32 end' e == 0)) ≡ false
        → (sub32 loc (sub32 loc e) ≡ e)
          × (e < end')
          × (end' ≤ size)
          × (end' ≡ add32 loc (end' - e + (2 ^ 32 - sub32 loc e)))
          × (end' - e + (2 ^ 32 - sub32 loc e) ≤ n - fin)
  old_text o k h = ground arith

-- A frame whose text is the stream's, at its number.
pub record IsCarried (stream : ℕ → ℕ) (p : Pack) (fin : Bool) (d : Buf) : Type 0 where
  pub word : p.seq_num < 2 ^ 32
  pub short : p.size ≤ 1501
  pub with_fin : bit fin ≤ p.size
  pub bytes : (k : ℕ) → k < p.size - bit fin → d (p.off + k) ≡ stream (add32 p.seq_num k)

or_left : (a b : Bool) → (a || b) ≡ false → a ≡ false
or_left false b e = refl
or_left true b e = e

clip-0 :
    (size : ℕ) (fin : Bool) (t : Text)
    → (clip size fin t).0 ≡ record t { loc_end = if ltb size t.loc_end then size else t.loc_end }
unfolding clip
clip-0 size fin t = elim (Bool-cases (ltb size t.loc_end)) [ inl e ↦ rw e | inr e ↦ rw e ]

bit-le : (b : Bool) → bit b ≤ 1
bit-le false = omega arith
bit-le true = omega arith

module _ (stream : ℕ → ℕ) (conf : Conf) (p : Pack) (fin : Bool) (d : Buf) (c : Conn) where
  abbrev loc : ℕ
  loc = sub32 p.seq_num c.rcv.recv_buf_seq

  abbrev expected : ℕ
  expected = (at c.rcv.segs 0).second

  abbrev clipped : ℕ
  clipped =
      let e = sub32 (add32 loc p.size) (bit fin) in
      if ltb conf.conn_recv_buf_size e then conf.conn_recv_buf_size else e

  cut_new :
      is_neg32 (sub32 loc expected) ≡ false
      → (cut_text conf p fin c).0 ≡ record { loc = loc; loc_end = clipped; off = p.off }
  unfolding cut_text skip_old
  cut_new e =
      let t = skip_old expected (text_of conf p c) in
      clip-0 conf.conn_recv_buf_size fin (record t { loc_end = sub32 t.loc_end (bit fin) }) ∙ rw e

  cut_old :
      is_neg32 (sub32 loc expected) ≡ true
      → (cut_text conf p fin c).0 ≡ record {
        loc = sub32 loc (sub32 loc expected);
        loc_end = clipped;
        off = p.off + (2 ^ 32 - sub32 loc expected);
      }
  unfolding cut_text skip_old
  cut_old e =
      let t = skip_old expected (text_of conf p c) in
      clip-0 conf.conn_recv_buf_size fin (record t { loc_end = sub32 t.loc_end (bit fin) }) ∙ rw e

  -- Text that the first check lets through, and of which something is left, lies in the window and
  -- carries the stream's bytes there.
  pub cut_text-IsText :
      conf.conn_recv_buf_size ≤ 2 ^ 30
      → IsReceived stream conf.conn_recv_buf_size c.rcv
      → IsCarried stream p fin d
      → is_unacceptable conf p c ≡ false
      → let t = (cut_text conf p fin c).0 in
        let size = sub32 t.loc_end t.loc in
        (is_neg32 size || (size == 0)) ≡ false → IsText stream conf.conn_recv_buf_size c.rcv d t
  unfolding is_unacceptable
  cut_text-IsText z v x ok some_left =
      let (a, b) = Ordered-bounds conf.conn_recv_buf_size c.rcv.segs v.order in
      let size = conf.conn_recv_buf_size in
      let words : loc < 2 ^ 32 = omega arith in
      let inside = or_left _ _ ok in
      elim (Bool-cases (is_neg32 (sub32 loc expected))) [
        | inr e ↦
            let left =
              subst
                (λ (t : Text). let n = sub32 t.loc_end t.loc in (is_neg32 n || (n == 0)) ≡ false)
                (cut_new e) some_left in
            let (f, g, h, i) =
              new_text loc p.size (bit fin) expected size z words x.short x.with_fin (bit-le fin) b
                e inside left in
            subst (λ t. IsText stream size c.rcv d t) (sym (cut_new e))
              (record {
                ahead = f;
                some_data = g;
                inside = h;
                carried = λ k l.
                    x.bytes k (omega (arith, i)) ∙ ap stream (omega (arith, v.seq_word, x.word));
              })
        | inl e ↦
            let left =
              subst
                (λ (t : Text). let n = sub32 t.loc_end t.loc in (is_neg32 n || (n == 0)) ≡ false)
                (cut_old e) some_left in
            let at : sub32 loc (sub32 loc expected) ≡ expected = omega (arith, words, b) in
            let left' =
              subst (λ m. let n = sub32 clipped m in (is_neg32 n || (n == 0)) ≡ false) at left in
            let (_, g, h, i, j) =
              old_text loc p.size (bit fin) expected size z words x.short x.with_fin (bit-le fin) b
                e inside left' in
            let gone = 2 ^ 32 - sub32 loc expected in
            subst (λ t. IsText stream size c.rcv d t) (sym (cut_old e))
              (record {
                ahead = omega (arith, at);
                some_data = omega (arith, at, g);
                inside = h;
                carried = λ k l.
                    let o : p.off + gone + k ≡ p.off + (gone + k) = omega arith in
                    ap d o
                    ∙ x.bytes (gone + k) (omega (arith, at, l, j))
                    ∙ ap stream (omega (arith, at, v.seq_word, x.word, b, z, words, leb→le _ _ e));
              })
      ]
