-- ===== src/Efvitcp/Stack/Syn.antt =====
-- The SYN that efvitcp/TcpConn.h sends, as the other end sees it.
use pollnet.Base.{
  ℕ, ◌+◌, ◌*◌, ◌/◌, ◌%◌, ◌≤◌, ◌≡◌, refl, sym, ap, subst, ◌∙◌, inl, inr, false, ◌&&◌, arith,
  Bool-cases,
}
use pollnet.Base.Word.{add32}
use pollnet.Base.Buf.{Buf}
use pollnet.Wire.{swap16, swap32, le16, le32, data_offset}
use pollnet.Efvitcp.Csum.{set_opt_data_len}
use pollnet.Efvitcp.Conn.{Conf, Conn, SendBuf}
use pollnet.Efvitcp.Conn.Bufs.{
  get_send_buf, has_stamps, send_buf, advance_next, start_resend_timer, update_last_ack,
}
use pollnet.Efvitcp.Conn.Setup.{send_syn, send_syn_buf}
use pollnet.Efvitcp.Conn.Options.{==-same}
use pollnet.Efvitcp.Conn.Offer.{last_frame, last_frame-append, send_syn-effects}
use pollnet.Efvitcp.Conn.Pack.{flag}
use pollnet.Efvitcp.Core.Replies.{seg_len}

-- A frame with the number, the flags and the length of a send buffer.
pub record Carries (d : Buf) (b : SendBuf) : Type 0 where
  pub total : le16 d 16 ≡ b.tot_len
  pub seq : le32 d 38 ≡ b.seq_num
  pub ack : le32 d 42 ≡ b.ack_num
  pub offset : data_offset d ≡ b.offset_flags / 16 % 16
  pub flags : d 47 ≡ b.offset_flags / 256

-- What a SYN looks like to the one that answers it.
pub record IsSyn (seq : ℕ) (d : Buf) : Type 0 where
  pub number : le32 d 38 ≡ seq
  pub no_ack : flag 4 d ≡ false
  pub no_rst : flag 2 d ≡ false
  pub takes : seg_len d ≡ 1

-- The fields of a SYN from the number `seq` on.
abbrev SynFields : ℕ → SendBuf → Type 0
SynFields seq b =
    (b.seq_num ≡ seq)
    × (b.offset_flags % 16 ≡ 0)
    × (b.offset_flags / 256 ≡ 2)
    × (b.tot_len ≡ swap16 (20 + 4 * (b.offset_flags / 16 % 16)))
    × (5 ≤ b.offset_flags / 16 % 16)

module _ (conf : Conf) (now_ts : ℕ) (c : Conn) (x : SendBuf) where
  abbrev pub sent_syn : SendBuf
  sent_syn = last_frame x (send_syn conf now_ts c).effects

  abbrev pub seq_of : ℕ
  seq_of = (get_send_buf conf c.snd.send_next c.snd).seq_num

  sent_syn-fields : c.pending_ack ≡ false → SynFields seq_of sent_syn
  unfolding send_syn_buf send_buf update_last_ack set_opt_data_len
  sent_syn-fields p =
      let self = ==-same (c.snd.send_next % conf.conn_send_buf_cnt) in
      subst (λ es. SynFields seq_of (last_frame x es))
        (sym (send_syn-effects conf now_ts c (λ i. 0) x))
        (subst (SynFields seq_of) (sym (last_frame-append x _ c.effects))
          (elim (Bool-cases (has_stamps conf c)) [
            | inl st ↦ elim (Bool-cases (conf.window_scale && c.has_ws)) [
              | inl w ↦ rw (self, st, w, p) (omega arith)
              | inr w ↦ rw (self, st, w, p) (omega arith)
            ]
            | inr st ↦ elim (Bool-cases (conf.window_scale && c.has_ws)) [
              | inl w ↦ rw (self, st, w, p) (omega arith)
              | inr w ↦ rw (self, st, w, p) (omega arith)
            ]
          ]))

  -- A frame that carries it.
  pub sent_syn-IsSyn : (d : Buf) → c.pending_ack ≡ false → Carries d sent_syn → IsSyn seq_of d
  sent_syn-IsSyn d p k =
      let (a, b, e, f, g) = sent_syn-fields p in
      record {
        number = k.seq ∙ a;
        no_ack = ground (arith, k.flags, e);
        no_rst = ground (arith, k.flags, e);
        takes =
            let fin : flag 0 d ≡ false = ground (arith, k.flags, e) in
            rw fin (omega (arith, k.total, k.offset, k.flags, e, f, g));
      }

-- The number behind it.
send_syn_buf-same :
    (conf : Conf) (now_ts : ℕ) (c : Conn)
    → ((send_syn_buf conf now_ts c).snd.send_next ≡ c.snd.send_next)
      × ((get_send_buf conf c.snd.send_next (send_syn_buf conf now_ts c).snd).seq_num
          ≡ (get_send_buf conf c.snd.send_next c.snd).seq_num)
unfolding send_syn_buf send_buf update_last_ack
send_syn_buf-same conf now_ts c =
    let self = ==-same (c.snd.send_next % conf.conn_send_buf_cnt) in (refl, rw self refl)

advance_next-seq :
    (conf : Conf) (now_ts inc : ℕ) (c : Conn)
    → let c' = advance_next conf now_ts inc c in
      let b = get_send_buf conf c.snd.send_next c.snd in
      (get_send_buf conf c'.snd.send_next c'.snd).seq_num ≡ swap32 (add32 (swap32 b.seq_num) inc)
unfolding advance_next start_resend_timer
advance_next-seq conf now_ts inc c =
    let self = ==-same (c.snd.send_next % conf.conn_send_buf_cnt) in
    let self' = ==-same (add32 c.snd.send_next 1 % conf.conn_send_buf_cnt) in rw (self, self') refl

send_syn-steps :
    (conf : Conf) (now_ts : ℕ) (c : Conn)
    → send_syn conf now_ts c ≡ advance_next conf now_ts 1 (send_syn_buf conf now_ts c)
unfolding send_syn
send_syn-steps conf now_ts c = refl

abbrev pub next_seq : Conf → Conn → ℕ
next_seq conf c = (get_send_buf conf c.snd.send_next c.snd).seq_num

pub send_syn-next :
    (conf : Conf) (now_ts : ℕ) (c : Conn)
    → next_seq conf (send_syn conf now_ts c) ≡ swap32 (add32 (swap32 (next_seq conf c)) 1)
send_syn-next conf now_ts c =
    let (a, b) = send_syn_buf-same conf now_ts c in
    let sent = send_syn_buf conf now_ts c in
    ap (next_seq conf) (send_syn-steps conf now_ts c)
    ∙ advance_next-seq conf now_ts 1 sent
    ∙ ap (λ n. swap32 (add32 (swap32 (get_send_buf conf n sent.snd).seq_num) 1)) a
    ∙ ap (λ w. swap32 (add32 (swap32 w) 1)) b
