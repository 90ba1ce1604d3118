-- ===== src/Efvitcp/Conn/Offer.antt =====
-- The options of a SYN as `sendSyn` of efvitcp/TcpConn.h writes them.
use pollnet.Base.{
  ℕ, ◌+◌, ◌-◌, ◌*◌, ◌/◌, ◌%◌, ◌^◌, ◌≤◌, ◌<◌, ◌≡◌, refl, subst, ◌∙◌, inl, inr, true, false, ◌&&◌,
  List, [], ◌∷◌, ◌++◌, arith, ◌==◌, Bool-cases,
}
use pollnet.Base.Buf.{Buf, memcpy}
use pollnet.Wire.{data_offset}
use pollnet.Efvitcp.Conn.{Conf, Conn, SendBuf, Effect, sends, del_entry, enter_tw, reports}
use pollnet.Efvitcp.Conn.Bufs.{
  send_buf, advance_next, start_resend_timer, has_stamps, get_send_buf, update_last_ack,
}
use pollnet.Efvitcp.Conn.Setup.{send_syn, send_syn_buf}
use pollnet.Efvitcp.Conn.Syn.{on_syn}
use pollnet.Efvitcp.Conn.Options.{==-same, IsOptions}
use pollnet.Efvitcp.Conn.Settle.{Agreed, on_syn-Agreed}

-- The frame that was sent last.
abbrev pub last_frame : SendBuf → List Effect → SendBuf
last_frame b [] = b
last_frame b (sends b' ∷ es) = last_frame b' es
last_frame b (del_entry ∷ es) = last_frame b es
last_frame b (enter_tw b' t r ∷ es) = last_frame b es
last_frame b (reports e ∷ es) = last_frame b es

pub last_frame-append :
    (b b' : SendBuf) (es : List Effect) → last_frame b (es ++ sends b' ∷ []) ≡ b'
last_frame-append b b' [] = refl
last_frame-append b b' (sends x ∷ es) = last_frame-append x b' es
last_frame-append b b' (del_entry ∷ es) = last_frame-append b b' es
last_frame-append b b' (enter_tw x t r ∷ es) = last_frame-append b b' es
last_frame-append b b' (reports e ∷ es) = last_frame-append b b' es

-- A frame that carries the options of a send buffer.
pub record IsFrame (d : Buf) (b : SendBuf) : Type 0 where
  pub offset : data_offset d ≡ b.offset_flags / 16 % 16
  pub same : (k : ℕ) → k < data_offset d * 4 - 20 → d (54 + k) ≡ b.area k

-- The header of the timestamp option is in place, as `reset` writes it.
abbrev pub HasHeader : Conf → Conn → Type 0
HasHeader conf c =
    let area = (get_send_buf conf c.snd.send_next c.snd).area in
    (area 0 ≡ 1) × (area 1 ≡ 1) × (area 2 ≡ 8) × (area 3 ≡ 10)

module _ (conf : Conf) (now_ts : ℕ) (c : Conn) (d : Buf) (x : SendBuf) where
  pub send_syn-effects : (send_syn conf now_ts c).effects ≡ (send_syn_buf conf now_ts c).effects
  unfolding send_syn advance_next start_resend_timer
  send_syn-effects =
      let s = (send_syn_buf conf now_ts c).snd in
      elim (Bool-cases (s.send_next == s.send_una)) [ inl e ↦ rw e | inr e ↦ rw e ]

  syn-IsOptions_plain :
      has_stamps conf c ≡ false
      → (conf.window_scale && c.has_ws) ≡ false
      → IsFrame d (last_frame x (send_syn conf now_ts c).effects)
      → IsOptions false false now_ts c.recv_wnd_shift d
  unfolding send_syn_buf send_buf update_last_ack memcpy
  syn-IsOptions_plain st w f =
      let f' = subst (λ es. IsFrame d (last_frame x es)) send_syn-effects f in
      let g = subst (IsFrame d) (last_frame-append x _ c.effects) f' in
      let self = ==-same (c.snd.send_next % conf.conn_send_buf_cnt) in
      let ends : data_offset d ≡ 6 = g.offset ∙ rw (self, st, w) (omega arith) in
      let at = λ (k : ℕ) (h : k < 4). rw (self, st, w) at g.same k (omega (arith, ends)) in
      record {
        stamp = λ e. cc;
        mss = (at 0 (omega arith), at 1 (omega arith), at 2 (omega arith), at 3 (omega arith));
        scale = λ e. cc;
        ends = omega (arith, ends);
      }

  syn-IsOptions_scaled :
      has_stamps conf c ≡ false
      → (conf.window_scale && c.has_ws) ≡ true
      → IsFrame d (last_frame x (send_syn conf now_ts c).effects)
      → IsOptions false true now_ts c.recv_wnd_shift d
  unfolding send_syn_buf send_buf update_last_ack memcpy
  syn-IsOptions_scaled st w f =
      let f' = subst (λ es. IsFrame d (last_frame x es)) send_syn-effects f in
      let g = subst (IsFrame d) (last_frame-append x _ c.effects) f' in
      let self = ==-same (c.snd.send_next % conf.conn_send_buf_cnt) in
      let ends : data_offset d ≡ 7 = g.offset ∙ rw (self, st, w) (omega arith) in
      let at = λ (k : ℕ) (h : k < 8). rw (self, st, w) at g.same k (omega (arith, ends)) in
      record {
        stamp = λ e. cc;
        mss = (at 0 (omega arith), at 1 (omega arith), at 2 (omega arith), at 3 (omega arith));
        scale =
            λ e. (at 4 (omega arith), at 5 (omega arith), at 6 (omega arith), at 7 (omega arith));
        ends = omega (arith, ends);
      }

  syn-IsOptions_stamped :
      has_stamps conf c ≡ true
      → (conf.window_scale && c.has_ws) ≡ false
      → now_ts < 2 ^ 32
      → HasHeader conf c
      → IsFrame d (last_frame x (send_syn conf now_ts c).effects)
      → IsOptions true false now_ts c.recv_wnd_shift d
  unfolding send_syn_buf send_buf update_last_ack memcpy
  syn-IsOptions_stamped st w z hdr f =
      let f' = subst (λ es. IsFrame d (last_frame x es)) send_syn-effects f in
      let g = subst (IsFrame d) (last_frame-append x _ c.effects) f' in
      let self = ==-same (c.snd.send_next % conf.conn_send_buf_cnt) in
      let ends : data_offset d ≡ 9 = g.offset ∙ rw (self, st, w) (omega arith) in
      let at = λ (k : ℕ) (h : k < 16). rw (self, st, w) at g.same k (omega (arith, ends)) in
      record {
        stamp = λ e. (
          at 0 (omega arith) ∙ hdr.0,
          at 1 (omega arith) ∙ hdr.1,
          at 2 (omega arith) ∙ hdr.2,
          at 3 (omega arith) ∙ hdr.3,
          omega (
            arith,
            at 4 (omega arith),
            at 5 (omega arith),
            at 6 (omega arith),
            at 7 (omega arith),
          ),
        );
        mss = (at 12 (omega arith), at 13 (omega arith), at 14 (omega arith), at 15 (omega arith));
        scale = λ e. cc;
        ends = omega (arith, ends);
      }

  syn-IsOptions_both :
      has_stamps conf c ≡ true
      → (conf.window_scale && c.has_ws) ≡ true
      → now_ts < 2 ^ 32
      → HasHeader conf c
      → IsFrame d (last_frame x (send_syn conf now_ts c).effects)
      → IsOptions true true now_ts c.recv_wnd_shift d
  unfolding send_syn_buf send_buf update_last_ack memcpy
  syn-IsOptions_both st w z hdr f =
      let f' = subst (λ es. IsFrame d (last_frame x es)) send_syn-effects f in
      let g = subst (IsFrame d) (last_frame-append x _ c.effects) f' in
      let self = ==-same (c.snd.send_next % conf.conn_send_buf_cnt) in
      let ends : data_offset d ≡ 10 = g.offset ∙ rw (self, st, w) (omega arith) in
      let at = λ (k : ℕ) (h : k < 20). rw (self, st, w) at g.same k (omega (arith, ends)) in
      record {
        stamp = λ e. (
          at 0 (omega arith) ∙ hdr.0,
          at 1 (omega arith) ∙ hdr.1,
          at 2 (omega arith) ∙ hdr.2,
          at 3 (omega arith) ∙ hdr.3,
          omega (
            arith,
            at 4 (omega arith),
            at 5 (omega arith),
            at 6 (omega arith),
            at 7 (omega arith),
          ),
        );
        mss = (at 12 (omega arith), at 13 (omega arith), at 14 (omega arith), at 15 (omega arith));
        scale = λ e.
            (at 16 (omega arith), at 17 (omega arith), at 18 (omega arith), at 19 (omega arith));
        ends = omega (arith, ends);
      }

-- With the timestamp's header in place as `reset` writes it, and an MTU with room for it at the other
-- end: what `sendSyn` writes into the options, `onSyn` reads from a frame that carries them. Window
-- scale and timestamp are in use where the other end's configuration has them too, with the shift and
-- the time that were sent, and the MSS is the smaller one, less the timestamp's room.
pub send_syn-Agreed :
    (conf conf' : Conf) (now_ts : ℕ) (c c' : Conn) (d : Buf) (x : SendBuf)
    → now_ts < 2 ^ 32
    → HasHeader conf c
    → 52 ≤ (conf'.send_mtu - 40) % 2 ^ 16
    → IsFrame d (last_frame x (send_syn conf now_ts c).effects)
    → Agreed conf'
        (has_stamps conf c)
        (conf.window_scale && c.has_ws)
        now_ts
        c.recv_wnd_shift
        c'
        (on_syn conf' d c')
send_syn-Agreed conf conf' now_ts c c' d x z hdr mtu f = elim (Bool-cases (has_stamps conf c)) [
  | inl st ↦ elim (Bool-cases (conf.window_scale && c.has_ws)) [
    | inl w ↦
        rw (st, w)
          (on_syn-Agreed conf' d mtu true true c'
            (syn-IsOptions_both conf now_ts c d x st w z hdr f))
    | inr w ↦
        rw (st, w)
          (on_syn-Agreed conf' d mtu true false c'
            (syn-IsOptions_stamped conf now_ts c d x st w z hdr f))
  ]
  | inr st ↦ elim (Bool-cases (conf.window_scale && c.has_ws)) [
    | inl w ↦
        rw (st, w)
          (on_syn-Agreed conf' d mtu false true c' (syn-IsOptions_scaled conf now_ts c d x st w f))
    | inr w ↦
        rw (st, w)
          (on_syn-Agreed conf' d mtu false false c' (syn-IsOptions_plain conf now_ts c d x st w f))
  ]
]
