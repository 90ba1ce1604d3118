-- ===== src/Efvitcp/Conn/Settle.antt =====
-- What `onSyn` of efvitcp/TcpConn.h takes up of the options of a SYN.
use pollnet.Base.{
  ℕ, ◌-◌, ◌%◌, ◌^◌, ◌≤◌, ◌≡◌, refl, ap, Bool, true, false, ◌&&◌, arith, if◌then◌else◌, min,
}
use pollnet.Base.Buf.{Buf}
use pollnet.Efvitcp.Conn.{Conf, Conn}
use pollnet.Efvitcp.Conn.Syn.{on_syn, begin_syn, settle_options, on_option}
use pollnet.Efvitcp.Conn.Options.{IsOptions, after, on_syn-after}

-- The configuration with the given options.
abbrev with_options : Conf → Bool → Bool → Conf
with_options conf w t = record conf { window_scale = w; timestamp = t }

no_option : {a b : ℕ} → false ≡ true → a ≡ b
no_option e = cc

-- What a side learns from the options of the other one.
pub record Agreed (conf : Conf) (stamps ws : Bool) (now shift : ℕ) (c c' : Conn) : Type 0 where
  pub ws_agreed : c'.has_ws ≡ (conf.window_scale && ws)
  pub shift_agreed : (conf.window_scale && ws) ≡ true → c'.send_wnd_shift ≡ min 14 shift
  pub ts_agreed : c'.has_ts ≡ (conf.timestamp && stamps)
  pub stamp_agreed : (conf.timestamp && stamps) ≡ true → c'.recent_ts ≡ now
  pub mss_agreed :
      c'.snd.smss
      ≡ min ((conf.send_mtu - 40) % 2 ^ 16) 1460 - (if conf.timestamp && stamps then 12 else 0)
  pub seq_agreed : c'.pending_ack ≡ true

agree :
    {conf : Conf} {stamps ws : Bool} {now shift : ℕ} {c c' : Conn}
    → c'.has_ws ≡ (conf.window_scale && ws)
    → ((conf.window_scale && ws) ≡ true → c'.send_wnd_shift ≡ min 14 shift)
    → c'.has_ts ≡ (conf.timestamp && stamps)
    → ((conf.timestamp && stamps) ≡ true → c'.recent_ts ≡ now)
    → c'.snd.smss
      ≡ min ((conf.send_mtu - 40) % 2 ^ 16) 1460 - (if conf.timestamp && stamps then 12 else 0)
    → c'.pending_ack ≡ true
    → Agreed conf stamps ws now shift c c'
agree a b e f g h = record {
  ws_agreed = a;
  shift_agreed = b;
  ts_agreed = e;
  stamp_agreed = f;
  mss_agreed = g;
  seq_agreed = h;
}

module _ (conf : Conf) {now shift : ℕ} (d : Buf) (mtu : 52 ≤ (conf.send_mtu - 40) % 2 ^ 16) where
  settle-plain :
      (w t : Bool) (c : Conn)
      → IsOptions false false now shift d
      → let conf' = with_options conf w t in
        Agreed conf' false false now shift c
          (settle_options conf' (after conf' d false false (begin_syn conf' d c)))
  unfolding settle_options on_option begin_syn
  settle-plain true true c o = agree refl no_option refl no_option (omega (arith, o.mss, mtu)) refl
  settle-plain true false c o = agree refl no_option refl no_option (omega (arith, o.mss, mtu)) refl
  settle-plain false true c o = agree refl no_option refl no_option (omega (arith, o.mss, mtu)) refl
  settle-plain false false c o =
      agree refl no_option refl no_option (omega (arith, o.mss, mtu)) refl

  settle-scaled :
      (w t : Bool) (c : Conn)
      → IsOptions false true now shift d
      → let conf' = with_options conf w t in
        Agreed conf' false true now shift c
          (settle_options conf' (after conf' d false true (begin_syn conf' d c)))
  unfolding settle_options on_option begin_syn
  settle-scaled true true c o =
      agree refl (λ e. ap (min 14) (o.scale refl).3) refl no_option (omega (arith, o.mss, mtu)) refl
  settle-scaled true false c o =
      agree refl (λ e. ap (min 14) (o.scale refl).3) refl no_option (omega (arith, o.mss, mtu)) refl
  settle-scaled false true c o =
      agree refl no_option refl no_option (omega (arith, o.mss, mtu)) refl
  settle-scaled false false c o =
      agree refl no_option refl no_option (omega (arith, o.mss, mtu)) refl

  settle-stamped :
      (w t : Bool) (c : Conn)
      → IsOptions true false now shift d
      → let conf' = with_options conf w t in
        Agreed conf' true false now shift c
          (settle_options conf' (after conf' d true false (begin_syn conf' d c)))
  unfolding settle_options on_option begin_syn
  settle-stamped true true c o =
      agree refl no_option refl (λ e. (o.stamp refl).4) (omega (arith, o.mss, mtu)) refl
  settle-stamped true false c o =
      agree refl no_option refl no_option (omega (arith, o.mss, mtu)) refl
  settle-stamped false true c o =
      agree refl no_option refl (λ e. (o.stamp refl).4) (omega (arith, o.mss, mtu)) refl
  settle-stamped false false c o =
      agree refl no_option refl no_option (omega (arith, o.mss, mtu)) refl

  settle-both :
      (w t : Bool) (c : Conn)
      → IsOptions true true now shift d
      → let conf' = with_options conf w t in
        Agreed conf' true true now shift c
          (settle_options conf' (after conf' d true true (begin_syn conf' d c)))
  unfolding settle_options on_option begin_syn
  settle-both true true c o =
      agree refl (λ e. ap (min 14) (o.scale refl).3) refl (λ e. (o.stamp refl).4)
        (omega (arith, o.mss, mtu)) refl
  settle-both true false c o =
      agree refl (λ e. ap (min 14) (o.scale refl).3) refl no_option (omega (arith, o.mss, mtu)) refl
  settle-both false true c o =
      agree refl no_option refl (λ e. (o.stamp refl).4) (omega (arith, o.mss, mtu)) refl
  settle-both false false c o = agree refl no_option refl no_option (omega (arith, o.mss, mtu)) refl

  -- A frame with these options is answered.
  pub on_syn-Agreed :
      (stamps ws : Bool) (c : Conn)
      → IsOptions stamps ws now shift d
      → Agreed conf stamps ws now shift c (on_syn conf d c)
  on_syn-Agreed false false c o =
      rw (on_syn-after conf d false false c o) (settle-plain conf.window_scale conf.timestamp c o)
  on_syn-Agreed false true c o =
      rw (on_syn-after conf d false true c o) (settle-scaled conf.window_scale conf.timestamp c o)
  on_syn-Agreed true false c o =
      rw (on_syn-after conf d true false c o) (settle-stamped conf.window_scale conf.timestamp c o)
  on_syn-Agreed true true c o =
      rw (on_syn-after conf d true true c o) (settle-both conf.window_scale conf.timestamp c o)
