-- ===== src/Efvitcp/Conn/Retry.antt =====
-- The retransmission timer, which `onTimer` links again until it gives up.
use pollnet.Base.{
  ℕ, ◌+◌, ◌%◌, ◌≡◌, refl, ap, inl, inr, Bool, true, false, none, some, List, [], ◌∷◌, arith, length,
  leb, ◌==◌, Bool-cases, not-leb, le→leb, if◌then◌else◌, min,
}
use pollnet.Efvitcp.Conn.{Conf, Conn, Handler, on_timeout, tell, is_closed, set_timer}
use pollnet.Efvitcp.Conn.Bufs.{start_resend_timer, update_last_ack, update_both_wnd_seq}
use pollnet.Efvitcp.Conn.Send.{close}
use pollnet.Efvitcp.Conn.Ack.{resend_una}
use pollnet.Efvitcp.Conn.Pack.{on_resend, on_timer}
use pollnet.Efvitcp.Conn.Closing.{close-is_closed}

module _ (conf : Conf) where
  -- How often a buffer is sent again.
  abbrev pub retry_limit : Conn → ℕ
  retry_limit c = min 31 (if c.established then conf.tcp_retries else conf.syn_retries)

  -- What a retransmission leaves as it is, and that it counts.
  record Retried (c c' : Conn) : Type 0 where
    counted : c'.retries ≡ (c.retries + 1) % 32
    established : c'.established ≡ c.established

  resend_una-Retried : (now_ts : ℕ) (b : Bool) (c : Conn) → Retried c (resend_una conf now_ts b c)
  unfolding resend_una update_last_ack
  resend_una-Retried now_ts false c = record { counted = refl; established = refl }
  resend_una-Retried now_ts true c = record { counted = refl; established = refl }

module _ (conf : Conf) (h : Handler) where
  -- The timer fires at the given times, and nothing else happens.
  pub fires : List ℕ → Conn → Conn
  unfolding on_timer
  fires [] c = c
  fires (now_ts ∷ later) c = fires later (on_timer conf now_ts h 0 (set_timer 0 none c))

  on_resend-Retried :
      (now_ts : ℕ) (c : Conn)
      → leb (retry_limit conf c) c.retries ≡ false
      → let c' = on_resend conf now_ts h c in Retried conf c c' × (c'.timers 0 ≡ some c'.rto)
  unfolding on_resend update_both_wnd_seq start_resend_timer
  on_resend-Retried now_ts c e =
      let again = resend_una-Retried conf now_ts (c.retries == 0) c in
      elim (Bool-cases (conf.congestion == 0)) [
        | inl off ↦
            rw (e, off) (record { counted = again.counted; established = again.established }, refl)
        | inr on ↦
            rw (e, on) (record { counted = again.counted; established = again.established }, refl)
      ]

  gives_up :
      (now_ts : ℕ) (c : Conn)
      → leb (retry_limit conf c) c.retries ≡ true
      → on_resend conf now_ts h c ≡ close conf now_ts (tell h on_timeout c)
  unfolding on_resend
  gives_up now_ts c e = rw e

  closes :
      (now_ts : ℕ) (c : Conn)
      → leb (retry_limit conf c) c.retries ≡ true
      → is_closed (on_resend conf now_ts h c) ≡ true
  closes now_ts c e = rw (gives_up now_ts c e) (close-is_closed conf now_ts (tell h on_timeout c))

  limit-Retried : (c c' : Conn) → Retried conf c c' → retry_limit conf c' ≡ retry_limit conf c
  limit-Retried c c' r =
      ap (λ b. min 31 (if b then conf.tcp_retries else conf.syn_retries)) r.established

  -- If nothing but the timer happens, the connection is closed when the timer has fired once more often
  -- than the retries that are left of the configured number, which is capped at 31.
  pub fires-is_closed :
      (now_ts : ℕ) (times : List ℕ) (c : Conn)
      → c.retries + length times ≡ retry_limit conf c
      → is_closed (fires (now_ts ∷ times) c) ≡ true
  unfolding fires on_timer
  fires-is_closed now_ts [] c e = closes now_ts (set_timer 0 none c) (le→leb _ _ (omega (arith, e)))
  fires-is_closed now_ts (t ∷ times) c e =
      let c0 = set_timer 0 none c in
      let again = (on_resend-Retried now_ts c0 (not-leb _ _ (omega (arith, e)))).0 in
      let c' = on_resend conf now_ts h c0 in
      fires-is_closed t times c' (omega (arith, e, again.counted, limit-Retried c0 c' again))
