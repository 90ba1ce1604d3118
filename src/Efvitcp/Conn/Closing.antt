-- ===== src/Efvitcp/Conn/Closing.antt =====
-- The end of a connection: `onClose`, `close`, and the retransmission timer that gives up.
use pollnet.Base.{
  ℕ, ◌≡◌, refl, ap, sym, subst, ◌∙◌, ◌⊎◌, inl, inr, Bool, true, false, Option, none, some, List, [],
  ◌∷◌, ◌++◌, append_assoc, Bool-cases,
}
use pollnet.Efvitcp.Conn.{Conf, Conn, SendBuf, Effect, sends, del_entry, is_closed}
use pollnet.Efvitcp.Conn.Bufs.{get_ack_buf, clear_fin, send_buf, update_last_ack}
use pollnet.Efvitcp.Conn.Send.{on_close, close, send_rst}

-- Both directions have ended, and no timer is linked.
pub record IsEnded (c : Conn) : Type 0 where
  pub closed : is_closed c ≡ true
  pub fin_sent : c.fin_sent ≡ true
  pub no_timer : (i : ℕ) → c.timers i ≡ none

-- The table's entry ends, and nothing follows.
pub data Ends (before after : List Effect) : Type 0 where
  by_del : after ≡ before ++ del_entry ∷ [] → Ends before after
  by_rst : (b : SendBuf) → after ≡ before ++ sends b ∷ del_entry ∷ [] → Ends before after

module _ (conf : Conf) where
  pub on_close-IsEnded :
      (to_time_wait : Bool) (c : Conn)
      → is_closed c ≡ false
      → IsEnded (on_close conf to_time_wait c)
  unfolding on_close is_closed
  on_close-IsEnded tw c e = elim (Bool-cases tw) [
    | inl t ↦ record { closed = rw (e, t); fin_sent = rw (e, t); no_timer = λ i. rw (e, t) }
    | inr t ↦ record { closed = rw (e, t); fin_sent = rw (e, t); no_timer = λ i. rw (e, t) }
  ]

  on_close-effects :
      (c : Conn)
      → is_closed c ≡ false
      → (on_close conf false c).effects ≡ c.effects ++ del_entry ∷ []
  unfolding on_close
  on_close-effects c e = rw e

  on_close-closed :
      (to_time_wait : Bool) (c : Conn) → is_closed c ≡ true → on_close conf to_time_wait c ≡ c
  unfolding on_close
  on_close-closed tw c e = rw e

  -- What `getAckBuf` leaves alone.
  pub clear_fin-keeps :
      (c : Conn) (o : Option ℕ)
      → let c' = (clear_fin conf c o).0 in (is_closed c' ≡ is_closed c) × (c'.effects ≡ c.effects)
  unfolding clear_fin is_closed
  clear_fin-keeps c none = (refl, refl)
  clear_fin-keeps c (some idx) = (refl, refl)

  get_ack_buf-keeps :
      (c : Conn)
      → let c' = (get_ack_buf conf c).0 in (is_closed c' ≡ is_closed c) × (c'.effects ≡ c.effects)
  unfolding get_ack_buf
  get_ack_buf-keeps c = clear_fin-keeps c _

module _ (conf : Conf) (now_ts : ℕ) where
  send_buf-is_closed :
      (n sum idx : ℕ) (c : Conn) → is_closed (send_buf conf now_ts n sum idx c) ≡ is_closed c
  unfolding send_buf update_last_ack is_closed
  send_buf-is_closed n sum idx c = refl

  send_buf-effects :
      (n sum idx : ℕ) (c : Conn)
      → (b : SendBuf) × ((send_buf conf now_ts n sum idx c).effects ≡ c.effects ++ sends b ∷ [])
  unfolding send_buf update_last_ack
  send_buf-effects n sum idx c = (_, refl)

  -- A frame at most is sent before the end.
  send_rst-keeps :
      (p : Conn × Option ℕ)
      → let c = send_rst conf now_ts p in
        (is_closed c ≡ is_closed p.0)
        × ((c.effects ≡ p.0.effects) ⊎ ((b : SendBuf) × (c.effects ≡ p.0.effects ++ sends b ∷ [])))
  unfolding send_rst is_closed send_buf update_last_ack
  send_rst-keeps (c, none) = (refl, inl refl)
  send_rst-keeps (c, some idx) = elim (Bool-cases c.established) [
    | inl told ↦ rw told (refl, inr (_, refl))
    | inr quiet ↦ rw quiet (refl, inl refl)
  ]

  -- What an open connection's end leaves in the log.
  Ends-cases :
      (c x : Conn)
      → is_closed x ≡ false
      → (x.effects ≡ c.effects) ⊎ ((b : SendBuf) × (x.effects ≡ c.effects ++ sends b ∷ []))
      → Ends c.effects (on_close conf false x).effects
  Ends-cases c x e (inl same) =
      by_del (on_close-effects conf x e ∙ ap (λ l. l ++ del_entry ∷ []) same)
  Ends-cases c x e (inr (b, one)) = by_rst b (
      on_close-effects conf x e
      ∙ ap (λ l. l ++ del_entry ∷ []) one
      ∙ append_assoc c.effects (sends b ∷ []) (del_entry ∷ []))

  close_open :
      (c : Conn)
      → is_closed c ≡ false
      → (x : Conn) × (close conf now_ts c ≡ on_close conf false x)
        × (is_closed x ≡ false)
        × ((x.effects ≡ c.effects) ⊎ ((b : SendBuf) × (x.effects ≡ c.effects ++ sends b ∷ [])))
  unfolding close
  close_open c e =
      let p = get_ack_buf conf c in
      let (same, calls) = get_ack_buf-keeps conf c in
      let (same', calls') = send_rst-keeps p in
      (
        send_rst conf now_ts p,
        rw e,
        same' ∙ same ∙ e,
        subst
            (λ l.
              ((send_rst conf now_ts p).effects ≡ l)
              ⊎ ((b : SendBuf) × ((send_rst conf now_ts p).effects ≡ l ++ sends b ∷ [])))
            calls calls',
      )

  close-closed : (c : Conn) → is_closed c ≡ true → close conf now_ts c ≡ c
  unfolding close
  close-closed c e = rw e

  -- An open connection is ended by `close`: the last call of the core ends its entry, after at most
  -- one frame, no timer stays linked, and to close it again does nothing.
  pub close-Ends :
      (c : Conn)
      → is_closed c ≡ false
      → let c' = close conf now_ts c in
        IsEnded c' × Ends c.effects c'.effects × (close conf now_ts c' ≡ c')
  close-Ends c e =
      let (x, eq, opened, log) = close_open c e in
      let ended = on_close-IsEnded conf false x opened in
      subst (λ c'. IsEnded c' × Ends c.effects c'.effects × (close conf now_ts c' ≡ c')) (sym eq)
        (ended, Ends-cases c x opened log, close-closed _ ended.closed)

  pub close-is_closed : (c : Conn) → is_closed (close conf now_ts c) ≡ true
  close-is_closed c = elim (Bool-cases (is_closed c)) [
    | inl e ↦ rw (close-closed c e, e)
    | inr e ↦ (close-Ends c e).0.closed
  ]
