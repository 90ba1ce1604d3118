-- ===== src/Efvitcp/Conn/Free.antt =====
-- The buffer that `getAckBuf` of efvitcp/TcpConn.h finds among those that are not in use.
use pollnet.Base.{
  ℕ, zero, suc, ◌+◌, ◌-◌, ◌^◌, ◌≤◌, ◌<◌, ◌≡◌, refl, sym, subst, inl, inr, true, false, ltb→lt,
  ltb→ge, Option, none, some, arith, ltb, ◌==◌, Bool-cases,
}
use pollnet.Base.Word.{add32, sub32}
use pollnet.Efvitcp.Conn.{Conf, Conn, Snd}
use pollnet.Efvitcp.Conn.Bufs.{get_send_buf, find_avail, clear_fin, get_ack_buf}
use pollnet.Efvitcp.Conn.Accept.{IsQueue}

module _ (conf : Conf) where
  -- How far a buffer is from the oldest one in flight.
  abbrev pub ahead : Snd → ℕ → ℕ
  ahead s idx = sub32 idx s.send_una

  -- A buffer behind those in use that is free, or there is none up to the given distance.
  abbrev pub FreeBelow : Snd → ℕ → Option ℕ → Type 0
  FreeBelow s limit none =
      (idx : ℕ)
      → idx < 2 ^ 32
      → ahead s s.data_next ≤ ahead s idx
      → ahead s idx < limit
      → (get_send_buf conf idx s).avail ≡ false
  FreeBelow s limit (some idx) =
      ((get_send_buf conf idx s).avail ≡ true)
      × (ahead s s.data_next ≤ ahead s idx)
      × (ahead s idx < limit)

  -- One more distance, whose buffer is taken.
  widen :
      (s : Snd) (k idx : ℕ) (o : Option ℕ)
      → IsQueue conf s
      → idx < 2 ^ 32
      → ahead s idx ≡ k - 1
      → 0 < k
      → (get_send_buf conf idx s).avail ≡ false
      → FreeBelow s (k - 1) o
      → FreeBelow s k o
  widen s k idx (some i) q w at p taken f = (f.0, f.1, omega (arith, f.2))
  widen s k idx none q w at p taken f = λ i z h m. elim (Bool-cases (ltb (ahead s i) (k - 1))) [
    | inl below ↦ f i z h (ltb→lt _ _ below)
    | inr here ↦
        let same : idx ≡ i = omega (arith, at, q.una_word, ltb→ge _ _ here) in
        subst (λ j. (get_send_buf conf j s).avail ≡ false) same taken
  ]

  clear_fin-idx : (c : Conn) (o : Option ℕ) → (clear_fin conf c o).1 ≡ o
  unfolding clear_fin
  clear_fin-idx c none = refl
  clear_fin-idx c (some idx) = refl

  -- The search from the distance `k` downwards.
  find_avail-FreeBelow :
      (fuel k idx : ℕ) (s : Snd)
      → IsQueue conf s
      → idx ≡ sub32 (add32 s.send_una k) 1
      → ahead s s.data_next ≤ k
      → k ≤ fuel + ahead s s.data_next
      → k ≤ 2 ^ 30
      → FreeBelow s k (find_avail conf fuel idx s)
  unfolding find_avail
  find_avail-FreeBelow zero k idx s q e a b l = λ i z h m. absurd (omega arith)
  find_avail-FreeBelow (suc fuel) k idx s q e a b l =
      let u = q.una_word in
      let w = q.next_word in
      elim (Bool-cases (idx == sub32 s.data_next 1)) [
        | inl last ↦
            let here : ahead s s.data_next ≡ k = ground arith in
            rw last (λ i z h m. absurd (omega (arith, here)))
        | inr more ↦
            let there : ahead s s.data_next < k = ground arith in
            let at : ahead s idx ≡ k - 1 = omega (arith, e) in
            elim (Bool-cases (get_send_buf conf idx s).avail) [
              | inl free ↦ rw (more, free) (free, omega arith, omega arith)
              | inr taken ↦
                  let next : sub32 idx 1 ≡ sub32 (add32 s.send_una (k - 1)) 1 = omega (arith, e) in
                  rw (more, taken)
                    (widen s k idx (find_avail conf fuel (sub32 idx 1) s) q (omega (arith, e)) at
                      (omega arith) taken
                      (find_avail-FreeBelow fuel (k - 1) (sub32 idx 1) s q next (omega arith)
                        (omega arith) (omega arith)))
            ]
      ]

  -- On a ring in order, of at most 2^30 buffers, `getAckBuf` finds a buffer that is free and behind
  -- those in use, and finds none only if there is none.
  pub get_ack_buf-FreeBelow :
      (c : Conn)
      → IsQueue conf c.snd
      → conf.conn_send_buf_cnt ≤ 2 ^ 30
      → FreeBelow c.snd conf.conn_send_buf_cnt (get_ack_buf conf c).1
  unfolding get_ack_buf
  get_ack_buf-FreeBelow c q l =
      let s = c.snd in
      let last = sub32 (add32 s.send_una conf.conn_send_buf_cnt) 1 in
      subst (FreeBelow s conf.conn_send_buf_cnt) (sym (clear_fin-idx c _)) (
        find_avail-FreeBelow conf.conn_send_buf_cnt conf.conn_send_buf_cnt last s q refl
          (omega (arith, q.fits)) (omega arith) l)
