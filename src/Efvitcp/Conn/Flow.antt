-- ===== src/Efvitcp/Conn/Flow.antt =====
-- The two loops that move the ring of the send buffers when an acknowledgement arrives, in `onPack` of
-- efvitcp/TcpConn.h: what is acknowledged leaves it, and what the window allows is sent.
use pollnet.Base.{
  ℕ, zero, suc, ◌+◌, ◌-◌, ◌^◌, ◌≤◌, ◌<◌, ◌≡◌, ◌≢◌, refl, subst, ◌∙◌, inl, inr, ◌⊎◌, Bool, true,
  false, not, ◌||◌, arith, ◌==◌, Bool-cases, if◌then◌else◌,
}
use pollnet.Base.Word.{add32, sub32, is_neg32}
use pollnet.Efvitcp.Conn.{Conf, Conn, Snd}
use pollnet.Efvitcp.Conn.Bufs.{get_send_seq, send_buf, advance_next, advance_data, update_last_ack}
use pollnet.Efvitcp.Conn.Ack.{advance_una, send_waiting, send_unsent}

-- The size of the oldest buffer that waits.
abbrev waiting_size : Snd → ℕ
waiting_size s = if s.data_next == s.send_next then s.data_next_size else s.smss

-- The buffers that wait, with the one that is being filled if it holds data.
abbrev pub backlog : Snd → ℕ
backlog s = sub32 s.data_next s.send_next + (if s.data_next_size == 0 then 0 else 1)

abbrev pub IsWord : Snd → Type 0
IsWord s = (s.send_next < 2 ^ 32) × (s.data_next < 2 ^ 32)

-- A buffer was sent.
record Sent (s s' : Snd) : Type 0 where
  una : s'.send_una ≡ s.send_una
  next : s'.send_next ≡ add32 s.send_next 1
  filling : s'.data_next ≡ (if s.data_next == s.send_next then add32 s.data_next 1 else s.data_next)
  size : s'.data_next_size ≡ (if s.data_next == s.send_next then 0 else s.data_next_size)

fewer :
    (s s' : Snd)
    → Sent s s'
    → IsWord s
    → (waiting_size s == 0) ≡ false
    → (backlog s' + 1 ≡ backlog s) × IsWord s'
fewer s s' m w e = ground (arith, m.una, m.next, m.filling, m.size)

module _ (conf : Conf) where
  -- Where it would end.
  abbrev past_window : Snd → ℕ
  past_window s = sub32 (add32 (get_send_seq conf s.send_next s) (waiting_size s)) s.both_wnd_seq

  -- Nothing waits, or the window has no room for it.
  abbrev pub IsStopped : Snd → Type 0
  IsStopped s = (waiting_size s ≡ 0) ⊎ ((is_neg32 (past_window s) || (past_window s == 0)) ≡ false)

module _ (conf : Conf) (now_ts : ℕ) where
  send_waiting-Sent : (n : ℕ) (c : Conn) → Sent c.snd (send_waiting conf now_ts n c).snd
  unfolding send_waiting send_buf advance_next advance_data update_last_ack
  send_waiting-Sent n c = elim (Bool-cases (c.snd.data_next == c.snd.send_next)) [
    | inl e ↦ rw e (record { una = refl; next = refl; filling = rw e; size = rw e })
    | inr e ↦ rw e (record { una = refl; next = refl; filling = rw e; size = rw e })
  ]

  -- With a round for each buffer that waits, the loop goes on as long as something waits that the
  -- window has room for; the backlog does not grow, and nothing is taken for acknowledged.
  pub send_unsent-IsStopped :
      (fuel : ℕ) (c : Conn)
      → IsWord c.snd
      → backlog c.snd ≤ fuel
      → let c' = send_unsent conf now_ts fuel c in
        IsStopped conf c'.snd
        × (c'.snd.send_una ≡ c.snd.send_una)
        × (backlog c'.snd ≤ backlog c.snd)
  unfolding send_unsent
  send_unsent-IsStopped zero c w b = (inl (ground arith), refl, omega arith)
  send_unsent-IsStopped (suc fuel) c w b = elim (Bool-cases (waiting_size c.snd == 0)) [
    | inl e ↦ rw e (inl (ground arith), refl, omega arith)
    | inr e ↦
        elim (Bool-cases (is_neg32 (past_window conf c.snd) || (past_window conf c.snd == 0))) [
          | inr k ↦ rw (e, k) (inr k, refl, omega arith)
          | inl k ↦
              let c' = send_waiting conf now_ts (waiting_size c.snd) c in
              let m = send_waiting-Sent (waiting_size c.snd) c in
              let (less, w') = fewer c.snd c'.snd m w e in
              let (stopped, una, left) = send_unsent-IsStopped fuel c' w' (omega (arith, less)) in
              rw (e, k) (stopped, una ∙ m.una, omega (arith, less, left))
        ]
  ]

module _ (conf : Conf) (ack_num : ℕ) where
  -- The acknowledgement covers the buffers before the given one.
  abbrev covers_next : ℕ → Snd → Bool
  covers_next una s = not (is_neg32 (sub32 ack_num (get_send_seq conf (add32 una 1) s)))

  -- From `s` to `s'` the loop passed what is acknowledged, and stopped at what is not.
  pub record Advanced (s s' : Snd) : Type 0 where
    pub within : sub32 s'.send_una s.send_una ≤ sub32 s.send_next s.send_una
    pub acked :
        (k : ℕ) → k < sub32 s'.send_una s.send_una → covers_next (add32 s.send_una k) s ≡ true
    pub stopped : (s'.send_una ≡ s.send_next) ⊎ (covers_next s'.send_una s ≡ false)
    pub kept : s' ≡ record s { send_una = s'.send_una }

  -- One buffer more was passed.
  passed :
      (s s' : Snd)
      → s.send_una < 2 ^ 32
      → s.send_next < 2 ^ 32
      → s.send_una ≢ s.send_next
      → covers_next s.send_una s ≡ true
      → Advanced (record s { send_una = add32 s.send_una 1 }) s'
      → Advanced s s'
  passed s s' u w n k a = record {
    within = omega (arith, a.within, n);
    acked = λ j h. elim (Bool-cases (j == 0)) [
      | inl first ↦
          let e : s.send_una ≡ add32 s.send_una j = ground arith in
          subst (λ i. covers_next i s ≡ true) e k
      | inr later ↦
          let e : add32 (add32 s.send_una 1) (j - 1) ≡ add32 s.send_una j = ground arith in
          subst (λ i. covers_next i s ≡ true) e (a.acked (j - 1) (ground (arith, a.within, n)))
    ];
    stopped = a.stopped;
    kept = a.kept;
  }

  -- With a round for each buffer in flight, the loop passes exactly those that are acknowledged, up to
  -- the first one that is not, never past what was sent, and the rest of what is kept for sending stays.
  pub advance_una-Advanced :
      (fuel : ℕ) (c : Conn)
      → c.snd.send_una < 2 ^ 32
      → c.snd.send_next < 2 ^ 32
      → sub32 c.snd.send_next c.snd.send_una ≤ fuel
      → Advanced c.snd (advance_una conf fuel ack_num c).snd
  unfolding advance_una
  advance_una-Advanced zero c u w b = record {
    within = omega arith;
    acked = λ k h. absurd (omega arith);
    stopped = inl (omega arith);
    kept = refl;
  }
  advance_una-Advanced (suc fuel) c u w b = elim (Bool-cases (c.snd.send_una == c.snd.send_next)) [
    | inl e ↦ rw e (record {
      within = omega arith;
      acked = λ k h. absurd (omega arith);
      stopped = inl (ground arith);
      kept = refl;
    })
    | inr e ↦ elim (Bool-cases (covers_next c.snd.send_una c.snd)) [
      | inr k ↦
          rw (e, k)
            (record {
              within = omega arith;
              acked = λ j h. absurd (omega arith);
              stopped = inr k;
              kept = refl;
            })
      | inl k ↦
          let una = c.snd.send_una in
          let c1 = record c { snd = record c.snd { send_una = add32 una 1 } } in
          let differ : una ≢ c.snd.send_next = ground arith in
          let a = advance_una-Advanced fuel c1 (omega arith) w (omega (arith, differ)) in
          rw (e, k) (passed c.snd (advance_una conf fuel ack_num c1).snd u w differ k a)
    ]
  ]
