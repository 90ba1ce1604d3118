-- ===== src/Efvitcp/Conn/Accept.antt =====
-- How much `send` takes: the buffers that are free, filled up one by one.
use pollnet.Base.{
  ℕ, zero, suc, ◌+◌, ◌-◌, ◌*◌, ◌%◌, ◌^◌, ◌≤◌, ◌<◌, ◌≡◌, refl, ap, ap₂, sym, subst, ◌∙◌, inl, inr,
  ◌⊎◌, Bool, true, false, not, ◌&&◌, arith, ltb, ◌==◌, Bool-cases, ltb→ge, ltb→lt, min,
}
use native.Mathlib.Nat.{mul_comm, mul-suc, mul-le-mul_right}
use pollnet.Base.Word.{add32, sub32}
use pollnet.Base.Buf.{Buf, shift}
use pollnet.Efvitcp.Conn.{Conf, Conn, Snd}
use pollnet.Efvitcp.Conn.Bufs.{send_buf, advance_next, advance_data, update_last_ack}
use pollnet.Efvitcp.Conn.Send.{
  get_sendable, bufs_full, append, can_send, finish_buf, send_round, send_partial, send,
}

module _ (conf : Conf) where
  -- The buffers from the one that is being filled to the last free one.
  abbrev pub room : Snd → ℕ
  room s = sub32 (sub32 (add32 s.send_una conf.conn_send_buf_cnt) 1) s.data_next

  -- The ring of the send buffers: what is in use fits in it, and a buffer that is full is left.
  pub record IsQueue (s : Snd) : Type 0 where
    pub una_word : s.send_una < 2 ^ 32
    pub next_word : s.data_next < 2 ^ 32
    pub nonempty : 1 ≤ conf.conn_send_buf_cnt
    pub fits : sub32 s.data_next s.send_una < conf.conn_send_buf_cnt
    pub small : conf.conn_send_buf_cnt * s.smss < 2 ^ 32
    pub filled : s.data_next_size < s.smss
    pub fresh : room s ≡ 0 → s.data_next_size ≡ 0

mul_le : (k m s : ℕ) → k ≤ m → k * s ≤ m * s
mul_le k m s h = mul-le-mul_right s h

mul_pred : (k s : ℕ) → 1 ≤ k → k * s ≡ (k - 1) * s + s
mul_pred k s h =
    let e : k ≡ suc (k - 1) = omega arith in
    ap (λ x. x * s) e
    ∙ mul_comm (suc (k - 1)) s
    ∙ mul-suc s (k - 1)
    ∙ ap (λ x. x + s) (mul_comm s (k - 1))

-- What a round of `sendPartial` does to the ring: the buffer is filled further, or it is left.
record Filled (n : ℕ) (s s' : Snd) : Type 0 where
  una : s'.send_una ≡ s.send_una
  smss : s'.smss ≡ s.smss
  more :
      ((s'.data_next ≡ s.data_next)
        × (s'.data_next_size ≡ add32 s.data_next_size n)
        × (s'.data_next_size == s.smss ≡ false))
      ⊎ ((s'.data_next ≡ add32 s.data_next 1) × (s'.data_next_size ≡ 0))

module _ (conf : Conf) (now_ts : ℕ) where
  finish_buf-Filled :
      (n : ℕ) (c : Conn)
      → (s : Snd) → c.snd.send_una ≡ s.send_una
      → c.snd.smss ≡ s.smss
      → c.snd.data_next ≡ s.data_next
      → Filled n s (finish_buf conf now_ts c).snd
  unfolding finish_buf advance_data advance_next send_buf update_last_ack
  finish_buf-Filled n c s a b d = elim (Bool-cases (can_send conf now_ts c)) [
    | inl e ↦ rw e (record { una = a; smss = b; more = inr (ap (λ x. add32 x 1) d, refl) })
    | inr e ↦ rw e (record { una = a; smss = b; more = inr (ap (λ x. add32 x 1) d, refl) })
  ]

  send_round-Filled :
      (src : Buf) (n : ℕ) (last : Bool) (c : Conn)
      → Filled n c.snd (send_round conf now_ts src n last c).snd
  unfolding send_round append
  send_round-Filled src n last c =
      let c' = append conf now_ts src n c in
      elim (Bool-cases (add32 c.snd.data_next_size n == c.snd.smss)) [
        | inl full ↦ rw full (finish_buf-Filled n c' c.snd refl refl refl)
        | inr part ↦ elim (Bool-cases (last && can_send conf now_ts c')) [
          | inl now ↦ rw (part, now) (finish_buf-Filled n c' c.snd refl refl refl)
          | inr not_now ↦
              rw (part, not_now) (record { una = refl; smss = refl; more = inl (refl, refl, part) })
        ]
      ]

  smss_word : (c : Conn) → IsQueue conf c.snd → c.snd.smss < 2 ^ 32
  smss_word c q = omega (arith, q.small, mul_le 1 conf.conn_send_buf_cnt c.snd.smss q.nonempty)

  send_round-IsQueue :
      (src : Buf) (n : ℕ) (last : Bool) (c : Conn)
      → IsQueue conf c.snd
      → bufs_full conf c ≡ false
      → n ≤ c.snd.smss - c.snd.data_next_size
      → IsQueue conf (send_round conf now_ts src n last c).snd
  send_round-IsQueue src n last c q o h =
      let f = send_round-Filled src n last c in
      let s' = (send_round conf now_ts src n last c).snd in
      elim f.more as (λ m. IsQueue conf s') [
        | inl (same, more, part) ↦ record {
          una_word = omega (arith, f.una, q.una_word);
          next_word = omega (arith, same, q.next_word);
          nonempty = q.nonempty;
          fits = omega (arith, f.una, same, q.fits);
          small = subst (λ x. conf.conn_send_buf_cnt * x < 2 ^ 32) (sym f.smss) q.small;
          filled = ground (arith, more, part, f.smss, h, q.filled, smss_word c q);
          fresh = λ e. ground (arith, f.una, same, e, q.una_word, q.next_word, q.nonempty);
        }
        | inr (next, none_yet) ↦ record {
          una_word = omega (arith, f.una, q.una_word);
          next_word = omega (arith, next);
          nonempty = q.nonempty;
          fits = ground (arith, f.una, next, q.fits, q.una_word, q.next_word, q.small);
          small = subst (λ x. conf.conn_send_buf_cnt * x < 2 ^ 32) (sym f.smss) q.small;
          filled = omega (arith, none_yet, f.smss, q.filled);
          fresh = λ e. none_yet;
        }
      ]

  -- The bytes that the free buffers hold still.
  abbrev free : Snd → ℕ
  free s = room conf s * s.smss - s.data_next_size

  -- A round that is not the last one fills the buffer.
  round-free :
      (src : Buf) (n : ℕ) (last : Bool) (c : Conn)
      → IsQueue conf c.snd
      → bufs_full conf c ≡ false
      → n ≡ c.snd.smss - c.snd.data_next_size
      → n + free (send_round conf now_ts src n last c).snd ≡ free c.snd
  round-free src n last c q o h =
      let f = send_round-Filled src n last c in
      let s = c.snd in
      let s' = (send_round conf now_ts src n last c).snd in
      elim f.more as (λ m. n + free s' ≡ free s) [
        | inl (same, more, part) ↦ absurd (ground (arith, more, part, h, q.filled, smss_word c q))
        | inr (next, none_yet) ↦
            let fewer : room conf s' ≡ room conf s - 1 = ground (arith, f.una, next, q.next_word) in
            let some_left : 1 ≤ room conf s = ground (arith, q.next_word) in
            omega (
              arith,
              none_yet,
              h,
              q.filled,
              ap₂ (λ a b. a * b) fewer f.smss,
              mul_pred (room conf s) s.smss some_left,
            )
      ]

  -- The rest of the data fits in the buffer.
  last-fits :
      (size : ℕ) (c : Conn)
      → IsQueue conf c.snd
      → bufs_full conf c ≡ false
      → size ≤ c.snd.smss - c.snd.data_next_size
      → size ≤ free c.snd
  last-fits size c q o h =
      let some_left : 1 ≤ room conf c.snd = ground (arith, q.next_word) in
      omega (arith, mul_le 1 (room conf c.snd) c.snd.smss some_left)

  full-free : (c : Conn) → IsQueue conf c.snd → bufs_full conf c ≡ true → free c.snd ≡ 0
  full-free c q e =
      let none_left : room conf c.snd ≡ 0 = ground (arith, q.next_word) in
      omega (arith, ap (λ r. r * c.snd.smss) none_left)

  send_partial-free :
      (fuel : ℕ) (src : Buf) (size : ℕ) (last : Bool) (c : Conn)
      → size ≤ fuel
      → IsQueue conf c.snd
      → let (c', n) = send_partial conf now_ts fuel src size last c in
        IsQueue conf c'.snd × (n ≡ min size (free c.snd))
  unfolding send_partial
  send_partial-free zero src size last c h q = (q, omega arith)
  send_partial-free (suc fuel) src size last c h q = elim (Bool-cases (size == 0)) [
    | inl done ↦ rw done (q, ground arith)
    | inr more ↦ elim (Bool-cases (bufs_full conf c)) [
      | inl full ↦ rw (more, full) (q, omega (arith, full-free c q full))
      | inr left ↦
          let n = min (sub32 c.snd.smss c.snd.data_next_size) size in
          let exact : n ≡ min (c.snd.smss - c.snd.data_next_size) size =
            omega (arith, q.filled, smss_word c q) in
          let positive : 1 ≤ n = ground (arith, q.filled) in
          let (q', e) =
            send_partial-free fuel (shift src n) (size - n) last
              (send_round conf now_ts src n last c) (omega arith)
              (send_round-IsQueue src n last c q left (omega arith)) in
          rw (more, left)
            (
              q',
              elim (Bool-cases (ltb (c.snd.smss - c.snd.data_next_size) size)) [
                | inl whole ↦
                    let fills : n ≡ c.snd.smss - c.snd.data_next_size =
                      omega (arith, exact, ltb→lt _ _ whole) in
                    omega (arith, e, round-free src n last c q left fills)
                | inr part ↦
                    let fits : size ≤ c.snd.smss - c.snd.data_next_size = ltb→ge _ _ part in
                    omega (arith, e, last-fits size c q left fits)
              ],
            )
    ]
  ]

  sendable :
      (c : Conn)
      → IsQueue conf c.snd
      → free c.snd ≡ sub32 (room conf c.snd * c.snd.smss % 2 ^ 32) c.snd.data_next_size
  sendable c q = elim (Bool-cases (bufs_full conf c)) [
    | inl full ↦
        let none_left : room conf c.snd ≡ 0 = ground (arith, q.next_word) in
        omega (arith, ap (λ r. r * c.snd.smss) none_left, q.fresh none_left)
    | inr left ↦
        let some_left : 1 ≤ room conf c.snd = ground (arith, q.next_word) in
        let bound : room conf c.snd ≤ conf.conn_send_buf_cnt =
          ground (arith, q.next_word, q.una_word, q.fits, q.small) in
        omega (
          arith,
          q.filled,
          q.small,
          mul_le 1 (room conf c.snd) c.snd.smss some_left,
          mul_le (room conf c.snd) conf.conn_send_buf_cnt c.snd.smss bound,
        )
  ]

  -- On a ring of send buffers in order, `send` takes exactly as much of the data as `getSendable` says,
  -- or all of it where that is more, and the ring stays in order.
  pub send-get_sendable :
      (src : Buf) (size : ℕ) (more : Bool) (c : Conn)
      → IsQueue conf c.snd
      → let (c', n) = send conf now_ts src size more c in
        IsQueue conf c'.snd × (n ≡ min size (get_sendable conf c))
  unfolding send get_sendable
  send-get_sendable src size more c q = elim (Bool-cases c.fin_sent) [
    | inl fin ↦ simp fin (q, omega arith)
    | inr still ↦
        let (q', e) = send_partial-free size src size (not more) c (omega arith) q in
        simp still (q', e ∙ ap (min size) (sendable c q))
  ]
