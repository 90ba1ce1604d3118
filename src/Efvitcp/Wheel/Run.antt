-- ===== src/Efvitcp/Wheel/Run.antt =====
-- Runs of the wheel: ticks, and timers that are set in between.
use pollnet.Base.{
  ℕ, zero, suc, ◌+◌, ◌-◌, ◌*◌, ◌/◌, ◌%◌, ◌^◌, ◌≤◌, ◌<◌, ◌≡◌, ◌≢◌, ◌⊎◌, inl, inr, refl, true, false,
  List, [], ◌∷◌, arith, ◌==◌, ◌∙◌, sym, subst,
}
use pollnet.Base.Word.{add32}
use pollnet.Efvitcp.Wheel.{Node, Wheel, add_timer, cascade, expire, poll_time}
use pollnet.Efvitcp.Wheel.Due.{
  has, has_at, Waits, fires_in, add_timer-Waits, add_timer-keeps, cascade-now_ts, cascade-short,
  cascade-InLong,
}

-- The slot of the tick goes off, and no other.
expire-short :
    (w : Wheel) (id r : ℕ)
    → r < 256
    → has id (w.short ((w.now_ts + r) % 256)) ≡ true
    → ((r ≡ 0) × (has id (expire w).1 ≡ true))
      ⊎ ((0 < r) × (has id ((expire w).0.short ((w.now_ts + r) % 256)) ≡ true))
unfolding expire
expire-short w id zero l h = inl (refl, ground arith)
expire-short w id (suc r) l h = inr (omega arith, ground arith)

-- A timer that goes off in the tick after `r` more, does so, or waits for `r` ticks then.
abbrev Steps : ℕ → ℕ → Wheel × List Node → Type 0
Steps id r (w', fired) = ((r ≡ 0) × (has id fired ≡ true)) ⊎ ((0 < r) × Waits w' id r)

-- Before the slot of the tick `now` goes off: in the first level, or to come in the second.
abbrev Comes : Wheel → ℕ → ℕ → ℕ → Type 0
Comes w now id r =
    ((r < 256) × (has id (w.short ((now + r) % 256)) ≡ true))
    ⊎ ((0 < r)
        × (256 ≤ now % 256 + r)
        × (now % 256 + r < 256 * 257)
        × (has_at id (add32 now r) (w.long ((now + r) / 256 % 256)) ≡ true))

expire-Steps : (w : Wheel) (id r : ℕ) → Comes w w.now_ts id r → Steps id r (expire w)
unfolding expire
expire-Steps w id r (inl (l, h)) = elim (expire-short w id r l h) [
  | inl (z, g) ↦ inl (z, g)
  | inr (z, g) ↦ inr (z, inl (z, omega arith, g))
]
expire-Steps w id r (inr (z, l, m, h)) = inr (z, inr (l, m, h))

cascade-Comes :
    (w : Wheel) (id r : ℕ)
    → w.now_ts < 2 ^ 32
    → Waits w id (suc r)
    → let w1 = record w { now_ts = add32 w.now_ts 1 } in Comes (cascade w1) w1.now_ts id r
cascade-Comes w id r b (inl (z, l, h)) =
    let w1 = record w { now_ts = add32 w.now_ts 1 } in
    let e : (w.now_ts + suc r) % 256 ≡ (add32 w.now_ts 1 + r) % 256 = omega arith in
    inl (omega arith, cascade-short w1 id _ (subst (λ j. has id (w.short j) ≡ true) e h))
cascade-Comes w id r b (inr (l, m, h)) =
    let w1 = record w { now_ts = add32 w.now_ts 1 } in
    let e : add32 w.now_ts (suc r) ≡ add32 (add32 w.now_ts 1) r = omega arith in
    let g : (w.now_ts + suc r) / 256 % 256 ≡ (add32 w.now_ts 1 + r) / 256 % 256 = omega arith in
    cascade-InLong w1 id r (omega arith) (omega arith) (omega arith) (
      subst (λ j. has_at id (add32 (add32 w.now_ts 1) r) (w.long j) ≡ true) g
        (subst (λ n. has_at id n (w.long ((w.now_ts + suc r) / 256 % 256)) ≡ true) e h))

-- One `pollTime` after the time has moved on.
poll_time-Steps :
    (ts : ℕ) (w : Wheel) (id r : ℕ)
    → w.now_ts < 2 ^ 32
    → ts ≢ w.now_ts
    → Waits w id (suc r)
    → Steps id r (poll_time ts w) × ((poll_time ts w).0.now_ts ≡ add32 w.now_ts 1)
unfolding poll_time expire
poll_time-Steps ts w id r b n h =
    let w1 = record w { now_ts = add32 w.now_ts 1 } in
    let e : (ts == w.now_ts) ≡ false = ground (arith, n) in
    rw e (
      expire-Steps (cascade w1) id r (
          subst (λ now. Comes (cascade w1) now id r) (sym (cascade-now_ts w1))
            (cascade-Comes w id r b h)),
      cascade-now_ts w1,
    )

-- A call of `pollTime` at some time, or of `addTimer`.
pub data Call : Type 0 where
  poll_at : ℕ → Call
  set : ℕ → Node → Call

-- The wheel after the calls, and the timers that went off in the last `pollTime`.
pub run : List Call → Wheel → List Node → Wheel × List Node
run [] w fired = (w, fired)
run (poll_at ts ∷ calls) w fired = let (w', fired') = poll_time ts w in run calls w' fired'
run (set duration_ts node ∷ calls) w fired = run calls (add_timer duration_ts node w) fired

abbrev pub polls : List Call → ℕ
polls [] = 0
polls (poll_at ts ∷ calls) = suc (polls calls)
polls (set duration_ts node ∷ calls) = polls calls

-- Each `pollTime` comes after the time has moved on.
abbrev pub Moves : List Call → Wheel → Type 0
Moves [] w = Unit {0}
Moves (poll_at ts ∷ calls) w = (ts ≢ w.now_ts) × Moves calls (poll_time ts w).0
Moves (set duration_ts node ∷ calls) w = Moves calls (add_timer duration_ts node w)

-- Setting a timer leaves the others to go off in their ticks.
Waits-add_timer :
    (d : ℕ) (node : Node) (w : Wheel) (id r : ℕ) → Waits w id r → Waits (add_timer d node w) id r
Waits-add_timer d node w id r (inl (z, l, h)) =
    let k = add_timer-keeps d node w id 0 ((w.now_ts + r) % 256) in
    inl (
      z,
      l,
      subst (λ n. has id ((add_timer d node w).short ((n + r) % 256)) ≡ true) (sym k.2) (k.0 h),
    )
Waits-add_timer d node w id r (inr (l, m, h)) =
    let k = add_timer-keeps d node w id (add32 w.now_ts r) ((w.now_ts + r) / 256 % 256) in
    subst
      (λ n.
        ((0 < r) × (r ≤ 256) × (has id ((add_timer d node w).short ((n + r) % 256)) ≡ true))
        ⊎ ((256 ≤ n % 256 + r)
            × (n % 256 + r < 256 * 257)
            × (has_at id (add32 n r) ((add_timer d node w).long ((n + r) / 256 % 256)) ≡ true)))
      (sym k.2) (inr (l, m, k.1 h))

run-quiet :
    (calls : List Call) (w : Wheel) (fired : List Node)
    → polls calls ≡ 0
    → (run calls w fired).1 ≡ fired
unfolding run
run-quiet [] w fired e = refl
run-quiet (poll_at ts ∷ calls) w fired e = absurd (omega arith)
run-quiet (set duration_ts node ∷ calls) w fired e =
    run-quiet calls (add_timer duration_ts node w) fired e

run-fires :
    (calls : List Call) (w : Wheel) (fired : List Node) (id r : ℕ)
    → w.now_ts < 2 ^ 32
    → Waits w id (suc r)
    → Moves calls w
    → polls calls ≡ suc r
    → has id (run calls w fired).1 ≡ true
unfolding run
run-fires [] w fired id r b h m e = absurd (omega arith)
run-fires (poll_at ts ∷ calls) w fired id r b h m e =
    let (w', fired') = poll_time ts w in
    let (steps, now) = poll_time-Steps ts w id r b m.0 h in
    elim steps [
      | inl (z, g) ↦ subst (λ f. has id f ≡ true) (sym (run-quiet calls w' fired' (omega arith))) g
      | inr (z, g) ↦
          let back : suc (r - 1) ≡ r = omega arith in
          run-fires calls w' fired' id (r - 1) (omega (arith, now))
            (subst (Waits w' id) (sym back) g) m.1 (omega arith)
    ]
run-fires (set d node ∷ calls) w fired id r b h m e =
    run-fires calls (add_timer d node w) fired id r
      (omega (arith, (add_timer-keeps d node w id 0 0).2)) (Waits-add_timer d node w id (suc r) h) m
      e

-- A timer of at least one tick, set at any time, goes off in the tick that it is set for,
-- or, for one that is longer than the wheel, in the last tick that it holds, whatever other timers
-- are set in between.
pub timer-fires :
    (duration_ts : ℕ) (node : Node) (w : Wheel) (calls : List Call)
    → w.now_ts < 2 ^ 32
    → 0 < duration_ts
    → Moves calls (add_timer duration_ts node w)
    → polls calls ≡ fires_in duration_ts w
    → has node.conn_id (run calls (add_timer duration_ts node w) []).1 ≡ true
timer-fires d node w calls b z m e =
    let w' = add_timer d node w in
    let n = fires_in d w in
    let back : suc (n - 1) ≡ n = ground arith in
    run-fires calls w' [] node.conn_id (n - 1) (omega (arith, (add_timer-keeps d node w 0 0 0).2))
      (subst (Waits w' node.conn_id) (sym back) (add_timer-Waits d node w b z)) m (e ∙ sym back)
