-- ===== src/Efvitcp/Wheel/Due.antt =====
-- The slot of the wheel that a timer waits in, by the ticks that it has left.
use pollnet.Base.{
  ℕ, ◌+◌, ◌-◌, ◌*◌, ◌/◌, ◌%◌, ◌^◌, ◌≤◌, ◌<◌, ◌≡◌, ◌≢◌, ◌⊎◌, inl, inr, refl, Bool, true, false, ◌||◌,
  ◌&&◌, List, [], ◌∷◌, arith, if◌then◌else◌, ◌==◌, leb, ltb, min, ◌∙◌, subst, Bool-cases,
}
use pollnet.Base.Word.{add32, sub32}
use pollnet.Efvitcp.Wheel.{Node, Wheel, add_timer, add_all, cascade}

-- A slot holds a timer of the connection, and one with that `expire_ts`.
abbrev pub has : ℕ → List Node → Bool
has id [] = false
has id (node ∷ nodes) = (node.conn_id == id) || has id nodes

abbrev pub has_at : ℕ → ℕ → List Node → Bool
has_at id e [] = false
has_at id e (node ∷ nodes) = ((node.conn_id == id) && (node.expire_ts == e)) || has_at id e nodes

-- The slot of the first or of the second level in which the connection's timer goes off in `r` ticks.
abbrev pub InShort : Wheel → ℕ → ℕ → Type 0
InShort w id r = (0 < r) × (r ≤ 256) × (has id (w.short ((w.now_ts + r) % 256)) ≡ true)

abbrev pub InLong : Wheel → ℕ → ℕ → Type 0
InLong w id r =
    (256 ≤ w.now_ts % 256 + r)
    × (w.now_ts % 256 + r < 256 * 257)
    × (has_at id (add32 w.now_ts r) (w.long ((w.now_ts + r) / 256 % 256)) ≡ true)

abbrev pub Waits : Wheel → ℕ → ℕ → Type 0
Waits w id r = InShort w id r ⊎ InLong w id r

-- The ticks after which a timer set for `duration_ts` goes off.
abbrev pub fires_in : ℕ → Wheel → ℕ
fires_in duration_ts w =
    if leb duration_ts 256 then duration_ts else min duration_ts (256 * 257 - 1 - w.now_ts % 256)

-- The slots are the same with and without the wrap-around of the time.
short_index : (n : ℕ) → n % 2 ^ 32 % 256 ≡ n % 256
short_index n = omega arith

long_index : (n : ℕ) → n % 2 ^ 32 / 256 % 256 ≡ n / 256 % 256
long_index n = omega arith

pub add_timer-Waits :
    (duration_ts : ℕ) (node : Node) (w : Wheel)
    → w.now_ts < 2 ^ 32
    → 0 < duration_ts
    → Waits (add_timer duration_ts node w) node.conn_id (fires_in duration_ts w)
unfolding add_timer
add_timer-Waits d node w b z = elim (Bool-cases (leb d 256)) [
  | inl e ↦ rw e (inl (omega arith, ground arith, ground (arith, short_index (w.now_ts + d))))
  | inr e ↦ rw e (
      inr (
        ground arith,
        ground arith,
        ground (arith, long_index (w.now_ts + min d (256 * 257 - 1 - w.now_ts % 256))),
      ))
]

-- Adding a timer leaves the others where they are.
pub add_timer-keeps :
    (d : ℕ) (node : Node) (w : Wheel) (id e j : ℕ)
    → (has id (w.short j) ≡ true → has id ((add_timer d node w).short j) ≡ true)
      × (has_at id e (w.long j) ≡ true → has_at id e ((add_timer d node w).long j) ≡ true)
      × ((add_timer d node w).now_ts ≡ w.now_ts)
unfolding add_timer
add_timer-keeps d node w id e j = ground arith

add_all-keeps :
    (nodes : List Node) (w : Wheel) (id e j : ℕ)
    → (has id (w.short j) ≡ true → has id ((add_all nodes w).short j) ≡ true)
      × (has_at id e (w.long j) ≡ true → has_at id e ((add_all nodes w).long j) ≡ true)
      × ((add_all nodes w).now_ts ≡ w.now_ts)
unfolding add_all
add_all-keeps [] w id e j = (λ h. h, λ h. h, refl)
add_all-keeps (node ∷ nodes) w id e j =
    let d = sub32 node.expire_ts w.now_ts in
    let k = add_timer-keeps d node w id e j in
    let r = add_all-keeps nodes (add_timer d node w) id e j in
    (λ h. r.0 (k.0 h), λ h. r.1 (k.1 h), r.2 ∙ k.2)

add_timer-short :
    (node : Node) (w : Wheel) (r : ℕ)
    → w.now_ts < 2 ^ 32
    → r ≤ 256
    → node.expire_ts ≡ add32 w.now_ts r
    → has node.conn_id
        ((add_timer (sub32 node.expire_ts w.now_ts) node w).short ((w.now_ts + r) % 256))
      ≡ true
unfolding add_timer
add_timer-short node w r b l e =
    let back : sub32 node.expire_ts w.now_ts ≡ r = omega (arith, e) in
    rw back (ground (arith, short_index (w.now_ts + r)))

-- A timer that is moved to the first level goes into the slot of its tick.
add_all-short :
    (nodes : List Node) (w : Wheel) (id r : ℕ)
    → w.now_ts < 2 ^ 32
    → r ≤ 256
    → has_at id (add32 w.now_ts r) nodes ≡ true
    → has id ((add_all nodes w).short ((w.now_ts + r) % 256)) ≡ true
unfolding add_all
add_all-short [] w id r b l h = ground arith
add_all-short (node ∷ nodes) w id r b l h =
    let d = sub32 node.expire_ts w.now_ts in
    let w' = add_timer d node w in
    let same = (add_timer-keeps d node w id 0 0).2 in
    elim (Bool-cases ((node.conn_id == id) && (node.expire_ts == add32 w.now_ts r))) [
      | inl e ↦
          (add_all-keeps nodes w' id 0 ((w.now_ts + r) % 256)).0
            (ground (arith, add_timer-short node w r b l))
      | inr e ↦
          subst (λ n. has id ((add_all nodes w').short ((n + r) % 256)) ≡ true) same
            (add_all-short nodes w' id r (ground (arith, same)) l (ground (arith, same)))
    ]

-- What `cascade` does to the two levels.
pub cascade-now_ts : (w : Wheel) → (cascade w).now_ts ≡ w.now_ts
unfolding cascade
cascade-now_ts w = ground (arith, add_all-keeps (w.long (w.now_ts / 256 % 256)) w 0 0 0)

pub cascade-short :
    (w : Wheel) (id j : ℕ) → has id (w.short j) ≡ true → has id ((cascade w).short j) ≡ true
unfolding cascade
cascade-short w id j h = ground (arith, add_all-keeps (w.long (w.now_ts / 256 % 256)) w id 0 j)

cascade-long :
    (w : Wheel) (id e j : ℕ)
    → (w.now_ts % 256 ≡ 0 → j ≢ w.now_ts / 256 % 256)
    → has_at id e (w.long j) ≡ true
    → has_at id e ((cascade w).long j) ≡ true
unfolding cascade
cascade-long w id e j n h =
    ground (arith, n, add_all-keeps (w.long (w.now_ts / 256 % 256)) w id e j)

cascade-moves :
    (w : Wheel) (id r : ℕ)
    → w.now_ts < 2 ^ 32
    → r ≤ 256
    → w.now_ts % 256 ≡ 0
    → has_at id (add32 w.now_ts r) (w.long (w.now_ts / 256 % 256)) ≡ true
    → has id ((cascade w).short ((w.now_ts + r) % 256)) ≡ true
unfolding cascade
cascade-moves w id r b l z h =
    ground (arith, add_all-short (w.long (w.now_ts / 256 % 256)) w id r b l h)

-- After the time has moved on to `now_ts`, a timer of the second level is in the first one, or is
-- still to come in a later slot of the second.
pub cascade-InLong :
    (w : Wheel) (id r : ℕ)
    → w.now_ts < 2 ^ 32
    → 256 ≤ (w.now_ts + 255) % 256 + 1 + r
    → (w.now_ts + 255) % 256 + 1 + r < 256 * 257
    → has_at id (add32 w.now_ts r) (w.long ((w.now_ts + r) / 256 % 256)) ≡ true
    → ((r < 256) × (has id ((cascade w).short ((w.now_ts + r) % 256)) ≡ true))
      ⊎ ((0 < r)
          × (256 ≤ w.now_ts % 256 + r)
          × (w.now_ts % 256 + r < 256 * 257)
          × (has_at id (add32 w.now_ts r) ((cascade w).long ((w.now_ts + r) / 256 % 256)) ≡ true))
cascade-InLong w id r b l m h = elim (Bool-cases (w.now_ts % 256 == 0)) [
  | inr e ↦
      inr (ground arith, ground arith, ground arith, cascade-long w id _ _ (λ z. ground arith) h)
  | inl e ↦ elim (Bool-cases (ltb r 256)) [
    | inl g ↦
        let same : (w.now_ts + r) / 256 % 256 ≡ w.now_ts / 256 % 256 = ground arith in
        inl (
          ground arith,
          cascade-moves w id r b (ground arith) (ground arith)
              (subst (λ j. has_at id (add32 w.now_ts r) (w.long j) ≡ true) same h),
        )
    | inr g ↦
        inr (ground arith, ground arith, ground arith, cascade-long w id _ _ (λ z. ground arith) h)
  ]
]
