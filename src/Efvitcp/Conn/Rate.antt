-- ===== src/Efvitcp/Conn/Rate.antt =====
-- The arithmetic of the congestion control and of the round trip time: `cubic_root` and `update_rtt`.
use pollnet.Base.{
  ℕ, zero, suc, ◌+◌, ◌-◌, ◌*◌, ◌/◌, ◌^◌, ◌≤◌, ◌<◌, ◌≡◌, refl, sym, subst, ◌⊎◌, inl, inr, true,
  false, arith, leb, Bool-cases, leb→le, leb→gt, min, max,
}
use pollnet.Efvitcp.Conn.{Conn}
use pollnet.Efvitcp.Conn.Ack.{cubic_root, update_rtt}

abbrev cube : ℕ → ℕ
cube n = n * n * n

-- `r` is the cubic root of `wmax`, rounded down, or the bound 124.
pub record IsRoot (wmax r : ℕ) : Type 0 where
  pub bound : r ≤ 124
  pub below : r * r * r ≤ wmax
  pub above : (r ≡ 124) ⊎ (wmax < (r + 1) * (r + 1) * (r + 1))

module _ (fuel wmax l r : ℕ) where
  m : ℕ
  m = (l + r) / 2

  stop : leb l r ≡ false → cubic_root (suc fuel) wmax l r ≡ r
  unfolding cubic_root
  stop e = rw e

  step_low :
      leb l r ≡ true
      → leb (cube m) wmax ≡ true
      → cubic_root (suc fuel) wmax l r ≡ cubic_root fuel wmax (m + 1) r
  unfolding cubic_root m
  step_low e k = rw (e, k)

  step_high :
      leb l r ≡ true
      → leb (cube m) wmax ≡ false
      → cubic_root (suc fuel) wmax l r ≡ cubic_root fuel wmax l (m - 1)
  unfolding cubic_root m
  step_high e k = rw (e, k)

-- The loop keeps a root between the bounds, and halves their distance.
cubic_root-IsRoot_between :
    (fuel wmax p r : ℕ)
    → p ≤ r
    → r < p + 2 ^ fuel
    → r ≤ 124
    → cube p ≤ wmax
    → (r ≡ 124) ⊎ (wmax < cube (r + 1))
    → IsRoot wmax (cubic_root fuel wmax (p + 1) r)
unfolding m cubic_root
cubic_root-IsRoot_between zero wmax p r a b c d e =
    let same : p ≡ r = omega (arith, b) in
    subst (λ n. IsRoot wmax (cubic_root zero wmax (n + 1) r)) (sym same)
      (base r c (subst (λ n. cube n ≤ wmax) same d) e)
  where
    base :
        (r : ℕ)
        → r ≤ 124
        → cube r ≤ wmax
        → (r ≡ 124) ⊎ (wmax < cube (r + 1))
        → IsRoot wmax (cubic_root zero wmax (r + 1) r)
    base r c d e = record { bound = c; below = d; above = e }
cubic_root-IsRoot_between (suc fuel) wmax p r a b c d e = elim (Bool-cases (leb (p + 1) r)) [
  | inr k ↦
      let same : p ≡ r = ground arith in
      rw (stop fuel wmax (p + 1) r k)
        (record { bound = c; below = subst (λ n. cube n ≤ wmax) same d; above = e })
  | inl k ↦ elim (Bool-cases (leb (cube (m fuel wmax (p + 1) r)) wmax)) [
    | inl low ↦ rw (step_low fuel wmax (p + 1) r k low) (
        cubic_root-IsRoot_between fuel wmax ((p + 1 + r) / 2) r (ground arith) (ground arith) c
          (leb→le _ _ low) e)
    | inr high ↦
        let same : (p + 1 + r) / 2 ≡ (p + 1 + r) / 2 - 1 + 1 = omega (arith, leb→le _ _ k) in
        rw (step_high fuel wmax (p + 1) r k high) (
          cubic_root-IsRoot_between fuel wmax p ((p + 1 + r) / 2 - 1) (ground arith) (ground arith)
            (omega arith) d (inr (subst (λ n. wmax < cube n) same (leb→gt _ _ high))))
  ]
]

-- The search on `l` and `r` ends at the cubic root of `wmax`, rounded down, or at its bound 124.
pub cubic_root-IsRoot : (wmax : ℕ) → IsRoot wmax (cubic_root 8 wmax 1 124)
cubic_root-IsRoot wmax =
    cubic_root-IsRoot_between 8 wmax 0 124 (omega arith) (omega arith) (omega arith) (omega arith)
      (inl refl)

-- For times from 1 on, and below 2^30, the smoothed time stays between the old one and the measurement,
-- and the deviation between the old one and the measured deviation.
pub update_rtt-bounds :
    (rtt : ℕ) (c : Conn)
    → 1 ≤ rtt
    → rtt < 2 ^ 30
    → 1 ≤ c.srtt
    → c.srtt < 2 ^ 30
    → c.rttvar < 2 ^ 30
    → let c' = update_rtt rtt c in
      let deviation = max rtt c.srtt - min rtt c.srtt in
      (min rtt c.srtt ≤ c'.srtt)
      × (c'.srtt ≤ max rtt c.srtt)
      × (min c.rttvar deviation ≤ c'.rttvar)
      × (c'.rttvar ≤ max c.rttvar deviation)
unfolding update_rtt
update_rtt-bounds rtt c a b d e f = ground arith
