-- ===== src/Efvitcp/Conn/Kept.antt =====
-- The bytes of the receive buffer of efvitcp/TcpConn.h that are kept or were taken, through the changes
-- of its segments in `onPack`.
use pollnet.Base.{
  ℕ, ◌+◌, ◌-◌, ◌^◌, ◌≤◌, ◌<◌, ◌≡◌, ◌⊎◌, refl, ◌∙◌, ap, subst, inl, inr, true, List, [], ◌∷◌, arith,
  length, leb, ltb, ◌==◌, Bool-cases, set, take,
}
use pollnet.Segs.{Seg, seg, at, skip, slot_end, place}
use pollnet.Segs.Order.{Ordered, Apart-le}
use pollnet.Segs.Cover.{within, covers, covers-place-Ordered}
use pollnet.Segs.Shift.{shift_down, covers-shift_down, last_end, covers-last_end}
use pollnet.Stream.{set_first}
use pollnet.Efvitcp.Conn.Text.{put_seg, max_recv_segs}
use pollnet.Efvitcp.Conn.Place.{take-Ordered}

-- The byte at `p` of the buffer was taken, or is kept.
abbrev pub IsKept : List Seg → ℕ → Type 0
IsKept segs p = (p < (at segs 0).first) ⊎ (covers segs p ≡ true)

-- Text that fewer than five segments are before is put in.
pub put_seg-covers :
    (limit loc loc_end : ℕ) (segs : List Seg) (p : ℕ)
    → Ordered limit segs
    → (at segs 0).second ≤ loc
    → loc < loc_end
    → skip loc segs < 5
    → within loc loc_end p ≡ true
    → covers (put_seg loc loc_end segs) p ≡ true
unfolding put_seg
put_seg-covers limit loc loc_end segs p h a b few w =
    let put : (base : List Seg)
        → Ordered limit base
        → at base 0 ≡ at segs 0
        → covers (place loc loc_end base) p ≡ true =
      λ base o e.
        let second : (at base 0).second ≡ (at segs 0).second = ap (λ (s : Seg). s.second) e in
        let c = covers-place-Ordered limit loc loc_end base p o (omega (arith, second)) b in
        ground (arith, c) in
    elim (Bool-cases (skip loc segs == slot_end loc loc_end segs)) [
      | inr meets ↦ rw meets (put segs h refl)
      | inl none_met ↦ elim (Bool-cases (leb max_recv_segs (skip loc segs))) [
        | inl past ↦ absurd (ground arith)
        | inr inside ↦ elim (Bool-cases (length segs == max_recv_segs)) [
          | inl full ↦
              let t = take-Ordered 3 limit segs h in
              rw (none_met, inside, full) (put (take 4 segs) t.0 t.1)
          | inr some_left ↦ rw (none_met, inside, some_left) (put segs h refl)
        ]
      ]
    ]

-- What the handler takes off the first segment, it has taken.
pub set_first-IsKept :
    (new p : ℕ) (segs : List Seg)
    → IsKept segs p
    → (at segs 0).first ≤ new
    → IsKept (set_first new segs) p
set_first-IsKept new p [] h l = h
set_first-IsKept new p (t ∷ r) (inl h) l = inl (omega arith)
set_first-IsKept new p (t ∷ r) (inr h) l = elim (Bool-cases (ltb p new)) [
  | inl before ↦ inl (ground arith)
  | inr behind ↦ inr (ground arith)
]

-- The bytes that are left move to the front.
pub shift_down-IsKept :
    (limit k : ℕ) (segs : List Seg)
    → limit ≤ 2 ^ 30
    → Ordered limit segs
    → IsKept segs k
    → let diff = (at segs 0).first in
      let segs' = shift_down diff segs in
      (k < diff + (at segs' 0).first) ⊎ (covers segs' (k - diff) ≡ true)
shift_down-IsKept limit k [] z h kept = absurd h
shift_down-IsKept limit k (t ∷ r) z h (inl before) = inl (omega arith)
shift_down-IsKept limit k (t ∷ r) z h (inr kept) = elim (Bool-cases (ltb k t.first)) [
  | inl before ↦ inl (ground arith)
  | inr behind ↦
      let same : t.first + (k - t.first) ≡ k = ground arith in
      let rest : covers (shift_down t.first r) (k - t.first) ≡ covers r k =
        covers-shift_down t.first t.second limit (k - t.first) r h.1 h.0 z ∙ ap (covers r) same in
      let le = Apart-le t.second limit r h.1 in inr (ground (arith, rest, le))
]

-- Nothing is left.
pub emptied-IsKept :
    (limit k : ℕ) (segs : List Seg)
    → Ordered limit segs
    → (at segs 0).first ≡ last_end segs
    → IsKept segs k
    → k < (at segs 0).first + (at (set segs 0 (seg 0 0)) 0).first
emptied-IsKept limit k [] h e kept = absurd h
emptied-IsKept limit k (t ∷ r) h e (inl before) = omega arith
emptied-IsKept limit k (t ∷ r) h e (inr kept) =
    omega (arith, e, (covers-last_end limit k t r h.1).2 kept)

pub unmoved-IsKept :
    (k : ℕ) (segs : List Seg)
    → IsKept segs k
    → (k < 0 + (at segs 0).first) ⊎ (covers segs (k - 0) ≡ true)
unmoved-IsKept k segs (inl before) = inl (omega arith)
unmoved-IsKept k segs (inr kept) =
    let same : k ≡ k - 0 = omega arith in inr (subst (λ n. covers segs n ≡ true) same kept)
