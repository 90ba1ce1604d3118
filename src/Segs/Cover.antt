-- ===== src/Segs/Cover.antt =====
-- The offsets that a segment list covers.
use pollnet.Base.{
  ℕ, ◌≤◌, ◌<◌, ◌≡◌, refl, inl, inr, Bool, false, ◌&&◌, ◌||◌, List, [], ◌∷◌, arith, drop, ltb, leb,
  ltb→lt, Bool-cases, min, max,
}
use pollnet.Segs.{Seg, at, reach, place}
use pollnet.Segs.Order.{Apart, Ordered, place-nil, place-later, place-before, place-meets}

abbrev pub within : ℕ → ℕ → ℕ → Bool
within a b p = leb a p && ltb p b

abbrev pub covers : List Seg → ℕ → Bool
covers [] p = false
covers (s ∷ r) p = within s.first s.second p || covers r p

-- A segment that reaches from `a` to where a merge ends, and what is left behind it, cover what
-- the segments and `a .. loc_end` did.
covers-rest :
    (a loc_end limit : ℕ) (s : Seg) (r : List Seg) (p : ℕ)
    → Apart s.second limit r
    → a ≤ loc_end
    → a ≤ s.second
    → within a (max (at (s ∷ r) (reach loc_end r)).second loc_end) p
        || covers (drop (reach loc_end r) r) p
      ≡ within a (max s.second loc_end) p || covers r p
unfolding reach
covers-rest a loc_end limit s [] p h k l = refl
covers-rest a loc_end limit s (t ∷ r) p h k l = elim (Bool-cases (leb t.first loc_end)) [
  | inl e ↦ rw e (ground (arith, covers-rest a loc_end limit t r p h.2 k))
  | inr e ↦ rw e
]

-- Placing a segment covers what was covered and the segment's own offsets, and nothing else.
covers-place :
    (lo limit loc loc_end : ℕ) (segs : List Seg) (p : ℕ)
    → Apart lo limit segs
    → loc < loc_end
    → covers (place loc loc_end segs) p ≡ covers segs p || within loc loc_end p
covers-place lo limit loc loc_end [] p h k = rw place-nil (ground arith)
covers-place lo limit loc loc_end (s ∷ r) p h k = elim (Bool-cases (ltb s.second loc)) [
  | inl later ↦
      rw (place-later loc loc_end s r (ltb→lt _ _ later))
        (ground (arith, covers-place s.second limit loc loc_end r p h.2 k))
  | inr here ↦ elim (Bool-cases (ltb loc_end s.first)) [
    | inl before ↦
        rw (place-before loc loc_end s r (ground arith) (ltb→lt _ _ before)) (ground arith)
    | inr meets ↦
        rw (place-meets loc loc_end s r (ground arith) (ground arith))
          (ground (arith, covers-rest (min s.first loc) loc_end limit s r p h.2))
  ]
]

-- The same of a list whose first segment may be empty.
pub covers-place-Ordered :
    (limit loc loc_end : ℕ) (segs : List Seg) (p : ℕ)
    → Ordered limit segs
    → (at segs 0).second ≤ loc
    → loc < loc_end
    → covers (place loc loc_end segs) p ≡ covers segs p || within loc loc_end p
covers-place-Ordered limit loc loc_end [] p h a b = absurd h
covers-place-Ordered limit loc loc_end (t ∷ r) p h a b = elim (Bool-cases (ltb t.second loc)) [
  | inl later ↦
      rw (place-later loc loc_end t r (ltb→lt _ _ later))
        (ground (arith, covers-place t.second limit loc loc_end r p h.1 b))
  | inr here ↦
      rw (place-meets loc loc_end t r (ground arith) (ground arith))
        (ground (arith, covers-rest (min t.first loc) loc_end limit t r p h.1))
]
