-- ===== src/Segs/Order.antt =====
-- The order that the segment list keeps: apart, none empty, within the buffer.
use pollnet.Base.{
  ℕ, suc, zero, ◌+◌, ◌≤◌, ◌<◌, ◌≡◌, ◌≢◌, refl, inl, inr, List, [], ◌∷◌, arith, length, drop, ltb,
  leb, Bool-cases, lt→ltb, le→leb, not-ltb, not-leb, ltb→lt, length-drop, length-take,
  length-append, take, ◌-◌, min, max,
}
use Prim.Native.Nat.add
use native.Mathlib.Numerals.{sub-one}
use pollnet.Segs.{Seg, seg, at, skip, reach, slot_end, splice, place}

-- Each segment begins past the end of the one before it, is not empty, and ends by `limit`.
abbrev pub Apart : ℕ → ℕ → List Seg → Type 0
Apart lo limit [] = lo ≤ limit
Apart lo limit (s ∷ r) = (lo < s.first) × (s.first < s.second) × Apart s.second limit r

pub Apart-le : (lo limit : ℕ) (r : List Seg) → Apart lo limit r → lo ≤ limit
Apart-le lo limit [] h = h
Apart-le lo limit (s ∷ r) h = omega (arith, Apart-le s.second limit r h.2)

-- What stands before the slots is left alone.
splice-suc :
    (i j loc loc_end : ℕ) (s : Seg) (r : List Seg)
    → i ≤ j
    → splice (suc i) (suc j) loc loc_end (s ∷ r) ≡ s ∷ splice i j loc loc_end r
unfolding splice
splice-suc i zero loc loc_end s r h = ground arith
splice-suc i (suc j) loc loc_end s r h = ground (arith, sub-one (suc j), sub-one j)

-- A segment that ends before the new one stays where it is.
pub place-later :
    (loc loc_end : ℕ) (s : Seg) (r : List Seg)
    → s.second < loc
    → place loc loc_end (s ∷ r) ≡ s ∷ place loc loc_end r
unfolding place skip
place-later loc loc_end s r h =
    rw (lt→ltb _ _ h, add.suc) (splice-suc (skip loc r) _ loc loc_end s r (omega arith))

-- The new segment ends before the first one begins.
pub place-before :
    (loc loc_end : ℕ) (s : Seg) (r : List Seg)
    → loc ≤ s.second
    → loc_end < s.first
    → place loc loc_end (s ∷ r) ≡ seg loc loc_end ∷ s ∷ r
unfolding place splice skip reach
place-before loc loc_end s r h k = rw (not-ltb _ _ h, not-leb _ _ k)

-- The new segment meets the first one, and `reach loc_end r` of those behind it.
pub place-meets :
    (loc loc_end : ℕ) (s : Seg) (r : List Seg)
    → loc ≤ s.second
    → s.first ≤ loc_end
    → place loc loc_end (s ∷ r)
      ≡ seg (min s.first loc) (max (at (s ∷ r) (reach loc_end r)).second loc_end)
        ∷ drop (reach loc_end r) r
unfolding place splice skip reach
place-meets loc loc_end s r h k = rw (not-ltb _ _ h, le→leb _ _ k, add.zero, sub-one) (ground arith)

pub place-nil : (loc loc_end : ℕ) → place loc loc_end [] ≡ seg loc loc_end ∷ []
unfolding place splice skip reach
place-nil loc loc_end = refl

-- What is left behind a merge begins past the merged segment.
rest-Apart :
    (loc_end limit : ℕ) (s : Seg) (r : List Seg)
    → Apart s.second limit r
    → loc_end ≤ limit
    → Apart (max (at (s ∷ r) (reach loc_end r)).second loc_end) limit (drop (reach loc_end r) r)
unfolding reach
rest-Apart loc_end limit s [] h k = omega arith
rest-Apart loc_end limit s (t ∷ r) h k = elim (Bool-cases (leb t.first loc_end)) [
  | inl e ↦ rw e (rest-Apart loc_end limit t r h.2 k)
  | inr e ↦ rw e (ground arith)
]

-- A merged segment ends no earlier than the first one that it takes in.
merged-le :
    (loc_end limit : ℕ) (s : Seg) (r : List Seg)
    → Apart s.second limit r
    → s.second ≤ (at (s ∷ r) (reach loc_end r)).second
unfolding reach
merged-le loc_end limit s [] h = omega arith
merged-le loc_end limit s (t ∷ r) h = elim (Bool-cases (leb t.first loc_end)) [
  | inl e ↦ rw e (omega (arith, merged-le loc_end limit t r h.2))
  | inr e ↦ rw e (omega arith)
]

-- A list that is in order stays in order.
place-Apart :
    (lo limit loc loc_end : ℕ) (segs : List Seg)
    → Apart lo limit segs
    → lo < loc
    → loc < loc_end
    → loc_end ≤ limit
    → Apart lo limit (place loc loc_end segs)
place-Apart lo limit loc loc_end [] h a b c = rw place-nil (omega arith)
place-Apart lo limit loc loc_end (s ∷ r) h a b c = elim (Bool-cases (ltb s.second loc)) [
  | inl later ↦
      rw (place-later loc loc_end s r (ltb→lt _ _ later))
        (h.0, h.1, place-Apart s.second limit loc loc_end r h.2 (ltb→lt _ _ later) b c)
  | inr here ↦ elim (Bool-cases (ltb loc_end s.first)) [
    | inl before ↦
        rw (place-before loc loc_end s r (ground arith) (ltb→lt _ _ before)) (ground arith)
    | inr meets ↦ rw (place-meets loc loc_end s r (ground arith) (ground arith)) (
      omega arith,
      omega (arith, merged-le loc_end limit s r h.2),
      rest-Apart loc_end limit s r h.2 c,
    )
  ]
]

skip-le : (loc : ℕ) (segs : List Seg) → skip loc segs ≤ length segs
unfolding skip
skip-le loc [] = omega arith
skip-le loc (s ∷ r) = ground (arith, skip-le loc r)

reach-le : (loc_end : ℕ) (segs : List Seg) → reach loc_end segs ≤ length segs
unfolding reach
reach-le loc_end [] = omega arith
reach-le loc_end (s ∷ r) = ground (arith, reach-le loc_end r)

-- Placing adds a segment where none is met, and none elsewhere.
pub length-place :
    (loc loc_end : ℕ) (segs : List Seg)
    → (length (place loc loc_end segs) ≤ length segs + 1)
      × (skip loc segs ≢ slot_end loc loc_end segs → length (place loc loc_end segs) ≤ length segs)
unfolding place splice
length-place loc loc_end segs = ground (
  arith,
  skip-le loc segs,
  reach-le loc_end (drop i segs),
  length-drop i segs,
  length-drop j segs,
  length-take i segs,
  length-append (take i segs) (seg loc loc_end ∷ drop i segs),
  length-append (take i segs)
      (seg (min (at segs i).first loc) (max (at segs (j - 1)).second loc_end) ∷ drop j segs),
)
  where
    i : ℕ
    i = skip loc segs

    j : ℕ
    j = slot_end loc loc_end segs

-- A first segment, maybe empty, of which all is in order, and segments apart from it.
abbrev pub Ordered : ℕ → List Seg → Type 0
Ordered limit [] = ⊥
Ordered limit (t ∷ r) = (t.first ≤ t.second) × Apart t.second limit r

-- A segment that begins at or past the end of the first one keeps this order.
pub place-Ordered :
    (limit loc loc_end : ℕ) (segs : List Seg)
    → Ordered limit segs
    → (at segs 0).second ≤ loc
    → loc < loc_end
    → loc_end ≤ limit
    → Ordered limit (place loc loc_end segs)
place-Ordered limit loc loc_end [] h a b c = absurd h
place-Ordered limit loc loc_end (t ∷ r) h a b c = elim (Bool-cases (ltb t.second loc)) [
  | inl later ↦
      rw (place-later loc loc_end t r (ltb→lt _ _ later))
        (h.0, place-Apart t.second limit loc loc_end r h.1 (ltb→lt _ _ later) b c)
  | inr here ↦
      rw (place-meets loc loc_end t r (ground arith) (ground arith))
        (omega (arith, merged-le loc_end limit t r h.1), rest-Apart loc_end limit t r h.1 c)
]

-- The first segment keeps its start, and its end unless the new one meets it.
pub place-head :
    (limit loc loc_end : ℕ) (segs : List Seg)
    → Ordered limit segs
    → (at segs 0).second ≤ loc
    → loc < loc_end
    → ((at (place loc loc_end segs) 0).first ≡ (at segs 0).first)
      × (skip loc segs ≢ 0 → at (place loc loc_end segs) 0 ≡ at segs 0)
      × (skip loc segs ≡ 0 → (at segs 0).second ≡ loc)
      × ((at segs 0).second < loc → skip loc segs ≢ 0)
unfolding skip
place-head limit loc loc_end [] h a b = absurd h
place-head limit loc loc_end (t ∷ r) h a b = elim (Bool-cases (ltb t.second loc)) [
  | inl later ↦
      rw (place-later loc loc_end t r (ltb→lt _ _ later), later)
        (refl, λ _. refl, λ e. ground arith, λ _ e. ground arith)
  | inr here ↦
      rw (place-meets loc loc_end t r (ground arith) (ground arith), here)
        (ground arith, λ e. absurd (e refl), λ _. ground arith, λ e. ground arith)
]

-- A segment that begins where the first one ends meets it.
pub skip-meets :
    (limit loc loc_end : ℕ) (segs : List Seg)
    → Ordered limit segs
    → (at segs 0).second ≡ loc
    → loc < loc_end
    → (skip loc segs ≡ 0) × (skip loc segs ≢ slot_end loc loc_end segs)
unfolding skip reach
skip-meets limit loc loc_end [] h e k = absurd h
skip-meets limit loc loc_end (t ∷ r) h e k =
    rw (not-ltb t.second loc (omega arith), le→leb t.first loc_end (omega arith))
      (refl, λ x. omega arith)
