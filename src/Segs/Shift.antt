-- ===== src/Segs/Shift.antt =====
-- Moving all segments down by a number of offsets, as a buffer's compaction does.
use pollnet.Base.{
  ℕ, suc, ◌+◌, ◌-◌, ◌≤◌, ◌<◌, ◌^◌, ◌≡◌, refl, sym, ap, subst, true, List, [], ◌∷◌, map, arith,
  length,
}
use native.Mathlib.Numerals.{sub-one}
use pollnet.Base.Word.{sub32}
use pollnet.Segs.{Seg, seg, at}
use pollnet.Segs.Order.{Apart, Apart-le}
use pollnet.Segs.Cover.{covers}

abbrev pub shift_down : ℕ → List Seg → List Seg
shift_down k = map (λ (t : Seg). seg (sub32 t.first k) (sub32 t.second k))

pub length-shift_down : (k : ℕ) (r : List Seg) → length (shift_down k r) ≡ length r
length-shift_down k [] = refl
length-shift_down k (t ∷ r) = ap suc (length-shift_down k r)

pub shift_down-Apart :
    (k lo limit : ℕ) (r : List Seg)
    → Apart lo limit r
    → k ≤ lo
    → limit ≤ 2 ^ 30
    → Apart (lo - k) limit (shift_down k r)
shift_down-Apart k lo limit [] h a b = omega arith
shift_down-Apart k lo limit (t ∷ r) h a b =
    let le : t.second ≤ limit = Apart-le t.second limit r h.2 in
    let e : sub32 t.second k ≡ t.second - k = omega arith in
    (
      omega arith,
      omega arith,
      subst (λ (x : ℕ). Apart x limit (shift_down k r)) (sym e)
          (shift_down-Apart k t.second limit r h.2 (omega arith) b),
    )

pub covers-shift_down :
    (k lo limit p : ℕ) (r : List Seg)
    → Apart lo limit r
    → k ≤ lo
    → limit ≤ 2 ^ 30
    → covers (shift_down k r) p ≡ covers r (k + p)
covers-shift_down k lo limit p [] h a b = refl
covers-shift_down k lo limit p (t ∷ r) h a b =
    ground (arith, Apart-le t.second limit r h.2, covers-shift_down k t.second limit p r h.2)

-- A covered offset lies past what is before the segments, and before their end.
pub covers-Apart :
    (lo limit p : ℕ) (r : List Seg) → Apart lo limit r → covers r p ≡ true → (lo < p) × (p < limit)
covers-Apart lo limit p [] h e = cc
covers-Apart lo limit p (t ∷ r) h e =
    ground (arith, Apart-le t.second limit r h.2, covers-Apart t.second limit p r h.2)

-- The end of the last segment.
abbrev pub last_end : List Seg → ℕ
last_end segs = (at segs (length segs - 1)).second

pub last_end-cons : (t : Seg) (r : List Seg) → last_end (t ∷ r) ≡ (at (t ∷ r) (length r)).second
last_end-cons t r = ap (λ n. (at (t ∷ r) n).second) (sub-one (suc (length r)))

at-length :
    (limit p : ℕ) (t : Seg) (r : List Seg)
    → Apart t.second limit r
    → (t.second ≤ (at (t ∷ r) (length r)).second)
      × ((at (t ∷ r) (length r)).second ≤ limit)
      × (covers (t ∷ r) p ≡ true → p < (at (t ∷ r) (length r)).second)
at-length limit p t [] h = ground arith
at-length limit p t (u ∷ r) h = ground (arith, at-length limit p u r h.2)

pub covers-last_end :
    (limit p : ℕ) (t : Seg) (r : List Seg)
    → Apart t.second limit r
    → (t.second ≤ last_end (t ∷ r))
      × (last_end (t ∷ r) ≤ limit)
      × (covers (t ∷ r) p ≡ true → p < last_end (t ∷ r))
covers-last_end limit p t r h = rw (last_end-cons t r) (at-length limit p t r h)
