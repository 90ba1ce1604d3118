-- ===== src/Segs.antt =====
-- The list of received segments that TcpStream.h and efvitcp/TcpConn.h keep in `segs[]`: intervals of
-- buffer offsets, in order. Slots at and past the segment count are never read, so the list holds
-- the live ones. The scans of the code are recursions on the list, its shift loops are cuts of it.
pub mod Order
pub mod Cover
pub mod Shift
use pollnet.Base.{
  ℕ, suc, ◌+◌, ◌-◌, Bool, List, [], ◌∷◌, ◌++◌, get_or, take, drop, ltb, leb, ◌==◌, if◌then◌else◌,
  min, max,
}

-- `std::pair<uint32_t, uint32_t>`: the offsets `first .. second` of the receive buffer.
pub record Seg : Type 0 where
  pub first : ℕ
  pub second : ℕ

abbrev pub seg : ℕ → ℕ → Seg
seg a b = record { first = a; second = b }

-- `segs[i]`
abbrev pub at : List Seg → ℕ → Seg
at segs i = get_or segs i (seg 0 0)

-- `while (i < n_seg && segs[i].second < loc) i++`
unfoldable pub skip : ℕ → List Seg → ℕ
skip loc [] = 0
skip loc (s ∷ r) = if ltb s.second loc then suc (skip loc r) else 0

-- `while (j < n_seg && segs[j].first <= loc_end) j++`, the rounds it makes from the list's start.
unfoldable pub reach : ℕ → List Seg → ℕ
reach loc_end [] = 0
reach loc_end (s ∷ r) = if leb s.first loc_end then suc (reach loc_end r) else 0

-- Shift `segs[i ..]` up by one slot and write the new segment to slot `i`.
insert_at : ℕ → Seg → List Seg → List Seg
insert_at i s segs = take i segs ++ (s ∷ drop i segs)

-- Replace `segs[i .. j)` by their union with the new segment, and move `segs[j ..]` down behind it.
merge_at : ℕ → ℕ → ℕ → ℕ → List Seg → List Seg
merge_at i j loc loc_end segs =
    take i segs
    ++ (seg (min (at segs i).first loc) (max (at segs (j - 1)).second loc_end) ∷ drop j segs)

-- The slot where the new segment goes, `i`, and the first slot past those that it meets, `j`.
abbrev pub slot_end : ℕ → ℕ → List Seg → ℕ
slot_end loc loc_end segs = skip loc segs + reach loc_end (drop (skip loc segs) segs)

-- Insert where no segment is met, merge where some are.
unfoldable pub splice : ℕ → ℕ → ℕ → ℕ → List Seg → List Seg
unfolding insert_at merge_at
splice i j loc loc_end segs =
    if i == j then insert_at i (seg loc loc_end) segs else merge_at i j loc loc_end segs

-- The segment list after `loc .. loc_end` is put in.
unfoldable pub place : ℕ → ℕ → List Seg → List Seg
place loc loc_end segs = splice (skip loc segs) (slot_end loc loc_end segs) loc loc_end segs
