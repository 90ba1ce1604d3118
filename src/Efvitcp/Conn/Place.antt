-- ===== src/Efvitcp/Conn/Place.antt =====
-- The segments that `onPack` of efvitcp/TcpConn.h keeps: at most five, of which the last gives way.
use pollnet.Base.{
  ℕ, zero, suc, ◌≤◌, ◌<◌, ◌≡◌, refl, ◌∙◌, ap, ◌⊎◌, inl, inr, true, List, [], ◌∷◌, arith, length,
  take, leb, ◌==◌, Bool-cases, length-take,
}
use pollnet.Segs.{Seg, at, skip, slot_end, place}
use pollnet.Segs.Order.{Apart, Apart-le, Ordered, place-Ordered, place-head, length-place}
use pollnet.Segs.Cover.{within, covers, covers-place-Ordered}
use pollnet.Efvitcp.Conn.Text.{put_seg, max_recv_segs}

-- The segments `q` after `loc .. loc_end` was put into `segs`, or was not.
pub record Put (limit loc loc_end : ℕ) (segs q : List Seg) : Type 0 where
  pub order : Ordered limit q
  pub count : length q ≤ 5
  pub cover : (p : ℕ) → covers q p ≡ true → (covers segs p ≡ true) ⊎ (within loc loc_end p ≡ true)
  pub start : (at q 0).first ≡ (at segs 0).first
  pub apart : (at segs 0).second < loc → at q 0 ≡ at segs 0

take-Apart : (n lo limit : ℕ) (r : List Seg) → Apart lo limit r → Apart lo limit (take n r)
take-Apart zero lo limit r h = Apart-le lo limit r h
take-Apart (suc n) lo limit [] h = h
take-Apart (suc n) lo limit (t ∷ r) h = (h.0, h.1, take-Apart n t.second limit r h.2)

pub take-Ordered :
    (n limit : ℕ) (segs : List Seg)
    → Ordered limit segs
    → Ordered limit (take (suc n) segs) × (at (take (suc n) segs) 0 ≡ at segs 0)
take-Ordered n limit [] h = absurd h
take-Ordered n limit (t ∷ r) h = ((h.0, take-Apart n t.second limit r h.1), refl)

covers-take :
    (n : ℕ) (segs : List Seg) (p : ℕ) → covers (take n segs) p ≡ true → covers segs p ≡ true
covers-take zero segs p h = cc
covers-take (suc n) [] p h = h
covers-take (suc n) (t ∷ r) p h = ground (arith, covers-take n r p)

module _ (limit loc loc_end : ℕ) (segs : List Seg) (h : Ordered limit segs)
    (a : (at segs 0).second ≤ loc) (b : loc < loc_end) (l : loc_end ≤ limit) where
  place-Put :
      (base : List Seg)
      → Ordered limit base
      → at base 0 ≡ at segs 0
      → ((p : ℕ) → covers base p ≡ true → covers segs p ≡ true)
      → length (place loc loc_end base) ≤ 5
      → Put limit loc loc_end segs (place loc loc_end base)
  place-Put base o e c n =
      let second : (at base 0).second ≡ (at segs 0).second = ap (λ (s : Seg). s.second) e in
      let head = place-head limit loc loc_end base o (omega (arith, second)) b in
      record {
        order = place-Ordered limit loc loc_end base o (omega (arith, second)) b l;
        count = n;
        cover = λ p k.
            ground (
              arith,
              covers-place-Ordered limit loc loc_end base p o (omega (arith, second)) b,
              c p,
            );
        start = head.0 ∙ ap (λ (s : Seg). s.first) e;
        apart = λ k. head.1 (head.3 (omega (arith, second))) ∙ e;
      }

  pub put_seg-Put : length segs ≤ 5 → Put limit loc loc_end segs (put_seg loc loc_end segs)
  unfolding put_seg
  put_seg-Put n = elim (Bool-cases (skip loc segs == slot_end loc loc_end segs)) [
    | inr meets ↦ rw meets (
        place-Put segs h refl (λ p k. k)
          (omega (arith, (length-place loc loc_end segs).1 (λ e. ground arith))))
    | inl none_met ↦ elim (Bool-cases (leb max_recv_segs (skip loc segs))) [
      | inl past ↦
          rw (none_met, past)
            (record { order = h; count = n; cover = λ p k. inl k; start = refl; apart = λ k. refl })
      | inr inside ↦ elim (Bool-cases (length segs == max_recv_segs)) [
        | inl full ↦
            let t = take-Ordered 3 limit segs h in
            rw (none_met, inside, full)
              (place-Put (take 4 segs) t.0 t.1 (covers-take 4 segs)
                (omega (arith, (length-place loc loc_end (take 4 segs)).0, length-take 4 segs)))
        | inr some_left ↦
            rw (none_met, inside, some_left)
              (place-Put segs h refl (λ p k. k) (ground (arith, (length-place loc loc_end segs).0)))
      ]
    ]
  ]
