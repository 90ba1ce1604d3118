-- ===== src/Efvitcp/Table/Del.antt =====
-- `delConnEntry` on a table in order.
use pollnet.Base.{
  ℕ, zero, suc, ◌+◌, ◌≤◌, ◌<◌, ◌≡◌, ◌≢◌, inl, inr, refl, ◌==◌, ltb, arith, ◌∙◌, ap, sym, subst,
  Bool-cases,
}
use pollnet.Efvitcp.Table.{
  Entry, Entries, empty_key, home, with_entry, find_conn_entry, next_entry, close_gap,
  del_conn_entry,
}
use pollnet.Efvitcp.Table.Find.{IsTable, Holds, find_conn_entry_lem, found_lem}
use pollnet.Efvitcp.Table.Add.{with_hit, with_miss}

-- A table but for the entry at `gap`, which is not looked at.
pub record IsGap (total tbl_mask : ℕ) (tbl : Entries) (gap : ℕ) : Type 0 where
  pub inside : (p : ℕ) → total ≤ p → (tbl p).key ≡ empty_key
  pub at_most : (p : ℕ) → (tbl p).key ≤ empty_key
  pub home_le : (p : ℕ) → p ≢ gap → (tbl p).key ≢ empty_key → home tbl_mask (tbl p).key ≤ p
  pub smaller :
      (p q : ℕ)
      → p ≢ gap
      → q ≢ gap
      → (tbl p).key ≢ empty_key
      → home tbl_mask (tbl p).key ≤ q
      → q < p
      → (tbl q).key < (tbl p).key

-- What is left of a table without the entry at `gap`.
pub record Deletes (total tbl_mask gap : ℕ) (tbl tbl' : Entries) : Type 0 where
  pub table : IsTable total tbl_mask tbl'
  pub old : (p : ℕ) → p ≢ gap → (tbl p).key ≢ empty_key → Holds tbl' (tbl p)
  pub only : (x : Entry) → x.key ≢ empty_key → Holds tbl' x → (p : ℕ) × (p ≢ gap) × (tbl p ≡ x)

next_entry_lem :
    (tbl_mask fuel : ℕ) (tbl : Entries) (gap next stop : ℕ)
    → next ≤ stop
    → stop ≤ next + fuel
    → home tbl_mask (tbl stop).key ≤ gap
    → let n = next_entry tbl_mask fuel tbl gap next in
      (next ≤ n)
      × (n ≤ stop)
      × (home tbl_mask (tbl n).key ≤ gap)
      × ((q : ℕ) → next ≤ q → q < n → gap < home tbl_mask (tbl q).key)
unfolding next_entry
next_entry_lem tbl_mask zero tbl gap next stop a b h =
    let e : stop ≡ next = omega arith in
    (
      omega arith,
      a,
      subst (λ n. home tbl_mask (tbl n).key ≤ gap) e h,
      λ q l m. absurd (omega arith),
    )
next_entry_lem tbl_mask (suc fuel) tbl gap next stop a b h =
    elim (Bool-cases (ltb gap (home tbl_mask (tbl next).key))) [
      | inr e ↦ rw e (omega arith, a, ground arith, λ q l m. absurd (omega arith))
      | inl e ↦
          let d : next ≢ stop = λ g. absurd (
            let m : home tbl_mask (tbl next).key ≤ gap =
              subst (λ n. home tbl_mask (tbl n).key ≤ gap) (sym g) h in
            ground arith) in
          let (x, y, z, w) =
            next_entry_lem tbl_mask fuel tbl gap (next + 1) stop (omega arith) (omega arith) h in
          rw e (
            omega arith,
            y,
            z,
            λ q l m. elim (Bool-cases (q == next)) [
              | inl g ↦
                  let s : next ≡ q = ground arith in
                  subst (λ n. gap < home tbl_mask (tbl n).key) s (ground arith)
              | inr g ↦ w q (ground arith) m
            ],
          )
    ]

module _ (total tbl_mask : ℕ) where
  -- The next entry that may stand at the gap moves there, and leaves a gap itself.
  move-IsGap :
      (tbl : Entries) (gap n : ℕ)
      → IsGap total tbl_mask tbl gap
      → gap < n
      → gap < total
      → (tbl n).key ≢ empty_key
      → home tbl_mask (tbl n).key ≤ gap
      → ((q : ℕ) → gap + 1 ≤ q → q < n → gap < home tbl_mask (tbl q).key)
      → IsGap total tbl_mask (with_entry tbl gap (tbl n)) n
  move-IsGap tbl gap n v l t k h w = record {
    inside = λ p m. ground (arith, v.inside p);
    at_most = λ p. ground (arith, v.at_most p, v.at_most n);
    home_le = λ p d m. elim (Bool-cases (p == gap)) [
      | inl e ↦
          let s : p ≡ gap = ground arith in
          rw e (subst (λ j. home tbl_mask (tbl n).key ≤ j) (sym s) h)
      | inr e ↦ ground (arith, v.home_le p)
    ];
    smaller = λ p q d f m a b. elim (Bool-cases (p == gap)) [
      | inl e ↦ ground (arith, v.smaller n q)
      | inr e ↦ elim (Bool-cases (q == gap)) [
        | inl g ↦ ground (arith, v.smaller p n, w p)
        | inr g ↦ ground (arith, v.smaller p q)
      ]
    ];
  }

  -- No entry behind the gap needs it: it may be empty.
  fill-IsTable :
      (tbl : Entries) (gap n : ℕ)
      → IsGap total tbl_mask tbl gap
      → gap < n
      → (tbl n).key ≡ empty_key
      → ((q : ℕ) → gap + 1 ≤ q → q < n → gap < home tbl_mask (tbl q).key)
      → IsTable total tbl_mask (with_entry tbl gap (record (tbl gap) { key = empty_key }))
  fill-IsTable tbl gap n v l k w = record {
    inside = λ p m. ground (arith, v.inside p);
    at_most = λ p. ground (arith, v.at_most p);
    reaches = λ p m.
        (ground (arith, v.home_le p), λ q a b. ground (arith, v.smaller p q, v.smaller p n, w p));
  }

module _ (total tbl_mask : ℕ) (zero_home : home tbl_mask empty_key ≡ 0) where
  close_gap-Deletes :
      (fuel gap stop : ℕ) (tbl : Entries)
      → IsGap total tbl_mask tbl gap
      → gap < stop
      → (tbl stop).key ≡ empty_key
      → stop < total
      → stop < gap + fuel
      → Deletes total tbl_mask gap tbl (close_gap total tbl_mask fuel tbl gap)
  unfolding close_gap
  close_gap-Deletes zero gap stop tbl v l z t f = absurd (omega arith)
  close_gap-Deletes (suc fuel) gap stop tbl v l z t f =
      let n = next_entry tbl_mask total tbl gap (gap + 1) in
      let (x, y, h, w) =
        next_entry_lem tbl_mask total tbl gap (gap + 1) stop (omega arith) (omega arith)
          (subst (λ k. home tbl_mask k ≤ gap) (sym z) (omega (arith, zero_home))) in
      elim (Bool-cases ((tbl n).key == empty_key)) [
        | inl e ↦
            let blank : Entry = record (tbl gap) { key = empty_key } in
            rw e (record {
              table = fill-IsTable total tbl_mask tbl gap n v (omega arith) (ground arith) w;
              old = λ p d m. (p, with_miss tbl gap p blank (ground arith));
              only = λ o m (p, c). elim (Bool-cases (p == gap)) [
                | inl g ↦
                    absurd (m (ap (λ (q : Entry). q.key) (sym c ∙ with_hit tbl gap p blank g)))
                | inr g ↦ (p, ground arith, sym (with_miss tbl gap p blank g) ∙ c)
              ];
            })
        | inr e ↦
            let k : (tbl n).key ≢ empty_key = ground arith in
            let d : n ≢ stop = λ g. k (ap (λ j. (tbl j).key) g ∙ z) in
            let tbl' = with_entry tbl gap (tbl n) in
            let v' = move-IsGap total tbl_mask tbl gap n v (omega arith) (omega arith) k h w in
            let result = close_gap total tbl_mask fuel tbl' n in
            let rest =
              close_gap-Deletes fuel n stop tbl' v' (omega arith) (ground (arith, z, l)) t
                (omega arith) in
            rw e (record {
              table = rest.table;
              old = λ p a m. elim (Bool-cases (p == n)) [
                | inl g ↦
                    let same : n ≡ p = ground arith in
                    let hit = with_hit tbl gap gap (tbl n) (ground arith) in
                    subst (Holds result) (hit ∙ ap tbl same) (
                      rest.old gap (λ q. absurd (omega arith))
                        (λ q. k (ap (λ (o : Entry). o.key) (sym hit) ∙ q)))
                | inr g ↦
                    let miss = with_miss tbl gap p (tbl n) (ground arith) in
                    subst (Holds result) miss (
                      rest.old p (ground arith) (λ q. m (ap (λ (o : Entry). o.key) (sym miss) ∙ q)))
              ];
              only = λ o m c.
                  let (q, a, b) = rest.only o m c in
                  elim (Bool-cases (q == gap)) [
                    | inl g ↦ (n, λ r. absurd (omega arith), sym (with_hit tbl gap q (tbl n) g) ∙ b)
                    | inr g ↦ (q, ground arith, sym (with_miss tbl gap q (tbl n) g) ∙ b)
                  ];
            })
      ]

  -- `delConnEntry` of a key that the table holds: the table then holds the other entries and no
  -- more, finds each of them by its key, and has no entry of the deleted key.
  pub del_conn_entry-Deletes :
      (p stop : ℕ) (tbl : Entries)
      → IsTable total tbl_mask tbl
      → (tbl p).key ≢ empty_key
      → p < stop
      → (tbl stop).key ≡ empty_key
      → stop < total
      → let tbl' = del_conn_entry total tbl_mask tbl (tbl p).key in
        let found : ℕ → Entry = λ key. tbl' (find_conn_entry total tbl_mask tbl' key) in
        Deletes total tbl_mask p tbl tbl'
        × ((q : ℕ) → q ≢ p → (tbl q).key ≢ empty_key → found (tbl q).key ≡ tbl q)
        × ((q : ℕ) → (tbl' q).key ≢ (tbl p).key)
  unfolding del_conn_entry
  del_conn_entry-Deletes p stop tbl v n l z t =
      let place = find_conn_entry_lem total tbl_mask p tbl v n in
      let tbl' = close_gap total tbl_mask total tbl p in
      let gap : IsGap total tbl_mask tbl p = record {
        inside = v.inside;
        at_most = v.at_most;
        home_le = λ q d m. (v.reaches q m).0;
        smaller = λ q r d e m a b. (v.reaches q m).1 r a b;
      } in
      let rest = close_gap-Deletes total p stop tbl gap l z t (omega arith) in
      rw place (
        rest,
        λ q d m. found_lem total tbl_mask tbl' (tbl q) rest.table m (rest.old q d m),
        λ q c.
            let (r, d, e) = rest.only (tbl' q) (λ k. n (sym c ∙ k)) (q, refl) in
            let same : (tbl r).key ≡ (tbl p).key = ap (λ (o : Entry). o.key) e ∙ c in
            d (
              sym (find_conn_entry_lem total tbl_mask r tbl v (λ k. n (sym same ∙ k)))
              ∙ ap (find_conn_entry total tbl_mask tbl) same
              ∙ place),
      )
