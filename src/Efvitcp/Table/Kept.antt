-- ===== src/Efvitcp/Table/Kept.antt =====
-- What holds of the entries of the table of efvitcp/Core.h, and of those that `addConnEntry` and
-- `delConnEntry` leave in it.
use pollnet.Base.{
  ℕ, zero, suc, ◌+◌, ◌≤◌, ◌<◌, ◌≢◌, ◌==◌, arith, refl, sym, subst, Bool-cases, inl, inr,
}
use pollnet.Efvitcp.Table.{
  Entry, Entries, empty_key, with_entry, scan, insert, next_entry, close_gap,
}
use pollnet.Efvitcp.Table.Add.{with_hit, with_miss}

pub scan-ge : (fuel : ℕ) (tbl : Entries) (key i : ℕ) → i ≤ scan fuel tbl key i
unfolding scan
scan-ge zero tbl key i = omega arith
scan-ge (suc fuel) tbl key i = ground (arith, scan-ge fuel tbl key (i + 1))

next_entry-ge :
    (tbl_mask fuel : ℕ) (tbl : Entries) (entry next : ℕ)
    → next ≤ next_entry tbl_mask fuel tbl entry next
unfolding next_entry
next_entry-ge tbl_mask zero tbl entry next = omega arith
next_entry-ge tbl_mask (suc fuel) tbl entry next =
    ground (arith, next_entry-ge tbl_mask fuel tbl entry (next + 1))

module _ (P : Entry → Type 0) where
  -- `P` of an entry that is not empty.
  abbrev pub Full : Entry → Type 0
  Full e = e.key ≢ empty_key → P e

  with_entry-Full :
      (tbl : Entries) (i q : ℕ) (e : Entry)
      → Full e
      → (q ≢ i → Full (tbl q))
      → Full (with_entry tbl i e q)
  with_entry-Full tbl i q e h o = elim (Bool-cases (q == i)) [
    | inl g ↦ subst Full (sym (with_hit tbl i q e g)) h
    | inr g ↦ subst Full (sym (with_miss tbl i q e g)) (o (ground arith))
  ]

  -- The entries but for the one at `p` stay so while the loop of `addConnEntry` goes on behind `p`.
  insert-Full :
      (total fuel i p : ℕ) (tbl : Entries) (e : Entry)
      → p < i
      → ((q : ℕ) → q ≢ p → Full (tbl q))
      → Full e
      → (q : ℕ) → q ≢ p
      → Full (insert total fuel tbl i e q)
  unfolding insert
  insert-Full total zero i p tbl e l h f q d = h q d
  insert-Full total (suc fuel) i p tbl e l h f q d =
      let tbl' = with_entry tbl i e in
      let h' : (q : ℕ) → q ≢ p → Full (tbl' q) = λ q d. with_entry-Full tbl i q e f (λ g. h q d) in
      let after = scan-ge total tbl' (tbl i).key (i + 1) in
      let rest =
        insert-Full total fuel (scan total tbl' (tbl i).key (i + 1)) p tbl' (tbl i)
          (omega (arith, after)) h' (h i (λ g. absurd (omega arith))) q d in
      elim (Bool-cases ((tbl i).key == empty_key)) [ inl g ↦ rw g (h' q d) | inr g ↦ rw g rest ]

  -- All entries but for the new one at `p` were in the table.
  pub add-Full :
      (total fuel p : ℕ) (tbl : Entries) (e : Entry)
      → ((q : ℕ) → Full (tbl q))
      → (q : ℕ) → q ≢ p
      → Full (insert total (suc fuel) tbl p e q)
  unfolding insert
  add-Full total fuel p tbl e h q d =
      let tbl' = with_entry tbl p e in
      let h' : (q : ℕ) → q ≢ p → Full (tbl' q) =
        λ q d. subst Full (sym (with_miss tbl p q e (ground arith))) (h q) in
      let after = scan-ge total tbl' (tbl p).key (p + 1) in
      let rest =
        insert-Full total fuel (scan total tbl' (tbl p).key (p + 1)) p tbl' (tbl p)
          (omega (arith, after)) h' (h p) q d in
      elim (Bool-cases ((tbl p).key == empty_key)) [ inl g ↦ rw g (h' q d) | inr g ↦ rw g rest ]

  close_gap-Full :
      (total tbl_mask fuel gap : ℕ) (tbl : Entries)
      → ((q : ℕ) → Full (tbl q))
      → (q : ℕ) → Full (close_gap total tbl_mask fuel tbl gap q)
  unfolding close_gap
  close_gap-Full total tbl_mask zero gap tbl h q = h q
  close_gap-Full total tbl_mask (suc fuel) gap tbl h q =
      let n = next_entry tbl_mask total tbl gap (gap + 1) in
      let rest =
        close_gap-Full total tbl_mask fuel n (with_entry tbl gap (tbl n))
          (λ q. with_entry-Full tbl gap q (tbl n) (h n) (λ d. h q)) q in
      let blank : Entry = record (tbl gap) { key = empty_key } in
      elim (Bool-cases ((tbl n).key == empty_key)) [
        | inl g ↦ rw g (with_entry-Full tbl gap q blank (λ d. absurd (d refl)) (λ d. h q))
        | inr g ↦ rw g rest
      ]

  -- What holds of all entries but for the one at `gap` holds of all once that is taken out.
  pub del-Full :
      (total tbl_mask fuel gap : ℕ) (tbl : Entries)
      → ((q : ℕ) → q ≢ gap → Full (tbl q))
      → (q : ℕ) → Full (close_gap total tbl_mask (suc fuel) tbl gap q)
  unfolding close_gap
  del-Full total tbl_mask fuel gap tbl h q =
      let n = next_entry tbl_mask total tbl gap (gap + 1) in
      let after = next_entry-ge tbl_mask total tbl gap (gap + 1) in
      let d : n ≢ gap = λ g. absurd (omega (arith, after, g)) in
      let rest =
        close_gap-Full total tbl_mask fuel n (with_entry tbl gap (tbl n))
          (λ q. with_entry-Full tbl gap q (tbl n) (h n d) (h q)) q in
      let blank : Entry = record (tbl gap) { key = empty_key } in
      elim (Bool-cases ((tbl n).key == empty_key)) [
        | inl g ↦ rw g (with_entry-Full tbl gap q blank (λ d. absurd (d refl)) (h q))
        | inr g ↦ rw g rest
      ]
