-- ===== src/Efvitcp/Table/Add.antt =====
-- `addConnEntry` on a table in order.
use pollnet.Base.{
  ℕ, zero, suc, ◌+◌, ◌≤◌, ◌<◌, ◌≡◌, ◌≢◌, ◌⊎◌, inl, inr, refl, true, false, ◌==◌, ltb, arith, ◌∙◌,
  ap, sym, subst, Bool-cases,
}
use pollnet.Efvitcp.Table.{
  Entry, Entries, empty_key, home, with_entry, scan, find_conn_entry, insert, add_conn_entry,
}
use pollnet.Efvitcp.Table.Find.{Reaches, IsTable, scan_lem, find_conn_entry-first, Holds, found_lem}

pub with_hit : (tbl : Entries) (i p : ℕ) (e : Entry) → (p == i) ≡ true → with_entry tbl i e p ≡ e
with_hit tbl i p e q = rw q refl

pub with_miss :
    (tbl : Entries) (i p : ℕ) (e : Entry) → (p == i) ≡ false → with_entry tbl i e p ≡ tbl p
with_miss tbl i p e q = rw q refl

module _ (total tbl_mask : ℕ) where
  -- An entry that reaches `p`, where a larger one stands, may take its place.
  with_entry-IsTable :
      (tbl : Entries) (p : ℕ) (e : Entry)
      → IsTable total tbl_mask tbl
      → e.key < empty_key
      → Reaches tbl tbl_mask e.key p
      → e.key < (tbl p).key
      → p < total
      → IsTable total tbl_mask (with_entry tbl p e)
  with_entry-IsTable tbl p e v k (a, b) l t = record {
    inside = λ q m. ground (arith, v.inside q);
    at_most = λ q. ground (arith, v.at_most q);
    reaches = λ q n. elim (Bool-cases (q == p)) [
      | inl g ↦ (ground arith, λ r m o. ground (arith, b r))
      | inr g ↦
          let (x, y) = v.reaches q (λ z. n (ground arith)) in
          (ground arith, λ r m o. ground (arith, y r, y p))
    ];
  }

-- The entries of a table with one more: it is a table, and holds these entries and no other.
pub record Inserts (total tbl_mask : ℕ) (e : Entry) (tbl tbl' : Entries) : Type 0 where
  pub table : IsTable total tbl_mask tbl'
  pub new : Holds tbl' e
  pub old : (x : Entry) → x.key ≢ empty_key → Holds tbl x → Holds tbl' x
  pub only : (x : Entry) → x.key ≢ empty_key → Holds tbl' x → (x ≡ e) ⊎ Holds tbl x

module _ (total tbl_mask : ℕ) where
  -- The place of an entry that gives way.
  next_place :
      (tbl : Entries) (i stop : ℕ) (e : Entry)
      → IsTable total tbl_mask tbl
      → (tbl i).key ≢ empty_key
      → e.key < (tbl i).key
      → (tbl stop).key ≡ empty_key
      → i ≤ stop
      → stop < total
      → let tbl' = with_entry tbl i e in
        let i' = scan total tbl' (tbl i).key (i + 1) in
        (i < i')
        × (i' ≤ stop)
        × Reaches tbl' tbl_mask (tbl i).key i'
        × ((tbl i).key < (tbl' i').key)
  next_place tbl i stop e v n l z a b =
      let tbl' = with_entry tbl i e in
      let key = (tbl i).key in
      let i' = scan total tbl' key (i + 1) in
      let d : i ≢ stop = λ g. n (ap (λ j. (tbl j).key) g ∙ z) in
      let (h, below) = v.reaches i n in
      let (x, y, u, w) =
        scan_lem total tbl' key (i + 1) stop (omega arith) (omega arith)
          (ground (arith, v.at_most i)) in
      (
        omega arith,
        y,
        (
          omega arith,
          λ q m o. elim (Bool-cases (ltb q i)) [
            | inl g ↦ ground (arith, below q m)
            | inr g ↦ elim (Bool-cases (q == i)) [
              | inl f ↦ ground arith
              | inr f ↦ w q (ground arith) o
            ]
          ],
        ),
        elim (Bool-cases ((tbl i').key == key)) [
          | inr g ↦ ground (arith, u)
          | inl g ↦
              let same : (tbl i').key ≡ key = ground arith in
              let (_, c) = v.reaches i' (λ f. n (sym same ∙ f)) in
              absurd
                (ground (arith, c i (subst (λ k. home tbl_mask k ≤ i) (sym same) h) (omega arith)))
        ],
      )

  -- The loop of `addConnEntry` ends if the table has an empty entry within its reach, and puts the
  -- entry in.
  insert-Inserts :
      (fuel i stop : ℕ) (tbl : Entries) (e : Entry)
      → IsTable total tbl_mask tbl
      → e.key < empty_key
      → Reaches tbl tbl_mask e.key i
      → e.key < (tbl i).key
      → (tbl stop).key ≡ empty_key
      → i ≤ stop
      → stop < i + fuel
      → stop < total
      → Inserts total tbl_mask e tbl (insert total fuel tbl i e)
  unfolding insert
  insert-Inserts zero i stop tbl e v k r l z a f b = absurd (omega arith)
  insert-Inserts (suc fuel) i stop tbl e v k r l z a f b =
      let tbl' = with_entry tbl i e in
      let v' = with_entry-IsTable total tbl_mask tbl i e v k r l (omega arith) in
      let i' = scan total tbl' (tbl i).key (i + 1) in
      elim (Bool-cases ((tbl i).key == empty_key)) [
        | inl g ↦ rw g (record {
          table = v';
          new = (i, ground arith);
          old = λ x m (p, h). (p, ground (arith, m, ap (λ o. o.key) h));
          only = λ x m (p, h). elim (Bool-cases (p == i)) [
            | inl q ↦ inl (sym h ∙ with_hit tbl i p e q)
            | inr q ↦ inr (p, sym (with_miss tbl i p e q) ∙ h)
          ];
        })
        | inr g ↦
            let n : (tbl i).key ≢ empty_key = ground arith in
            let (x, y, u, w) = next_place tbl i stop e v n l z a b in
            let rest =
              insert-Inserts fuel i' stop tbl' (tbl i) v' (ground (arith, v.at_most i)) u w
                (ground (arith, x, z, n)) y (omega (arith, x)) b in
            rw g (record {
              table = rest.table;
              new = rest.old e (λ q. ground (arith, k, q)) (i, ground arith);
              old = λ x m (p, h). elim (Bool-cases (p == i)) [
                | inl q ↦
                    let same : p ≡ i = ground arith in
                    subst (Holds (insert total fuel tbl' i' (tbl i))) (ap tbl (sym same) ∙ h)
                      rest.new
                | inr q ↦ rest.old x m (p, with_miss tbl i p e q ∙ h)
              ];
              only = λ x m (p, h). elim (rest.only x m (p, h)) [
                | inl c ↦ inr (i, sym c)
                | inr (j, c) ↦ elim (Bool-cases (j == i)) [
                  | inl q ↦ inl (sym c ∙ with_hit tbl i j e q)
                  | inr q ↦ inr (j, sym (with_miss tbl i j e q) ∙ c)
                ]
              ];
            })
      ]

  -- `addConnEntry` at the place that `findConnEntry` gives for a new key: the table then holds the
  -- entry and those that it held, no other, and finds each of them by its key.
  pub add_conn_entry-Inserts :
      (stop : ℕ) (tbl : Entries) (e : Entry)
      → IsTable total tbl_mask tbl
      → e.key < empty_key
      → ((p : ℕ) → (tbl p).key ≢ e.key)
      → (tbl stop).key ≡ empty_key
      → home tbl_mask e.key ≤ stop
      → stop < total
      → let tbl' = add_conn_entry total tbl (find_conn_entry total tbl_mask tbl e.key) e in
        let found : ℕ → Entry = λ key. tbl' (find_conn_entry total tbl_mask tbl' key) in
        Inserts total tbl_mask e tbl tbl'
        × (found e.key ≡ e)
        × ((x : Entry) → x.key ≢ empty_key → Holds tbl x → found x.key ≡ x)
  unfolding add_conn_entry
  add_conn_entry-Inserts stop tbl e v k new z a b =
      let i = find_conn_entry total tbl_mask tbl e.key in
      let (x, y, u, w) =
        find_conn_entry-first total tbl_mask e.key stop tbl a (omega arith) (omega arith) z in
      let rest =
        insert-Inserts total i stop tbl e v k (x, w) (ground (arith, u, new i)) z y (omega arith)
          b in
      let tbl' = insert total total tbl i e in
      (
        rest,
        found_lem total tbl_mask tbl' e rest.table (λ q. ground (arith, k, q)) rest.new,
        λ o n h. found_lem total tbl_mask tbl' o rest.table n (rest.old o n h),
      )
