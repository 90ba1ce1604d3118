-- ===== src/Efvitcp/Table/Find.antt =====
-- The order of the connection table, and `findConnEntry`.
use pollnet.Base.{
  ℕ, zero, suc, ◌+◌, ◌≤◌, ◌<◌, ◌≡◌, ◌≢◌, inl, inr, ◌==◌, ltb, arith, ◌∙◌, ap, sym, subst,
  Bool-cases,
}
use pollnet.Efvitcp.Table.{Entry, Entries, empty_key, home, scan, find_conn_entry}

-- Every entry stands at or behind its home, and those between them have smaller keys.
abbrev pub Reaches : Entries → ℕ → ℕ → ℕ → Type 0
Reaches tbl tbl_mask key p =
    (home tbl_mask key ≤ p) × ((q : ℕ) → home tbl_mask key ≤ q → q < p → (tbl q).key < key)

pub record IsTable (total tbl_mask : ℕ) (tbl : Entries) : Type 0 where
  pub inside : (p : ℕ) → total ≤ p → (tbl p).key ≡ empty_key
  pub at_most : (p : ℕ) → (tbl p).key ≤ empty_key
  pub reaches : (p : ℕ) → (tbl p).key ≢ empty_key → Reaches tbl tbl_mask (tbl p).key p

-- The scan passes smaller keys only, and ends at the first other one if it has the fuel for it.
pub scan_lem :
    (fuel : ℕ) (tbl : Entries) (key i stop : ℕ)
    → i ≤ stop
    → stop ≤ i + fuel
    → key ≤ (tbl stop).key
    → (i ≤ scan fuel tbl key i)
      × (scan fuel tbl key i ≤ stop)
      × (key ≤ (tbl (scan fuel tbl key i)).key)
      × ((q : ℕ) → i ≤ q → q < scan fuel tbl key i → (tbl q).key < key)
unfolding scan
scan_lem zero tbl key i stop a b k =
    let e : stop ≡ i = omega arith in
    (omega arith, a, subst (λ n. key ≤ (tbl n).key) e k, λ q l m. absurd (omega arith))
scan_lem (suc fuel) tbl key i stop a b k = elim (Bool-cases (ltb (tbl i).key key)) [
  | inr e ↦ rw e (omega arith, a, ground arith, λ q l m. absurd (omega arith))
  | inl e ↦
      let later : i ≢ stop = λ g.
        absurd
          (let m : key ≤ (tbl i).key = subst (λ n. key ≤ (tbl n).key) (sym g) k in ground arith) in
      let (x, y, z, w) = scan_lem fuel tbl key (i + 1) stop (omega arith) (omega arith) k in
      rw e (
        omega arith,
        y,
        z,
        λ q l m. elim (Bool-cases (q == i)) [ inl g ↦ ground arith | inr g ↦ w q (ground arith) m ],
      )
]

-- `findConnEntry` finds the entry of a key in the table, wherever it stands.
pub find_conn_entry_lem :
    (total tbl_mask p : ℕ) (tbl : Entries)
    → IsTable total tbl_mask tbl
    → (tbl p).key ≢ empty_key
    → find_conn_entry total tbl_mask tbl (tbl p).key ≡ p
unfolding find_conn_entry
find_conn_entry_lem total tbl_mask p tbl v n =
    let key = (tbl p).key in
    let l : p < total = elim (Bool-cases (ltb p total)) [
      | inl e ↦ ground arith
      | inr e ↦ absurd (n (v.inside p (ground arith)))
    ] in
    let (a, b) = v.reaches p n in
    let (x, y, z, w) = scan_lem total tbl key (home tbl_mask key) p a (omega arith) (omega arith) in
    elim (Bool-cases (scan total tbl key (home tbl_mask key) == p)) [
      | inl e ↦ ground arith
      | inr e ↦ absurd (ground (arith, b (scan total tbl key (home tbl_mask key)) x))
    ]

-- For any key, if the table has an empty entry behind its home: the first entry that is not smaller.
pub find_conn_entry-first :
    (total tbl_mask key stop : ℕ) (tbl : Entries)
    → home tbl_mask key ≤ stop
    → stop ≤ total
    → key ≤ empty_key
    → (tbl stop).key ≡ empty_key
    → let p = find_conn_entry total tbl_mask tbl key in
      (home tbl_mask key ≤ p)
      × (p ≤ stop)
      × (key ≤ (tbl p).key)
      × ((q : ℕ) → home tbl_mask key ≤ q → q < p → (tbl q).key < key)
unfolding find_conn_entry
find_conn_entry-first total tbl_mask key stop tbl a b k e =
    scan_lem total tbl key (home tbl_mask key) stop a (omega arith) (omega (arith, e))

-- The table holds an entry somewhere.
abbrev pub Holds : Entries → Entry → Type 0
Holds tbl e = (p : ℕ) × (tbl p ≡ e)

-- So each entry that the table holds is found by its key.
pub found_lem :
    (total tbl_mask : ℕ) (tbl : Entries) (o : Entry)
    → IsTable total tbl_mask tbl
    → o.key ≢ empty_key
    → Holds tbl o
    → tbl (find_conn_entry total tbl_mask tbl o.key) ≡ o
found_lem total tbl_mask tbl o v n (p, h) =
    subst (λ (e : Entry). tbl (find_conn_entry total tbl_mask tbl e.key) ≡ e) h
      (ap tbl (
        find_conn_entry_lem total tbl_mask p tbl v
          (λ q. n (ap (λ (e : Entry). e.key) (sym h) ∙ q))))
