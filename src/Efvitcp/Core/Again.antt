-- ===== src/Efvitcp/Core/Again.antt =====
-- A key that is added to the table of efvitcp/Core.h although it is there already, as
-- efvitcp/TcpClient.h does when it connects again to a peer whose last connection is in TIME_WAIT.
use pollnet.Base.{
  ℕ, zero, suc, ◌+◌, ◌-◌, ◌*◌, ◌≤◌, ◌<◌, ◌≡◌, ◌≢◌, ◌==◌, arith, refl, ltb, ◌∙◌, ap, sym, subst,
  Bool-cases, inl, inr, le→leb,
}
use pollnet.Efvitcp.Table.{
  Entry, Entries, conn_hash_key, empty_key, home, with_entry, scan, insert, find_conn_entry,
  add_conn_entry, close_gap, del_conn_entry,
}
use pollnet.Efvitcp.Table.Find.{IsTable, scan_lem, find_conn_entry_lem}
use pollnet.Efvitcp.Table.Add.{with_hit, with_miss}
use pollnet.Efvitcp.Table.Kept.{Full, scan-ge, add-Full, del-Full}
use pollnet.Efvitcp.Core.{Conf, Core, add_entry, free_id, del_entry}
use pollnet.Efvitcp.Wheel.{Node}
use pollnet.Efvitcp.Core.Open.{add_entry-stays}
use pollnet.Efvitcp.Core.Poll.{on_timer_node}

-- The entries before the place are left as they are.
insert-below :
    (total fuel i q : ℕ) (tbl : Entries) (e : Entry) → q < i → insert total fuel tbl i e q ≡ tbl q
unfolding insert
insert-below total zero i q tbl e l = refl
insert-below total (suc fuel) i q tbl e l =
    let miss = with_miss tbl i q e (ground arith) in
    let i' = scan total (with_entry tbl i e) (tbl i).key (i + 1) in
    let after = scan-ge total (with_entry tbl i e) (tbl i).key (i + 1) in
    let rest = insert-below total fuel i' q (with_entry tbl i e) (tbl i) (omega (arith, after)) in
    elim (Bool-cases ((tbl i).key == empty_key)) [ inl f ↦ rw f miss | inr f ↦ rw f (rest ∙ miss) ]

-- The new entry stands there.
insert-at : (total fuel i : ℕ) (tbl : Entries) (e : Entry) → insert total (suc fuel) tbl i e i ≡ e
unfolding insert
insert-at total fuel i tbl e =
    let hit = with_hit tbl i i e (ground arith) in
    let i' = scan total (with_entry tbl i e) (tbl i).key (i + 1) in
    let after = scan-ge total (with_entry tbl i e) (tbl i).key (i + 1) in
    let rest = insert-below total fuel i' i (with_entry tbl i e) (tbl i) (omega (arith, after)) in
    elim (Bool-cases ((tbl i).key == empty_key)) [ inl f ↦ rw f hit | inr f ↦ rw f (rest ∙ hit) ]

-- A key is found at the first place where it is.
find-place :
    (total tbl_mask key p : ℕ) (tbl : Entries)
    → home tbl_mask key ≤ p
    → p < total
    → (tbl p).key ≡ key
    → ((q : ℕ) → home tbl_mask key ≤ q → q < p → (tbl q).key < key)
    → find_conn_entry total tbl_mask tbl key ≡ p
unfolding find_conn_entry
find-place total tbl_mask key p tbl h l e below =
    let (x, y, z, w) =
      scan_lem total tbl key (home tbl_mask key) p h (omega arith) (omega (arith, e)) in
    let s = scan total tbl key (home tbl_mask key) in
    elim (Bool-cases (s == p)) [ inl g ↦ ground arith | inr g ↦ absurd (ground (arith, below s x)) ]

module _ (total tbl_mask p id : ℕ) (tbl : Entries) (v : IsTable total tbl_mask tbl)
    (k : (tbl p).key ≢ empty_key) where
  abbrev new : Entry
  new = record { key = (tbl p).key; conn_id = id }

  in_table : p < total
  in_table = elim (Bool-cases (ltb p total)) [
    | inl g ↦ ground arith
    | inr g ↦ absurd (k (v.inside p (ground arith)))
  ]

  fuel_left : suc (total - 1) ≡ total
  fuel_left = omega (arith, in_table)

  -- Where the new entry is found.
  add-found :
      let tbl' = add_conn_entry total tbl p new in
      (find_conn_entry total tbl_mask tbl' (tbl p).key ≡ p) × (tbl' p ≡ new)
  unfolding add_conn_entry
  add-found =
      let tbl' = insert total total tbl p new in
      let there : tbl' p ≡ new =
        subst (λ n. insert total n tbl p new p ≡ new) fuel_left
          (insert-at total (total - 1) p tbl new) in
      let (h, below) = v.reaches p k in
      (
        find-place total tbl_mask (tbl p).key p tbl' h in_table (ap (λ (o : Entry). o.key) there)
            (λ q a b.
              subst (λ (o : Entry). o.key < (tbl p).key)
                (sym (insert-below total total p q tbl new b)) (below q a b)),
        there,
      )

  -- The key's deletion takes the new entry out.
  add-gone :
      ((q : ℕ) → (tbl q).key ≢ empty_key → (tbl q).conn_id ≢ id)
      → let tbl' = del_conn_entry total tbl_mask (add_conn_entry total tbl p new) (tbl p).key in
        (q : ℕ) → (tbl' q).key ≢ empty_key → (tbl' q).conn_id ≢ id
  unfolding add_conn_entry del_conn_entry
  add-gone o =
      let others : (q : ℕ) → q ≢ p → Full (λ e. e.conn_id ≢ id) (insert total total tbl p new q) =
        subst (λ n. (q : ℕ) → q ≢ p → Full (λ e. e.conn_id ≢ id) (insert total n tbl p new q))
          fuel_left (add-Full (λ e. e.conn_id ≢ id) total (total - 1) p tbl new o) in
      let tbl' = insert total total tbl p new in
      let gone =
        subst (λ n. (q : ℕ) → Full (λ e. e.conn_id ≢ id) (close_gap total tbl_mask n tbl' p q))
          fuel_left (del-Full (λ e. e.conn_id ≢ id) total tbl_mask (total - 1) p tbl' others) in
      subst (λ i. (q : ℕ) → Full (λ e. e.conn_id ≢ id) (close_gap total tbl_mask total tbl' i q))
        (sym add-found.0) gone

-- `delConnEntry` frees the identifier that it finds.
del_entry-frees :
    (conf : Conf) (key id : ℕ) (c : Core)
    → (c.conn_tbl (find_conn_entry conf.total c.tbl_mask c.conn_tbl key)).conn_id ≡ id
    → id < conf.max_conn_cnt
    → let c' = del_entry conf key c in
      (c'.conn_tbl ≡ del_conn_entry conf.total c.tbl_mask c.conn_tbl key)
      × (c'.conn_cnt ≡ c.conn_cnt - 1)
      × (c'.conns (c.conn_cnt - 1) ≡ id)
      × (c'.tw_cnt ≡ c.tw_cnt)
unfolding del_entry free_id
del_entry-frees conf key id c e l =
    let (x, y, z) : let c' = del_entry conf key c in
        (c'.conn_cnt ≡ c.conn_cnt - 1) × (c'.conns (c.conn_cnt - 1) ≡ id) × (c'.tw_cnt ≡ c.tw_cnt) =
      ground (arith, e, l) in
    (refl, x, y, z)

on_timer_node-ends :
    (conf : Conf) {A : Type 0} (timer_handler : Node → Core × A → Core × A) (a : A) (n : Node)
    (key : ℕ) (c : Core)
    → conf.max_conn_cnt ≤ n.conn_id
    → (let tw = c.tws (n.conn_id - conf.max_conn_cnt) in conn_hash_key tw.dst_ip tw.dst_port ≡ key)
    → on_timer_node conf timer_handler n (c, a) ≡ (del_entry conf key c, a)
unfolding on_timer_node
on_timer_node-ends conf timer_handler a n key c m e = simp (le→leb _ _ m, e)

-- What is left when TIME_WAIT of the key of the entry at `p` ends, and the key was added again.
abbrev pub IsTakenOut : Conf → ℕ → ℕ → Core → Core → Core → Type 0
IsTakenOut conf key id c c1 c2 =
    (c1.conn_tbl (find_conn_entry conf.total c1.tbl_mask c1.conn_tbl key)
      ≡ record { key = key; conn_id = id })
    × ((q : ℕ) → (c2.conn_tbl q).key ≢ empty_key → (c2.conn_tbl q).conn_id ≢ id)
    × (c2.conn_cnt ≡ c.conn_cnt)
    × (c2.conns c.conn_cnt ≡ id)
    × (c2.tw_cnt ≡ c.tw_cnt)

-- The key of an entry in TIME_WAIT is added again for the connection `id`, which has no entry yet, while
-- the table does not grow: the key then finds the new entry. When TIME_WAIT ends, it is the new
-- connection's entry that is taken out, so that no entry has `id`, and its identifier that is freed, and
-- the place in TIME_WAIT stays in use.
pub add_entry-on_timer_node :
    (conf : Conf) {A : Type 0} (timer_handler : Node → Core × A → Core × A) (a : A) (n : Node)
    (p id : ℕ) (c : Core)
    → IsTable conf.total c.tbl_mask c.conn_tbl
    → (c.conn_tbl p).key ≢ empty_key
    → ((q : ℕ) → (c.conn_tbl q).key ≢ empty_key → (c.conn_tbl q).conn_id ≢ id)
    → id < conf.max_conn_cnt
    → (c.conn_cnt + 1 + c.tw_cnt) * 2 ≤ c.tbl_mask
    → conf.max_conn_cnt ≤ n.conn_id
    → let tw = c.tws (n.conn_id - conf.max_conn_cnt) in
      let key = (c.conn_tbl p).key in
      conn_hash_key tw.dst_ip tw.dst_port ≡ key
      → let i = find_conn_entry conf.total c.tbl_mask c.conn_tbl key in
        let c1 = add_entry conf i key id (record c { conn_cnt = c.conn_cnt + 1 }) in
        let c2 = (on_timer_node conf timer_handler n (c1, a)).0 in IsTakenOut conf key id c c1 c2
add_entry-on_timer_node conf {A} timer_handler a n p id c v k o l g m t =
    let tbl = c.conn_tbl in
    let key = (tbl p).key in
    let place = find_conn_entry_lem conf.total c.tbl_mask p tbl v k in
    let c1 : Core = record c {
      conn_cnt = c.conn_cnt + 1;
      conn_tbl = add_conn_entry conf.total tbl p (record { key = key; conn_id = id });
    } in
    let same =
      ap (λ i. add_entry conf i key id (record c { conn_cnt = c.conn_cnt + 1 })) place
      ∙ add_entry-stays conf p key id (record c { conn_cnt = c.conn_cnt + 1 }) g in
    let (there, entry) = add-found conf.total c.tbl_mask p id tbl v k in
    let found = ap c1.conn_tbl there ∙ entry in
    let (w, x, y, z) = del_entry-frees conf key id c1 (ap (λ (o : Entry). o.conn_id) found) l in
    let gone = add-gone conf.total c.tbl_mask p id tbl v k o in
    let back : c.conn_cnt + 1 - 1 ≡ c.conn_cnt = omega arith in
    subst
      (λ (c' : Core). IsTakenOut conf key id c c' (on_timer_node conf timer_handler n (c', a)).0)
      (sym same)
      (subst (λ (s : Core × A). IsTakenOut conf key id c c1 s.0)
        (sym (on_timer_node-ends conf timer_handler a n key c1 m t))
        (
          found,
          subst (λ (tbl' : Entries). (q : ℕ) → (tbl' q).key ≢ empty_key → (tbl' q).conn_id ≢ id)
              (sym w) gone,
          x ∙ back,
          ap (del_entry conf key c1).conns (sym back) ∙ y,
          z,
        ))
