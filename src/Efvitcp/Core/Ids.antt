-- ===== src/Efvitcp/Core/Ids.antt =====
-- The identifiers of efvitcp/Core.h when entries come and go: `addConnEntry`, `delConnEntry`,
-- `enterTW`.
use pollnet.Base.{
  ℕ, ◌+◌, ◌-◌, ◌≤◌, ◌<◌, ◌≡◌, ◌≢◌, ◌↔◌, ◌⊎◌, arith, refl, ltb, ltb→lt, ltb→ge, ◌∙◌, ap, sym, subst,
  Bool-cases, inl, inr,
}
use pollnet.Efvitcp.Table.{Entry, Entries, empty_key, home, find_conn_entry, del_conn_entry}
use pollnet.Efvitcp.Table.Find.{IsTable, find_conn_entry_lem}
use pollnet.Efvitcp.Table.Add.{Inserts}
use pollnet.Efvitcp.Table.Del.{Deletes, del_conn_entry-Deletes}
use pollnet.Efvitcp.Core.{Conf, Core, write_at, free_id, del_entry}
use pollnet.Efvitcp.Core.Pool.{HasId, IsPool, keep-IsPool, free-IsPool}

-- No two entries have the same identifier.
abbrev pub IsUnique : Entries → Type 0
IsUnique tbl =
    (p q : ℕ)
    → (tbl p).key ≢ empty_key
    → (tbl q).key ≢ empty_key
    → (tbl p).conn_id ≡ (tbl q).conn_id
    → p ≡ q

-- Entries of a table with the same key are one.
pub same_place :
    (total tbl_mask : ℕ) (tbl : Entries) (a b : ℕ)
    → IsTable total tbl_mask tbl
    → (tbl a).key ≢ empty_key
    → (tbl b).key ≢ empty_key
    → (tbl a).key ≡ (tbl b).key
    → a ≡ b
same_place total tbl_mask tbl a b v k l e =
    sym (find_conn_entry_lem total tbl_mask a tbl v k)
    ∙ ap (find_conn_entry total tbl_mask tbl) e
    ∙ find_conn_entry_lem total tbl_mask b tbl v l

module _ (total tbl_mask p : ℕ) (tbl tbl' : Entries) (v : IsTable total tbl_mask tbl)
    (u : IsUnique tbl) (n : (tbl p).key ≢ empty_key) (d : Deletes total tbl_mask p tbl tbl') where
  del-HasId : (y : ℕ) → HasId tbl' y ↔ (HasId tbl y × (y ≢ (tbl p).conn_id))
  del-HasId y = (
    λ (q, k, e).
        let (r, f, g) = d.only (tbl' q) k (q, refl) in
        let k' : (tbl r).key ≢ empty_key = λ z. k (ap (λ (o : Entry). o.key) (sym g) ∙ z) in
        let e' : (tbl r).conn_id ≡ y = ap (λ (o : Entry). o.conn_id) g ∙ e in
        ((r, k', e'), λ z. f (u r p k' n (e' ∙ z))),
    λ ((q, k, e), z).
        let (s, g) = d.old q (λ f. z (sym e ∙ ap (λ j. (tbl j).conn_id) f)) k in
        (s, λ c. k (ap (λ (o : Entry). o.key) (sym g) ∙ c), ap (λ (o : Entry). o.conn_id) g ∙ e),
  )

  del-IsUnique : IsUnique tbl'
  del-IsUnique a b k l e =
      let (r, _, g) = d.only (tbl' a) k (a, refl) in
      let (s, _, h) = d.only (tbl' b) l (b, refl) in
      let k' : (tbl r).key ≢ empty_key = λ z. k (ap (λ (o : Entry). o.key) (sym g) ∙ z) in
      let l' : (tbl s).key ≢ empty_key = λ z. l (ap (λ (o : Entry). o.key) (sym h) ∙ z) in
      let same : r ≡ s =
        u r s k' l' (ap (λ (o : Entry). o.conn_id) g ∙ e ∙ ap (λ (o : Entry). o.conn_id) (sym h)) in
      same_place total tbl_mask tbl' a b d.table k l
        (ap (λ (o : Entry). o.key) (sym g ∙ ap tbl same ∙ h))

module _ (total tbl_mask : ℕ) (o : Entry) (tbl tbl' : Entries) (k : o.key ≢ empty_key)
    (u : IsUnique tbl) (d : Inserts total tbl_mask o tbl tbl') where
  pub add-HasId : (y : ℕ) → HasId tbl' y ↔ (HasId tbl y ⊎ (y ≡ o.conn_id))
  add-HasId y = (
    λ (q, l, e). elim (d.only (tbl' q) l (q, refl)) [
      | inl g ↦ inr (sym e ∙ ap (λ (x : Entry). x.conn_id) g)
      | inr (r, g) ↦
          inl
            (r, λ z. l (ap (λ (x : Entry). x.key) (sym g) ∙ z), ap (λ (x : Entry). x.conn_id) g ∙ e)
    ],
    λ h. elim h [
      | inl (q, l, e) ↦
          let (s, g) = d.old (tbl q) l (q, refl) in
          (s, λ z. l (ap (λ (x : Entry). x.key) (sym g) ∙ z), ap (λ (x : Entry). x.conn_id) g ∙ e)
      | inr e ↦
          let (s, g) = d.new in
          (
            s,
            λ z. k (ap (λ (x : Entry). x.key) (sym g) ∙ z),
            ap (λ (x : Entry). x.conn_id) g ∙ sym e,
          )
    ],
  )

  pub add-IsUnique : (HasId tbl o.conn_id → ⊥) → IsUnique tbl'
  add-IsUnique fresh a b l m e = elim (d.only (tbl' a) l (a, refl)) [
    | inl g ↦ elim (d.only (tbl' b) m (b, refl)) [
      | inl h ↦
          same_place total tbl_mask tbl' a b d.table l m (ap (λ (x : Entry). x.key) (g ∙ sym h))
      | inr (s, h) ↦ absurd (
          fresh (
            s,
            λ z. m (ap (λ (x : Entry). x.key) (sym h) ∙ z),
            ap (λ (x : Entry). x.conn_id) h ∙ sym e ∙ ap (λ (x : Entry). x.conn_id) g,
          ))
    ]
    | inr (r, g) ↦
        let l' : (tbl r).key ≢ empty_key = λ z. l (ap (λ (x : Entry). x.key) (sym g) ∙ z) in
        elim (d.only (tbl' b) m (b, refl)) [
          | inl h ↦
              absurd (
                fresh
                  (r, l', ap (λ (x : Entry). x.conn_id) g ∙ e ∙ ap (λ (x : Entry). x.conn_id) h))
          | inr (s, h) ↦
              let m' : (tbl s).key ≢ empty_key = λ z. m (ap (λ (x : Entry). x.key) (sym h) ∙ z) in
              let same : r ≡ s =
                u r s l' m'
                  (ap (λ (x : Entry). x.conn_id) g ∙ e ∙ ap (λ (x : Entry). x.conn_id) (sym h)) in
              same_place total tbl_mask tbl' a b d.table l m
                (ap (λ (x : Entry). x.key) (sym g ∙ ap tbl same ∙ h))
        ]
  ]

-- Every identifier of a connection, and every one of TIME_WAIT, is free or in use, once, and those
-- in use are those of the entries, one each.
pub record IsIds (conf : Conf) (c : Core) : Type 0 where
  pub table : IsTable conf.total c.tbl_mask c.conn_tbl
  pub ids :
      (p : ℕ)
      → (c.conn_tbl p).key ≢ empty_key
      → (c.conn_tbl p).conn_id < conf.max_conn_cnt + conf.max_time_wait_conn_cnt
  pub unique : IsUnique c.conn_tbl
  pub conns_pool : IsPool 0 conf.max_conn_cnt c.conns c.conn_cnt c.conn_tbl
  pub tws_pool : IsPool conf.max_conn_cnt conf.max_time_wait_conn_cnt c.tw_ids c.tw_cnt c.conn_tbl

-- What `free_id` gives back, a connection's identifier or one of TIME_WAIT.
module _ (conf : Conf) (c : Core) (id : ℕ) (tbl' : Entries) (v : IsIds conf c)
    (m : HasId c.conn_tbl id) (h : (y : ℕ) → HasId tbl' y ↔ (HasId c.conn_tbl y × (y ≢ id)))
    (t : IsTable conf.total c.tbl_mask tbl') (u : IsUnique tbl') where
  below :
      (p : ℕ)
      → (tbl' p).key ≢ empty_key
      → (tbl' p).conn_id < conf.max_conn_cnt + conf.max_time_wait_conn_cnt
  below p k =
      let ((q, l, e), _) = (h (tbl' p).conn_id).0 (p, k, refl) in omega (arith, v.ids q l, e)

  other : (y : ℕ) → y ≢ id → HasId tbl' y ↔ HasId c.conn_tbl y
  other y d = (λ a. ((h y).0 a).0, λ a. (h y).1 (a, d))

  free_conn-IsIds :
      id < conf.max_conn_cnt
      → IsIds conf (record c {
        conn_tbl = tbl';
        conns = write_at c.conns (c.conn_cnt - 1) id;
        conn_cnt = c.conn_cnt - 1;
      })
  free_conn-IsIds l = record {
    table = t;
    ids = below;
    unique = u;
    conns_pool =
        free-IsPool 0 conf.max_conn_cnt c.conns c.conn_cnt c.conn_tbl tbl' id id l (omega arith) m
          (λ y a. h (0 + y)) v.conns_pool;
    tws_pool =
        keep-IsPool conf.max_conn_cnt conf.max_time_wait_conn_cnt c.tw_ids c.tw_cnt c.conn_tbl tbl'
          (λ y a. other (conf.max_conn_cnt + y) (λ e. absurd (omega (arith, e)))) v.tws_pool;
  }

  free_tw-IsIds :
      conf.max_conn_cnt ≤ id
      → IsIds conf (record c {
        conn_tbl = tbl';
        tw_ids = write_at c.tw_ids (c.tw_cnt - 1) (id - conf.max_conn_cnt);
        tw_cnt = c.tw_cnt - 1;
      })
  free_tw-IsIds l = record {
    table = t;
    ids = below;
    unique = u;
    conns_pool =
        keep-IsPool 0 conf.max_conn_cnt c.conns c.conn_cnt c.conn_tbl tbl'
          (λ y a. other (0 + y) (λ e. absurd (omega (arith, e)))) v.conns_pool;
    tws_pool =
        let (p, k, e) = m in
        free-IsPool conf.max_conn_cnt conf.max_time_wait_conn_cnt c.tw_ids c.tw_cnt c.conn_tbl tbl'
          (id - conf.max_conn_cnt) id (omega (arith, v.ids p k, e)) (omega arith) m
          (λ y a. h (conf.max_conn_cnt + y)) v.tws_pool;
  }

  free_id-IsIds : IsIds conf (record (free_id conf id c) { conn_tbl = tbl' })
  unfolding free_id
  free_id-IsIds = elim (Bool-cases (ltb id conf.max_conn_cnt)) [
    | inl e ↦ simp e (free_conn-IsIds (ltb→lt _ _ e))
    | inr e ↦ simp e (free_tw-IsIds (ltb→ge _ _ e))
  ]

-- `delConnEntry` of a key that the table holds, with an empty entry behind it.
pub del_entry-IsIds :
    (conf : Conf) (c : Core) (p stop : ℕ)
    → home c.tbl_mask empty_key ≡ 0
    → IsIds conf c
    → (c.conn_tbl p).key ≢ empty_key
    → p < stop
    → (c.conn_tbl stop).key ≡ empty_key
    → stop < conf.total
    → IsIds conf (del_entry conf (c.conn_tbl p).key c)
      × ((q : ℕ) → ((del_entry conf (c.conn_tbl p).key c).conn_tbl q).key ≢ (c.conn_tbl p).key)
unfolding del_entry
del_entry-IsIds conf c p stop o v k l z t =
    let tbl = c.conn_tbl in
    let key = (tbl p).key in
    let tbl' = del_conn_entry conf.total c.tbl_mask tbl key in
    let (d, _, gone) = del_conn_entry-Deletes conf.total c.tbl_mask o p stop tbl v.table k l z t in
    let place = find_conn_entry_lem conf.total c.tbl_mask p tbl v.table k in
    (
      subst (λ i. IsIds conf (record (free_id conf (tbl i).conn_id c) { conn_tbl = tbl' }))
          (sym place)
          (free_id-IsIds conf c (tbl p).conn_id tbl' v (p, k, refl)
            (del-HasId conf.total c.tbl_mask p tbl tbl' v.table v.unique k d) d.table
            (del-IsUnique conf.total c.tbl_mask p tbl tbl' v.table v.unique k d)),
      gone,
    )
