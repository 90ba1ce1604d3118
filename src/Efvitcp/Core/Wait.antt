-- ===== src/Efvitcp/Core/Wait.antt =====
-- A connection's entry when it goes into TIME_WAIT: `enterTW` of efvitcp/Core.h.
use pollnet.Base.{
  ℕ, ◌+◌, ◌≤◌, ◌<◌, ◌≡◌, ◌≢◌, ◌↔◌, ◌⊎◌, ◌==◌, Bool, true, false, arith, refl, ◌∙◌, ap, sym, subst,
  Bool-cases, inl, inr,
}
use pollnet.Efvitcp.Table.{Entry, Entries, empty_key, home, with_entry, find_conn_entry}
use pollnet.Efvitcp.Table.Find.{IsTable, find_conn_entry_lem}
use pollnet.Efvitcp.Table.Add.{with_hit, with_miss}
use pollnet.Efvitcp.Conn.{SendBuf}
use pollnet.Efvitcp.Core.{Conf, Core, take_tw, enter_time_wait}
use pollnet.Efvitcp.Core.Pool.{HasId, free-IsPool, take-IsPool, taken_lt, fresh_lem}
use pollnet.Efvitcp.Core.Ids.{IsUnique, IsIds, del_entry-IsIds}

-- An entry that only gets another identifier.
module _ (total tbl_mask i id : ℕ) (tbl : Entries) (v : IsTable total tbl_mask tbl)
    (n : (tbl i).key ≢ empty_key) where
  abbrev retagged : Entries
  retagged = with_entry tbl i (record (tbl i) { conn_id = id })

  retag-key : (p : ℕ) → (retagged p).key ≡ (tbl p).key
  retag-key p = elim (Bool-cases (p == i)) [
    | inl e ↦ let f : p ≡ i = ground arith in rw e (ap (λ j. (tbl j).key) (sym f))
    | inr e ↦ rw e refl
  ]

  retag-IsTable : IsTable total tbl_mask retagged
  retag-IsTable = record {
    inside = λ p l. retag-key p ∙ v.inside p l;
    at_most = λ p. omega (arith, retag-key p, v.at_most p);
    reaches = λ p k.
        let (a, b) = v.reaches p (λ z. k (retag-key p ∙ z)) in
        (
          subst (λ key. home tbl_mask key ≤ p) (sym (retag-key p)) a,
          λ q l m. omega (
            arith,
            retag-key p,
            retag-key q,
            b q (subst (λ key. home tbl_mask key ≤ q) (retag-key p) l) m,
          ),
        );
  }

  hit : (p : ℕ) → (p == i) ≡ true → (retagged p).conn_id ≡ id
  hit p e = ap (λ (o : Entry). o.conn_id) (with_hit tbl i p (record (tbl i) { conn_id = id }) e)

  miss : (p : ℕ) → (p == i) ≡ false → (retagged p).conn_id ≡ (tbl p).conn_id
  miss p e = ap (λ (o : Entry). o.conn_id) (with_miss tbl i p (record (tbl i) { conn_id = id }) e)

  retag-HasId :
      IsUnique tbl → (y : ℕ) → HasId retagged y ↔ ((HasId tbl y × (y ≢ (tbl i).conn_id)) ⊎ (y ≡ id))
  retag-HasId u y = (
    λ (p, k, e). elim (Bool-cases (p == i)) [
      | inl g ↦ inr (sym e ∙ hit p g)
      | inr g ↦
          let k' : (tbl p).key ≢ empty_key = λ z. k (retag-key p ∙ z) in
          let e' : (tbl p).conn_id ≡ y = sym (miss p g) ∙ e in
          inl ((p, k', e'), λ z. absurd (let f : p ≡ i = u p i k' n (e' ∙ z) in ground arith))
    ],
    λ h. elim h [
      | inl ((p, k, e), z) ↦
          let f : (p == i) ≡ false = elim (Bool-cases (p == i)) [
            | inl g ↦
                let same : p ≡ i = ground arith in
                absurd (z (sym e ∙ ap (λ j. (tbl j).conn_id) same))
            | inr g ↦ g
          ] in
          (p, λ q. k (sym (retag-key p) ∙ q), miss p f ∙ e)
      | inr e ↦
          let f : (i == i) ≡ true = ground arith in
          (i, λ q. n (sym (retag-key i) ∙ q), hit i f ∙ sym e)
    ],
  )

  retag-IsUnique : IsUnique tbl → (HasId tbl id → ⊥) → IsUnique retagged
  retag-IsUnique u fresh p q k l e =
      let k' : (tbl p).key ≢ empty_key = λ z. k (retag-key p ∙ z) in
      let l' : (tbl q).key ≢ empty_key = λ z. l (retag-key q ∙ z) in
      elim (Bool-cases (p == i)) [
        | inl g ↦ elim (Bool-cases (q == i)) [
          | inl f ↦ ground arith
          | inr f ↦ absurd (fresh (q, l', sym (miss q f) ∙ sym e ∙ hit p g))
        ]
        | inr g ↦ elim (Bool-cases (q == i)) [
          | inl f ↦ absurd (fresh (p, k', sym (miss p g) ∙ e ∙ hit q f))
          | inr f ↦ u p q k' l' (sym (miss p g) ∙ e ∙ miss q f)
        ]
      ]

-- The connection at `p` goes into TIME_WAIT while there is room for it.
take_tw-IsIds :
    (conf : Conf) (c : Core) (p : ℕ) (buf : SendBuf) (has_ts : Bool) (tsecr : ℕ)
    → IsIds conf c
    → (c.conn_tbl p).key ≢ empty_key
    → (c.conn_tbl p).conn_id < conf.max_conn_cnt
    → c.tw_cnt < conf.max_time_wait_conn_cnt
    → IsIds conf (take_tw conf (c.conn_tbl p).key buf has_ts tsecr c)
unfolding take_tw
take_tw-IsIds conf c p buf has_ts tsecr v k l m =
    let tbl = c.conn_tbl in
    let i = find_conn_entry conf.total c.tbl_mask tbl (tbl p).key in
    let place : i ≡ p = find_conn_entry_lem conf.total c.tbl_mask p tbl v.table k in
    let n : (tbl i).key ≢ empty_key = subst (λ j. (tbl j).key ≢ empty_key) (sym place) k in
    let l' : (tbl i).conn_id < conf.max_conn_cnt =
      subst (λ j. (tbl j).conn_id < conf.max_conn_cnt) (sym place) l in
    let x = c.tw_ids c.tw_cnt in
    let id = conf.max_conn_cnt + x in
    let lt = taken_lt c.tw_ids c.tw_cnt conf.max_time_wait_conn_cnt tbl v.tws_pool m x refl in
    let fresh : HasId tbl id → ⊥ =
      fresh_lem c.tw_ids c.tw_cnt conf.max_time_wait_conn_cnt tbl v.tws_pool m id refl in
    let h = retag-HasId conf.total c.tbl_mask i id tbl v.table n v.unique in
    let tbl' = retagged conf.total c.tbl_mask i id tbl v.table n in
    record {
      table = retag-IsTable conf.total c.tbl_mask i id tbl v.table n;
      ids = λ q o. elim ((h (tbl' q).conn_id).0 (q, o, refl)) [
        | inl ((r, a, b), _) ↦ omega (arith, v.ids r a, b)
        | inr b ↦ omega (arith, b, lt)
      ];
      unique = retag-IsUnique conf.total c.tbl_mask i id tbl v.table n v.unique fresh;
      conns_pool =
          free-IsPool 0 conf.max_conn_cnt c.conns c.conn_cnt tbl tbl' (tbl i).conn_id
            (tbl i).conn_id l' (omega arith) (i, n, refl)
            (λ y o. (
              λ q. elim ((h (0 + y)).0 q) [ inl r ↦ r | inr f ↦ absurd (omega (arith, f)) ],
              λ q. (h (0 + y)).1 (inl q),
            ))
            v.conns_pool;
      tws_pool =
          take-IsPool conf.max_conn_cnt conf.max_time_wait_conn_cnt c.tw_ids c.tw_cnt tbl tbl' id m
            refl
            (λ y o. (
              λ q. elim ((h (conf.max_conn_cnt + y)).0 q) [ inl r ↦ inl r.0 | inr f ↦ inr f ],
              λ q. elim q [
                | inl r ↦
                    (h (conf.max_conn_cnt + y)).1 (inl (r, λ f. absurd (omega (arith, f, l'))))
                | inr f ↦ (h (conf.max_conn_cnt + y)).1 (inr f)
              ],
            ))
            v.tws_pool;
    }

pub enter_time_wait-IsIds :
    (conf : Conf) (c : Core) (p stop : ℕ) (buf : SendBuf) (has_ts : Bool) (tsecr : ℕ)
    → home c.tbl_mask empty_key ≡ 0
    → IsIds conf c
    → (c.conn_tbl p).key ≢ empty_key
    → (c.conn_tbl p).conn_id < conf.max_conn_cnt
    → p < stop
    → (c.conn_tbl stop).key ≡ empty_key
    → stop < conf.total
    → IsIds conf (enter_time_wait conf (c.conn_tbl p).key buf has_ts tsecr c)
unfolding enter_time_wait
enter_time_wait-IsIds conf c p stop buf has_ts tsecr o v k l m z t =
    elim (Bool-cases (c.tw_cnt == conf.max_time_wait_conn_cnt)) [
      | inl e ↦ simp e (del_entry-IsIds conf c p stop o v k m z t).0
      | inr e ↦
          let room : c.tw_cnt < conf.max_time_wait_conn_cnt = ground (arith, v.tws_pool.room) in
          simp e (take_tw-IsIds conf c p buf has_ts tsecr v k l room)
    ]
