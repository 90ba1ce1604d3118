-- ===== src/Efvitcp/Core/Open.antt =====
-- A new connection's entry and identifier, as efvitcp/TcpServer.h and efvitcp/TcpClient.h take them
-- of efvitcp/Core.h.
use pollnet.Base.{ℕ, ◌+◌, ◌*◌, ◌≤◌, ◌<◌, ◌≡◌, ◌≢◌, arith, refl, le→leb, sym, subst, inl, inr}
use pollnet.Efvitcp.Table.{Entry, empty_key, home, find_conn_entry, add_conn_entry}
use pollnet.Efvitcp.Table.Add.{add_conn_entry-Inserts}
use pollnet.Efvitcp.Core.{Conf, Core, get_tbl_size, add_entry, try_expand_conn_tbl}
use pollnet.Efvitcp.Core.Pool.{HasId, keep-IsPool, take-IsPool, taken_lt, fresh_lem}
use pollnet.Efvitcp.Core.Ids.{IsIds, add-HasId, add-IsUnique}

-- `core.addConnEntry(core.findConnEntry(key), key, core.conns[core.conn_cnt++])`
unfoldable pub open_entry : Conf → ℕ → Core → Core
unfolding add_entry
open_entry conf key c =
    add_entry conf (find_conn_entry conf.total c.tbl_mask c.conn_tbl key) key (c.conns c.conn_cnt)
      (record c { conn_cnt = c.conn_cnt + 1 })

-- The table does not grow.
pub add_entry-stays :
    (conf : Conf) (i key id : ℕ) (c : Core)
    → get_tbl_size c * 2 ≤ c.tbl_mask
    → add_entry conf i key id c ≡ record c {
      conn_tbl = add_conn_entry conf.total c.conn_tbl i (record { key = key; conn_id = id });
    }
unfolding add_entry try_expand_conn_tbl
add_entry-stays conf i key id c h = simp (le→leb _ _ h)

open_entry-stays :
    (conf : Conf) (key : ℕ) (c : Core)
    → (c.conn_cnt + 1 + c.tw_cnt) * 2 ≤ c.tbl_mask
    → open_entry conf key c ≡ record c {
      conn_cnt = c.conn_cnt + 1;
      conn_tbl =
          add_conn_entry conf.total c.conn_tbl
            (find_conn_entry conf.total c.tbl_mask c.conn_tbl key)
            (record { key = key; conn_id = c.conns c.conn_cnt });
    }
unfolding open_entry
open_entry-stays conf key c h =
    add_entry-stays conf (find_conn_entry conf.total c.tbl_mask c.conn_tbl key) key
      (c.conns c.conn_cnt) (record c { conn_cnt = c.conn_cnt + 1 }) h

pub open_entry-IsIds :
    (conf : Conf) (c : Core) (key stop : ℕ)
    → IsIds conf c
    → c.conn_cnt < conf.max_conn_cnt
    → (c.conn_cnt + 1 + c.tw_cnt) * 2 ≤ c.tbl_mask
    → key < empty_key
    → ((p : ℕ) → (c.conn_tbl p).key ≢ key)
    → (c.conn_tbl stop).key ≡ empty_key
    → home c.tbl_mask key ≤ stop
    → stop < conf.total
    → let c' = open_entry conf key c in
      IsIds conf c'
      × (c'.conn_tbl (find_conn_entry conf.total c'.tbl_mask c'.conn_tbl key)
          ≡ record { key = key; conn_id = c.conns c.conn_cnt })
open_entry-IsIds conf c key stop v l g k new z a b =
    let e : Entry = record { key = key; conn_id = c.conns c.conn_cnt } in
    let tbl = c.conn_tbl in
    let tbl' = add_conn_entry conf.total tbl (find_conn_entry conf.total c.tbl_mask tbl key) e in
    let (d, found, _) =
      add_conn_entry-Inserts conf.total c.tbl_mask stop tbl e v.table k new z a b in
    let n : key ≢ empty_key = λ q. absurd (omega (arith, q)) in
    let id = c.conns c.conn_cnt in
    let lt : id < conf.max_conn_cnt =
      taken_lt c.conns c.conn_cnt conf.max_conn_cnt tbl v.conns_pool l id refl in
    let fresh : HasId tbl id → ⊥ =
      fresh_lem c.conns c.conn_cnt conf.max_conn_cnt tbl v.conns_pool l id (omega arith) in
    let h = add-HasId conf.total c.tbl_mask e tbl tbl' n v.unique d in
    subst
      (λ (c' : Core).
        IsIds conf c' × (c'.conn_tbl (find_conn_entry conf.total c'.tbl_mask c'.conn_tbl key) ≡ e))
      (sym (open_entry-stays conf key c g))
      (
        record {
          table = d.table;
          ids = λ p m. elim ((h (tbl' p).conn_id).0 (p, m, refl)) [
            | inl (q, o, f) ↦ omega (arith, v.ids q o, f)
            | inr f ↦ omega (arith, f)
          ];
          unique = add-IsUnique conf.total c.tbl_mask e tbl tbl' n v.unique d fresh;
          conns_pool =
              take-IsPool 0 conf.max_conn_cnt c.conns c.conn_cnt tbl tbl' id l (omega arith)
                (λ y o. h (0 + y)) v.conns_pool;
          tws_pool =
              keep-IsPool conf.max_conn_cnt conf.max_time_wait_conn_cnt c.tw_ids c.tw_cnt tbl tbl'
                (λ y o. (
                  λ q. elim ((h (conf.max_conn_cnt + y)).0 q) [
                    | inl r ↦ r
                    | inr f ↦ absurd (omega (arith, f))
                  ],
                  λ q. (h (conf.max_conn_cnt + y)).1 (inl q),
                ))
                v.tws_pool;
        },
        found,
      )
