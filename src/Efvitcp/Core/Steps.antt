-- ===== src/Efvitcp/Core/Steps.antt =====
-- The life of a connection in the table of efvitcp/Core.h: it is opened, may go into TIME_WAIT, and
-- ends.
use pollnet.Base.{
  ℕ, zero, suc, ◌+◌, ◌*◌, ◌≤◌, ◌<◌, ◌≡◌, ◌≢◌, Bool, [], if◌then◌else◌, arith, refl, leb, ltb, ◌&&◌,
  count,
}
use pollnet.Efvitcp.Table.{Entries, empty_key, home}
use pollnet.Efvitcp.Conn.{SendBuf}
use pollnet.Efvitcp.Core.{Conf, Core, init_tables, enter_time_wait, del_entry}
use pollnet.Efvitcp.Core.Pool.{IsPool, segment}
use pollnet.Efvitcp.Core.Ids.{IsIds, del_entry-IsIds}
use pollnet.Efvitcp.Core.Open.{open_entry, open_entry-IsIds}
use pollnet.Efvitcp.Core.Wait.{enter_time_wait-IsIds}

-- The last field of `init`: the identifiers in order, and an empty table.
count-range :
    (x i k : ℕ) → count x (segment (λ j. j) i k) ≡ (if leb i x && ltb x (i + k) then 1 else 0)
count-range x i zero = ground arith
count-range x i (suc k) = ground (arith, count-range x (i + 1) k)

range-IsPool :
    (off n : ℕ) (tbl : Entries) → ((p : ℕ) → (tbl p).key ≡ empty_key) → IsPool off n (λ j. j) 0 tbl
range-IsPool off n tbl h = record {
  used = [];
  free = n;
  size = refl;
  room = omega arith;
  once = λ x l. ground (arith, count-range x 0 n);
  inside = λ x l. ground (arith, count-range x 0 n);
  has = λ x l. absurd (omega arith);
  used_of = λ x l (p, k, e). absurd (k (h p));
}

pub init_tables-IsIds : (conf : Conf) (c : Core) → IsIds conf (init_tables conf c)
unfolding init_tables
init_tables-IsIds conf c =
    let tbl = (init_tables conf c).conn_tbl in
    record {
      table = record {
        inside = λ p l. refl;
        at_most = λ p. omega arith;
        reaches = λ p k. absurd (k refl);
      };
      ids = λ p k. absurd (k refl);
      unique = λ p q k l e. absurd (k refl);
      conns_pool = range-IsPool 0 conf.max_conn_cnt tbl (λ p. refl);
      tws_pool = range-IsPool conf.max_conn_cnt conf.max_time_wait_conn_cnt tbl (λ p. refl);
    }

-- What may happen to the table while it does not grow: a key that it does not hold is opened for a
-- free connection, a connection goes into TIME_WAIT, an entry ends. Behind each of them there is an
-- empty entry.
pub data Step (conf : Conf) : Core → Core → Type 0 where
  opens :
      (c : Core) (key stop : ℕ)
      → c.conn_cnt < conf.max_conn_cnt
      → (c.conn_cnt + 1 + c.tw_cnt) * 2 ≤ c.tbl_mask
      → key < empty_key
      → ((p : ℕ) → (c.conn_tbl p).key ≢ key)
      → (c.conn_tbl stop).key ≡ empty_key
      → home c.tbl_mask key ≤ stop
      → stop < conf.total
      → Step conf c (open_entry conf key c)
  waits :
      (c : Core) (p stop : ℕ) (buf : SendBuf) (has_ts : Bool) (tsecr : ℕ)
      → home c.tbl_mask empty_key ≡ 0
      → (c.conn_tbl p).key ≢ empty_key
      → (c.conn_tbl p).conn_id < conf.max_conn_cnt
      → p < stop
      → (c.conn_tbl stop).key ≡ empty_key
      → stop < conf.total
      → Step conf c (enter_time_wait conf (c.conn_tbl p).key buf has_ts tsecr c)
  ends :
      (c : Core) (p stop : ℕ)
      → home c.tbl_mask empty_key ≡ 0
      → (c.conn_tbl p).key ≢ empty_key
      → p < stop
      → (c.conn_tbl stop).key ≡ empty_key
      → stop < conf.total
      → Step conf c (del_entry conf (c.conn_tbl p).key c)

pub data Reach (conf : Conf) (s : Core) : Core → Type 0 where
  here : Reach conf s s
  next : {t u : Core} → Reach conf s t → Step conf t u → Reach conf s u

Step-IsIds : (conf : Conf) {c c' : Core} → Step conf c c' → IsIds conf c → IsIds conf c'
Step-IsIds conf (opens c key stop a b d e f g h) v =
    (open_entry-IsIds conf c key stop v a b d e f g h).0
Step-IsIds conf (waits c p stop buf has_ts tsecr o k l m z t) v =
    enter_time_wait-IsIds conf c p stop buf has_ts tsecr o v k l m z t
Step-IsIds conf (ends c p stop o k l z t) v = (del_entry-IsIds conf c p stop o v k l z t).0

-- After `init`, and any number of steps that open a key which the table does not hold for a free
-- connection, move a connection into TIME_WAIT or end an entry, while the table does not grow and some
-- entry behind the place is empty each time: the table stays in order; each identifier of a connection
-- and of a place in TIME_WAIT is either free, once, or in use, once; those in use are those of the
-- table's entries, one each, and the counts are their numbers.
pub Reach-IsIds :
    (conf : Conf) (c : Core) {c' : Core} → Reach conf (init_tables conf c) c' → IsIds conf c'
Reach-IsIds conf c here = init_tables-IsIds conf c
Reach-IsIds conf c (next r s) = Step-IsIds conf s (Reach-IsIds conf c r)
