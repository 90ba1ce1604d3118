-- ===== src/Efvitcp/Core.antt =====
-- `Core` of efvitcp/Core.h: the connections' identifiers with their entries in the table, those in
-- TIME_WAIT, and the wheel. Replies has the frames that it sends itself, Poll its two polls.
pub mod Replies
pub mod Checked
pub mod Answers
pub mod Poll
pub mod Pool
pub mod Ids
pub mod Open
pub mod Wait
pub mod Steps
pub mod Again
pub mod Polled
pub mod Examples
mod Tests
mod Growth
use pollnet.Base.{
  ℕ, zero, suc, ◌+◌, ◌-◌, ◌*◌, ◌≤◌, Bool, List, [], ◌∷◌, ◌==◌, leb, ltb, min, not, if◌then◌else◌,
}
use pollnet.Base.Buf.{Buf}
use pollnet.Efvitcp.Table.{
  Entry, Entries, empty_key, with_entry, find_conn_entry, add_conn_entry, del_conn_entry,
}
use pollnet.Efvitcp.Wheel.{Node, Wheel, add_timer}
use pollnet.Efvitcp.Conn.{SendBuf}

-- `MaxConnCnt`, `MaxTimeWaitConnCnt`, `MaxTableSize`,
-- `TotalTableSize` and `SendBufCnt`
pub record Conf : Type 0 where
  pub max_conn_cnt : ℕ
  pub max_time_wait_conn_cnt : ℕ
  pub max_table_size : ℕ
  pub total : ℕ
  pub send_buf_cnt : ℕ

-- `TimeWaitConn`, without its timer
pub record TimeWaitConn : Type 0 where
  pub dst_mac : Buf
  pub has_ts : Bool
  pub dst_ip : ℕ
  pub src_port : ℕ
  pub dst_port : ℕ
  pub seq_num : ℕ
  pub ack_num : ℕ
  pub tsecr : ℕ

-- The members. `fired` is `dump_slot`, the timers of the tick that are still to be told; `rst` is the
-- last send buffer, and `sent` and `recycled` log what the adapter was given.
pub record Core : Type 0 where
  pub conn_tbl : Entries
  pub tbl_mask : ℕ
  pub conns : ℕ → ℕ
  pub conn_cnt : ℕ
  pub tw_ids : ℕ → ℕ
  pub tw_cnt : ℕ
  pub tws : ℕ → TimeWaitConn
  pub wheel : Wheel
  pub fired : List Node
  pub rst : SendBuf
  pub rst_ipsum : ℕ
  pub rst_tcpsum : ℕ
  pub sent : List SendBuf
  pub recycled : List ℕ

abbrev pub write_at {ℓ} : {A : Type ℓ} → (ℕ → A) → ℕ → A → ℕ → A
write_at f i x j = if j == i then x else f j

-- `TimeWaitTimeout`
abbrev pub time_wait_timeout : ℕ
time_wait_timeout = 60 * 1000

-- `getTblSize`
abbrev pub get_tbl_size : Core → ℕ
get_tbl_size c = c.conn_cnt + c.tw_cnt

-- The end of `init`: all identifiers are free, and the table, of 128 entries at most to begin with, is
-- empty.
unfoldable pub init_tables : Conf → Core → Core
init_tables conf c = record c {
  conns = λ i. i;
  conn_cnt = 0;
  tw_ids = λ i. i;
  tw_cnt = 0;
  conn_tbl = λ i. record { key = empty_key; conn_id = (c.conn_tbl i).conn_id };
  tbl_mask = min conf.max_table_size 128 - 1;
}

-- `while (end->key != EmptyKey) std::swap(*new_end++, *end++)`: the entries, and `new_end`.
unfoldable pub move_end : ℕ → ℕ → ℕ → Entries → Entries × ℕ
move_end zero end new_end tbl = (tbl, new_end)
move_end (suc fuel) end new_end tbl =
    let swapped = with_entry (with_entry tbl new_end (tbl end)) end (tbl new_end) in
    let rest = move_end fuel (end + 1) (new_end + 1) swapped in
    if (tbl end).key == empty_key then (tbl, new_end) else rest

-- What `enterTW` keeps of a connection, whose buffer is `buf`.
unfoldable pub time_wait_of : SendBuf → Bool → ℕ → TimeWaitConn
time_wait_of buf has_ts tsecr = record {
  dst_mac = buf.dst_mac;
  has_ts = has_ts;
  dst_ip = buf.dst_ip;
  src_port = buf.src_port;
  dst_port = buf.dst_port;
  seq_num = buf.seq_num;
  ack_num = buf.ack_num;
  tsecr = tsecr;
}

module _ (conf : Conf) where
  -- A round of `rehash` that is not skipped: the keys are exchanged, the identifier is copied.
  unfoldable pub rehash_entry : ℕ → ℕ → Entries → Entries
  unfolding find_conn_entry
  rehash_entry tbl_mask i tbl =
      let n = find_conn_entry conf.total tbl_mask tbl (tbl i).key in
      let new_key = (tbl n).key in
      let tbl' = with_entry tbl i (record (tbl i) { key = new_key }) in
      with_entry tbl' n (record { key = (tbl i).key; conn_id = (tbl i).conn_id })

  unfoldable pub rehash : ℕ → ℕ → ℕ → ℕ → Entries → Entries
  unfolding rehash_entry
  rehash zero tbl_mask i cnt tbl = tbl
  rehash (suc fuel) tbl_mask i cnt tbl =
      let skip = (tbl i).key == empty_key in
      let tbl' = if skip then tbl else rehash_entry tbl_mask i tbl in
      let rest = rehash fuel tbl_mask (i + 1) (if skip then cnt else cnt - 1) tbl' in
      if cnt == 0 then tbl else rest

  -- The table with twice the mask.
  unfoldable pub expand : Core → Core
  unfolding move_end rehash
  expand c =
      let mask = c.tbl_mask * 2 + 1 in
      let (tbl, new_end) = move_end conf.total (c.tbl_mask + 1) (mask + 1) c.conn_tbl in
      let end_cnt = new_end - (mask + 1) in
      let tbl = rehash conf.total mask 0 (get_tbl_size c - end_cnt) tbl in
      record c { tbl_mask = mask; conn_tbl = rehash conf.total mask (mask + 1) end_cnt tbl }

  unfoldable pub try_expand_conn_tbl : Core → Core
  unfolding expand
  try_expand_conn_tbl c = if leb (get_tbl_size c * 2) c.tbl_mask then c else expand c

  -- `addConnEntry` at the entry `i`
  unfoldable pub add_entry : ℕ → ℕ → ℕ → Core → Core
  unfolding add_conn_entry try_expand_conn_tbl
  add_entry i key conn_id c = try_expand_conn_tbl (record c {
    conn_tbl = add_conn_entry conf.total c.conn_tbl i (record { key = key; conn_id = conn_id });
  })

  -- The identifier goes back to those that are free, a connection's or one in TIME_WAIT.
  unfoldable pub free_id : ℕ → Core → Core
  free_id id c =
      if ltb id conf.max_conn_cnt
      then record c { conn_cnt = c.conn_cnt - 1; conns = write_at c.conns (c.conn_cnt - 1) id }
      else record c {
        tw_cnt = c.tw_cnt - 1;
        tw_ids = write_at c.tw_ids (c.tw_cnt - 1) (id - conf.max_conn_cnt);
      }

  -- `delConnEntry`
  unfoldable pub del_entry : ℕ → Core → Core
  unfolding free_id del_conn_entry
  del_entry key c =
      let id = (c.conn_tbl (find_conn_entry conf.total c.tbl_mask c.conn_tbl key)).conn_id in
      record (free_id id c) { conn_tbl = del_conn_entry conf.total c.tbl_mask c.conn_tbl key }

  -- The connection's identifier is freed, and its entry has one of those in TIME_WAIT instead.
  unfoldable pub take_tw : ℕ → SendBuf → Bool → ℕ → Core → Core
  unfolding time_wait_of add_timer
  take_tw key buf has_ts tsecr c =
      let i = find_conn_entry conf.total c.tbl_mask c.conn_tbl key in
      let id = c.tw_ids c.tw_cnt in
      record c {
        conns = write_at c.conns (c.conn_cnt - 1) (c.conn_tbl i).conn_id;
        conn_cnt = c.conn_cnt - 1;
        tw_cnt = c.tw_cnt + 1;
        conn_tbl =
            with_entry c.conn_tbl i (record (c.conn_tbl i) { conn_id = conf.max_conn_cnt + id });
        tws = write_at c.tws id (time_wait_of buf has_ts tsecr);
        wheel =
            add_timer time_wait_timeout (record { conn_id = conf.max_conn_cnt + id; expire_ts = 0 })
              c.wheel;
      }

  -- `enterTW`
  unfoldable pub enter_time_wait : ℕ → SendBuf → Bool → ℕ → Core → Core
  unfolding del_entry take_tw
  enter_time_wait key buf has_ts tsecr c =
      if c.tw_cnt == conf.max_time_wait_conn_cnt
      then del_entry key c
      else take_tw key buf has_ts tsecr c
