-- ===== src/Efvitcp/Table.antt =====
-- The connection table of efvitcp/Core.h: open addressing without wrap-around, in which the keys
-- that an entry had to pass are smaller than its own. The array has `total` entries, `TotalTableSize`.
pub mod Key
pub mod Find
pub mod Add
pub mod Del
pub mod Kept
use pollnet.Base.{
  ℕ, zero, suc, ◌+◌, ◌-◌, ◌*◌, ◌/◌, ◌%◌, ◌^◌, Bool, true, false, ◌==◌, ltb, if◌then◌else◌,
}
use pollnet.Wire.{swap16, swap32}

-- `ConnHashEntry`
pub record Entry : Type 0 where
  pub key : ℕ
  pub conn_id : ℕ

-- `EmptyKey`, which is above every key.
abbrev pub empty_key : ℕ
empty_key = 2 ^ 63

-- `connHashKey`, of an address and a port in network order: the port's top bit goes to bit 47.
unfoldable pub conn_hash_key : ℕ → ℕ → ℕ
conn_hash_key ip port = let p = swap16 port in swap32 ip * 2 ^ 15 + p % 2 ^ 15 + p / 2 ^ 15 * 2 ^ 47

-- `key & tbl_mask`, for a mask that is one less than a power of two.
abbrev pub home : ℕ → ℕ → ℕ
home tbl_mask key = key % (tbl_mask + 1)

-- `conn_tbl`
abbrev pub Entries : Type 0
Entries = ℕ → Entry

abbrev pub with_entry : Entries → ℕ → Entry → Entries
with_entry tbl i e j = if j == i then e else tbl j

-- `while (entry->key < key) entry++`
unfoldable pub scan : ℕ → Entries → ℕ → ℕ → ℕ
scan zero tbl key i = i
scan (suc fuel) tbl key i =
    let rest = scan fuel tbl key (i + 1) in if ltb (tbl i).key key then rest else i

unfoldable pub find_conn_entry : ℕ → ℕ → Entries → ℕ → ℕ
unfolding scan
find_conn_entry total tbl_mask tbl key = scan total tbl key (home tbl_mask key)

module _ (total : ℕ) where
  -- The loop of `addConnEntry`, at `entry`: a larger entry gives way, and goes on to its next place.
  unfoldable pub insert : ℕ → Entries → ℕ → Entry → Entries
  unfolding scan
  insert zero tbl i e = tbl
  insert (suc fuel) tbl i e =
      let old = tbl i in
      let tbl' = with_entry tbl i e in
      let rest = insert fuel tbl' (scan total tbl' old.key (i + 1)) old in
      if old.key == empty_key then tbl' else rest

-- `addConnEntry` up to `tryExpandConnTbl`, at the entry `i`.
unfoldable pub add_conn_entry : ℕ → Entries → ℕ → Entry → Entries
unfolding insert
add_conn_entry total tbl i e = insert total total tbl i e

module _ (tbl_mask : ℕ) where
  -- `while (conn_tbl + (next->key & tbl_mask) > entry) next++`
  unfoldable pub next_entry : ℕ → Entries → ℕ → ℕ → ℕ
  next_entry zero tbl entry next = next
  next_entry (suc fuel) tbl entry next =
      let rest = next_entry fuel tbl entry (next + 1) in
      if ltb entry (home tbl_mask (tbl next).key) then rest else next

module _ (total tbl_mask : ℕ) where
  -- The loop of `delConnEntry`: entries that may stand at `entry` move up.
  unfoldable pub close_gap : ℕ → Entries → ℕ → Entries
  unfolding next_entry
  close_gap zero tbl entry = tbl
  close_gap (suc fuel) tbl entry =
      let next = next_entry tbl_mask total tbl entry (entry + 1) in
      let rest = close_gap fuel (with_entry tbl entry (tbl next)) next in
      if (tbl next).key == empty_key
      then with_entry tbl entry (record (tbl entry) { key = empty_key })
      else rest

-- `delConnEntry`, but for the counts of connections, at the entry that is found.
unfoldable pub del_conn_entry : ℕ → ℕ → Entries → ℕ → Entries
unfolding find_conn_entry close_gap
del_conn_entry total tbl_mask tbl key =
    close_gap total tbl_mask total tbl (find_conn_entry total tbl_mask tbl key)
