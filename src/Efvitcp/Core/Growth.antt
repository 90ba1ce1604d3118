-- ===== src/Efvitcp/Core/Growth.antt =====
-- `tryExpandConnTbl` and `init` of efvitcp/Core.h at concrete values.
use pollnet.Base.{ℕ, ◌≡◌, ◌==◌, refl, if◌then◌else◌}
use pollnet.Efvitcp.Table.{Entries, empty_key, find_conn_entry}
use pollnet.Efvitcp.Core.{Conf, Core, expand}
use pollnet.Efvitcp.Core.Examples.{core_conf, start}

abbrev big_conf : Conf
big_conf = record core_conf { max_table_size = 256; total = 260 }

-- The keys 127 and 383 have home 127, so the second stands behind the table's end. They stay in the
-- lower half when the table grows, where 640, of home 0, goes to the upper one.
abbrev crowded : Entries
crowded p =
    if p == 0
    then record { key = 640; conn_id = 1 }
    else if p == 127
    then record { key = 127; conn_id = 2 }
    else if p == 128
    then record { key = 383; conn_id = 3 }
    else record { key = empty_key; conn_id = 0 }

abbrev before : Core
before = record start { conn_tbl = crowded; tbl_mask = 127; conn_cnt = 3 }

abbrev grown : Core
grown = expand big_conf before

abbrev found : Core → ℕ → ℕ
found c key = (c.conn_tbl (find_conn_entry 260 c.tbl_mask c.conn_tbl key)).key

before_keys : (found before 640 ≡ 640) × (found before 383 ≡ 383)
unfolding find_conn_entry
before_keys = (refl, refl)

-- The entry that 383 gives way for is put where 383 was, behind the new end, with its identifier.
grown_keys :
    (grown.tbl_mask ≡ 255)
    × (found grown 383 ≡ 383)
    × (found grown 640 ≡ empty_key)
    × (grown.conn_tbl 256 ≡ record { key = 640; conn_id = 3 })
unfolding find_conn_entry expand
grown_keys = (refl, refl, refl, refl)
