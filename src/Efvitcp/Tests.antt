-- ===== src/Efvitcp/Tests.antt =====
-- Checksums, timers and tables of efvitcp at concrete values, and the theorems there.
use pollnet.Base.{ℕ, ◌≡◌, ◌≢◌, refl, true, ◌==◌, List, [], ◌∷◌, if◌then◌else◌, arith}
use pollnet.Efvitcp.Wheel.{Node, Wheel, add_timer, poll_time}
use pollnet.Efvitcp.Wheel.Due.{has}
use pollnet.Efvitcp.Wheel.Run.{Call, poll_at, set, run, timer-fires}
use pollnet.Efvitcp.Table.{
  Entry, Entries, empty_key, find_conn_entry, add_conn_entry, del_conn_entry,
}
use pollnet.Efvitcp.Table.Find.{IsTable, Holds}
use pollnet.Efvitcp.Table.Add.{Inserts, add_conn_entry-Inserts}
use pollnet.Efvitcp.Table.Del.{Deletes, del_conn_entry-Deletes}

abbrev wheel : Wheel
wheel = record { now_ts = 254; short = λ i. []; long = λ i. [] }

abbrev timer : ℕ → Node
timer id = record { conn_id = id; expire_ts = 0 }

abbrev calls : List Call
calls = poll_at 255 ∷ set 300 (timer 2) ∷ poll_at 256 ∷ poll_at 257 ∷ []

timer-fires_example : has 1 (run calls (add_timer 3 (timer 1) wheel) []).1 ≡ true
unfolding add_timer poll_time
timer-fires_example =
    timer-fires 3 (timer 1) wheel calls (omega arith) (omega arith)
      (
        (λ e. absurd (omega arith)),
        ((λ e. absurd (omega arith)), ((λ e. absurd (omega arith)), tt)),
      )
      refl

-- The keys 5 and 9, both of home 1, in a table of size 4.
abbrev entries : Entries
entries p =
    if p == 1
    then record { key = 5; conn_id = 0 }
    else if p == 2
    then record { key = 9; conn_id = 1 }
    else record { key = empty_key; conn_id = 0 }

entries-IsTable : IsTable 8 3 entries
entries-IsTable = record {
  inside = λ p l. ground arith;
  at_most = λ p. ground arith;
  reaches = λ p n. (ground arith, λ q a b. ground arith);
}

abbrev six : Entry
six = record { key = 6; conn_id = 4 }

add_conn_entry-Inserts_example :
    let tbl' = add_conn_entry 8 entries (find_conn_entry 8 3 entries 6) six in
    let found : ℕ → Entry = λ key. tbl' (find_conn_entry 8 3 tbl' key) in
    Inserts 8 3 six entries tbl'
    × (found 6 ≡ six)
    × ((x : Entry) → x.key ≢ empty_key → Holds entries x → found x.key ≡ x)
add_conn_entry-Inserts_example =
    add_conn_entry-Inserts 8 3 4 entries six entries-IsTable (omega arith) (λ p. ground arith) refl
      (omega arith) (omega arith)

del_conn_entry-Deletes_example :
    let tbl' = del_conn_entry 8 3 entries 5 in
    let found : ℕ → Entry = λ key. tbl' (find_conn_entry 8 3 tbl' key) in
    Deletes 8 3 1 entries tbl'
    × ((q : ℕ) → q ≢ 1 → (entries q).key ≢ empty_key → found (entries q).key ≡ entries q)
    × ((q : ℕ) → (tbl' q).key ≢ 5)
del_conn_entry-Deletes_example =
    del_conn_entry-Deletes 8 3 refl 1 4 entries entries-IsTable (λ e. absurd (omega arith))
      (omega arith) refl (omega arith)
