-- ===== src/Efvitcp/Core/Tests.antt =====
-- The core of efvitcp/Core.h at concrete values, and the theorems there.
use pollnet.Base.{
  ℕ, ◌+◌, ◌-◌, ◌≡◌, ◌≢◌, ◌==◌, Bool-cases, inl, inr, refl, true, false, List, [], ◌∷◌, arith,
}
use pollnet.Base.Buf.{of_list, memcpy}
use pollnet.Efvitcp.Conn.Setup.{stamp_header}
use pollnet.Wire.{swap32, IsBytes, all_bytes-IsBytes}
use pollnet.Efvitcp.Table.{empty_key, find_conn_entry, conn_hash_key}
use pollnet.Efvitcp.Wheel.{Node}
use pollnet.Efvitcp.Conn.{SendBuf}
use pollnet.Efvitcp.Core.{Core, init_tables, enter_time_wait, del_entry, add_entry}
use pollnet.Efvitcp.Core.Replies.{init_rst, rsp_rst, ack_tw}
use pollnet.Efvitcp.Core.Checked.{IsReady, IsWaiting, IsSummed, stamps_of}
use pollnet.Efvitcp.Core.Answers.{IsRst, rsp_rst-IsRst, ack_tw-IsSummed}
use pollnet.Efvitcp.Core.Poll.{poll_time_with, on_timer_node}
use pollnet.Efvitcp.Core.Ids.{IsIds}
use pollnet.Efvitcp.Core.Open.{open_entry}
use pollnet.Efvitcp.Core.Steps.{Step, opens, waits, ends, here, next, Reach-IsIds}
use pollnet.Efvitcp.Core.Again.{IsTakenOut, add_entry-on_timer_node}
use pollnet.Efvitcp.Core.Polled.{poll_time_with-ends}
use pollnet.Efvitcp.Core.Examples.{
  core_conf, waiting, start, ready, peer, one_open, peer_buf, one_waits, one_ended, fired_node,
}

opens_once : Step core_conf (init_tables core_conf start) one_open
unfolding init_tables
opens_once =
    opens (init_tables core_conf start) peer 81 (omega arith) (omega arith) (omega arith)
      (λ p e. absurd (omega (arith, e))) refl (omega arith) (omega arith)

waits_once : Step core_conf one_open one_waits
unfolding init_tables open_entry
waits_once =
    waits one_open 80 81 peer_buf true 7 (omega arith) (λ e. absurd (omega (arith, e)))
      (omega arith) (omega arith) refl (omega arith)

ends_once : Step core_conf one_waits one_ended
unfolding init_tables open_entry enter_time_wait
ends_once =
    ends one_waits 80 81 (omega arith) (λ e. absurd (omega (arith, e))) (omega arith) refl
      (omega arith)

Reach-IsIds_example : IsIds core_conf one_ended
Reach-IsIds_example =
    Reach-IsIds core_conf start (next (next (next here opens_once) waits_once) ends_once)

-- All identifiers are free again, and the table is empty.
one_ended_counts :
    (one_ended.conn_cnt ≡ 0) × (one_ended.tw_cnt ≡ 0) × ((one_ended.conn_tbl 80).key ≡ empty_key)
unfolding init_tables open_entry enter_time_wait del_entry
one_ended_counts = (refl, refl, refl)

one_waits-IsIds : IsIds core_conf one_waits
one_waits-IsIds = Reach-IsIds core_conf start (next (next here opens_once) waits_once)

-- The peer is connected to again before TIME_WAIT ends.
one_waits-others :
    (q : ℕ) → (one_waits.conn_tbl q).key ≢ empty_key → (one_waits.conn_tbl q).conn_id ≢ 0
unfolding init_tables open_entry enter_time_wait
one_waits-others q m = elim (Bool-cases (q == 80)) [ inl e ↦ ground arith | inr e ↦ ground arith ]

add_entry-on_timer_node_example :
    let key = (one_waits.conn_tbl 80).key in
    let i = find_conn_entry 132 one_waits.tbl_mask one_waits.conn_tbl key in
    let c1 = add_entry core_conf i key 0 (record one_waits { conn_cnt = one_waits.conn_cnt + 1 }) in
    let c2 = (on_timer_node core_conf {A = List Node} (λ n s. s) (fired_node 2) (c1, [])).0 in
    IsTakenOut core_conf key 0 one_waits c1 c2
unfolding init_tables open_entry enter_time_wait conn_hash_key
add_entry-on_timer_node_example =
    add_entry-on_timer_node core_conf (λ n s. s) [] (fired_node 2) 80 0 one_waits
      one_waits-IsIds.table (λ e. absurd (omega (arith, e))) one_waits-others (omega arith)
      (omega arith) (omega arith) refl

-- A frame to a port where nobody listens: a SYN with an option of four bytes.
abbrev stranger : List ℕ
stranger =
    0 ∷ 1 ∷ 2 ∷ 3 ∷ 4 ∷ 5 ∷ 6 ∷ 7 ∷ 8 ∷ 9 ∷ 10 ∷ 11 ∷ 8 ∷ 0 ∷ 0x45 ∷ 0 ∷ 0 ∷ 44 ∷ 0 ∷ 0 ∷ 0x40 ∷ 0
    ∷ 64 ∷ 6 ∷ 0 ∷ 0 ∷ 10 ∷ 0 ∷ 0 ∷ 2 ∷ 10 ∷ 0 ∷ 0 ∷ 1 ∷ 0 ∷ 80 ∷ 0x1f ∷ 0x90 ∷ 1 ∷ 2 ∷ 3 ∷ 4 ∷ 0
    ∷ 0 ∷ 0 ∷ 0 ∷ 0x60 ∷ 2 ∷ []

ready_area : IsBytes ready.rst.area
unfolding init_rst init_tables memcpy
ready_area i = let b = all_bytes-IsBytes stamp_header refl (i - 0) in ground (arith, b)

init_rst-IsReady : IsReady ready.rst_ipsum ready.rst_tcpsum ready.rst
unfolding init_rst init_tables
init_rst-IsReady = record {
  src_ip = omega arith;
  dst_ip = omega arith;
  src_port = omega arith;
  dst_port = omega arith;
  seq_num = omega arith;
  ack_num = omega arith;
  offset_flags = omega arith;
  window_size = refl;
  area = ready_area;
  ipsum_of = refl;
  tcpsum_of = refl;
}

rsp_rst-IsRst_example :
    let c' = rsp_rst (of_list stranger) ready in
    (b : SendBuf) × (c'.sent ≡ b ∷ ready.sent)
    × IsRst (of_list stranger) b
    × IsSummed false b
    × (c'.rst ≡ record b { avail = false })
    × IsReady c'.rst_ipsum c'.rst_tcpsum c'.rst
unfolding init_rst init_tables
rsp_rst-IsRst_example =
    rsp_rst-IsRst (of_list stranger) ready (all_bytes-IsBytes stranger refl) init_rst-IsReady refl
      refl

waiting-IsWaiting : IsWaiting waiting
waiting-IsWaiting = record {
  dst_ip = omega arith;
  src_port = omega arith;
  dst_port = omega arith;
  seq_num = omega arith;
  ack_num = omega arith;
  tsecr = omega arith;
}

ack_tw-IsSummed_example :
    let c' = ack_tw waiting ready in
    (b : SendBuf) × (c'.sent ≡ b ∷ ready.sent)
    × IsSummed true b
    × ((b.src_port ≡ waiting.src_port)
        × (b.dst_port ≡ waiting.dst_port)
        × (b.seq_num ≡ waiting.seq_num)
        × (b.ack_num ≡ waiting.ack_num))
    × (true ≡ true → stamps_of b ≡ (swap32 ready.wheel.now_ts, swap32 waiting.tsecr))
    × IsReady c'.rst_ipsum c'.rst_tcpsum c'.rst
unfolding init_rst init_tables
ack_tw-IsSummed_example =
    ack_tw-IsSummed waiting ready waiting-IsWaiting (omega arith) init_rst-IsReady refl

-- The timer of TIME_WAIT, a minute later.
abbrev notes : Node → Core × List ℕ → Core × List ℕ
notes n s = (s.0, n.conn_id ∷ s.1)

poll_time_with-ends_example : (poll_time_with core_conf notes 61000 (one_waits, [])).0.fired ≡ []
poll_time_with-ends_example =
    poll_time_with-ends core_conf notes (λ n s. omega arith) 61000 (one_waits, [])
