-- ===== src/Efvitcp/Core/Poll.antt =====
-- `pollNet` and the end of `pollTime` of efvitcp/Core.h. What the core's user keeps, its connections,
-- is a parameter, and so are the functions that it hands over.
use pollnet.Base.{
  ℕ, zero, suc, ◌+◌, ◌-◌, Bool, true, false, not, ◌&&◌, ◌||◌, List, [], ◌∷◌, length, ◌==◌, leb,
  if◌then◌else◌,
}
use pollnet.Base.Buf.{Buf}
use pollnet.Wire.{le16, le32}
use pollnet.Efvitcp.Table.{conn_hash_key, find_conn_entry}
use pollnet.Efvitcp.Wheel.{Node, poll_time}
use pollnet.Efvitcp.Conn.Pack.{flag}
use pollnet.Efvitcp.Core.{Conf, Core, del_entry}
use pollnet.Efvitcp.Core.Replies.{seg_len, ack_tw}

-- `TimerNode::unlink`, of the one node with this identifier.
unfoldable pub without : ℕ → List Node → List Node
without id [] = []
without id (n ∷ ns) = let rest = without id ns in if n.conn_id == id then rest else n ∷ rest

unfoldable pub unlink : ℕ → Core → Core
unfolding without
unlink id c = record c {
  wheel = record c.wheel {
    short = λ i. without id (c.wheel.short i);
    long = λ i. without id (c.wheel.long i);
  };
  fired = without id c.fired;
}

-- The key of a frame's sender.
abbrev pub key_of : Buf → ℕ
key_of d = conn_hash_key (le32 d 26) (le16 d 34)

-- The events of `ef_eventq_poll`: a frame in a buffer, one that is discarded, frames sent.
pub data NetEvent : Type 0 where
  rx : ℕ → Buf → NetEvent
  rx_discard : ℕ → NetEvent
  tx : List ℕ → NetEvent
  other : NetEvent

module _ (conf : Conf) where
  -- A frame for the connection `id` in TIME_WAIT: its RST ends it, and what is not expected, or
  -- takes numbers, is acknowledged again.
  unfoldable pub on_time_wait : ℕ → Buf → Core → Core
  unfolding unlink del_entry ack_tw conn_hash_key
  on_time_wait id d c =
      let tw = c.tws (id - conf.max_conn_cnt) in
      let seq_expected = le32 d 38 == tw.ack_num in
      if flag 2 d
      then if seq_expected then del_entry conf (key_of d) (unlink id c) else c
      else if not seq_expected || not (seg_len d == 0)
      then ack_tw tw c
      else c

module _ (conf : Conf) {A : Type 0} (recv_handler : ℕ → ℕ → Buf → Core × A → Core × A)
    (tx_done : ℕ → A → A) where
  unfoldable pub on_rx : Buf → Core × A → Core × A
  unfolding on_time_wait find_conn_entry conn_hash_key
  on_rx d (c, a) =
      let key = key_of d in
      let i = find_conn_entry conf.total c.tbl_mask c.conn_tbl key in
      let e = c.conn_tbl i in
      if (e.key == key) && leb conf.max_conn_cnt e.conn_id
      then (on_time_wait conf e.conn_id d c, a)
      else recv_handler key i d (c, a)

  -- `ef_vi_receive_init`
  abbrev pub recycle : ℕ → Core × A → Core × A
  recycle id (c, a) = (record c { recycled = id ∷ c.recycled }, a)

  -- A buffer may be used again: the last one, or one of the connections'.
  unfoldable pub on_tx : List ℕ → Core × A → Core × A
  on_tx [] s = s
  on_tx (id ∷ ids) (c, a) = on_tx ids (
      if id + 1 == conf.send_buf_cnt
      then (record c { rst = record c.rst { avail = true } }, a)
      else (c, tx_done id a))

  unfoldable pub on_net : NetEvent → Core × A → Core × A
  unfolding on_rx on_tx
  on_net (rx id d) s = recycle id (on_rx d s)
  on_net (rx_discard id) s = recycle id s
  on_net (tx ids) s = on_tx ids s
  on_net other s = s

  abbrev pub is_received : NetEvent → Bool
  is_received (rx id d) = true
  is_received (rx_discard id) = true
  is_received (tx ids) = false
  is_received other = false

  -- `pollNet`, and whether it calls `ef_vi_receive_push`.
  unfoldable pub poll_net : List NetEvent → Core × A → (Core × A) × Bool
  unfolding on_net
  poll_net [] s = (s, false)
  poll_net (e ∷ es) s = let rest = poll_net es (on_net e s) in (rest.0, is_received e || rest.1)

module _ (conf : Conf) {A : Type 0} (timer_handler : Node → Core × A → Core × A) where
  -- A timer that went off: TIME_WAIT ends, or the connection is told.
  unfoldable pub on_timer_node : Node → Core × A → Core × A
  unfolding del_entry conn_hash_key
  on_timer_node n (c, a) =
      let tw = c.tws (n.conn_id - conf.max_conn_cnt) in
      if leb conf.max_conn_cnt n.conn_id
      then (del_entry conf (conn_hash_key tw.dst_ip tw.dst_port) c, a)
      else timer_handler n (c, a)

  -- The loop over those that went off, which the handler may unlink.
  unfoldable pub tell_fired : ℕ → Core × A → Core × A
  unfolding on_timer_node
  tell_fired zero s = s
  tell_fired (suc fuel) (c, a) = elim c.fired as (λ l. Core × A) [
    | [] ↦ (c, a)
    | n ∷ ns ↦ tell_fired fuel (on_timer_node n (record c { fired = ns }, a))
  ]

  -- `pollTime`
  unfoldable pub poll_time_with : ℕ → Core × A → Core × A
  unfolding poll_time tell_fired
  poll_time_with ts (c, a) =
      let (w, ns) = poll_time ts c.wheel in
      tell_fired (length ns) (record c { wheel = w; fired = ns }, a)
