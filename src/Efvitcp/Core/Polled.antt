-- ===== src/Efvitcp/Core/Polled.antt =====
-- What the two polls of efvitcp/Core.h give back, and when they end.
use pollnet.Base.{
  ℕ, zero, suc, ◌+◌, ◌-◌, ◌≤◌, ◌≡◌, true, not, ◌&&◌, List, [], ◌∷◌, length, count, leb, ltb, ◌==◌,
  arith, refl, ap, ◌∙◌, Bool-cases, inl, inr,
}
use pollnet.Base.Buf.{Buf}
use pollnet.Efvitcp.Table.{conn_hash_key, find_conn_entry}
use pollnet.Efvitcp.Wheel.{Node, poll_time}
use pollnet.Efvitcp.Core.{Conf, Core, free_id, del_entry}
use pollnet.Efvitcp.Core.Replies.{ack_tw, send_frame}
use pollnet.Efvitcp.Core.Poll.{
  unlink, key_of, NetEvent, rx, rx_discard, tx, other, on_time_wait, on_rx, on_tx, on_net, poll_net,
  on_timer_node, tell_fired, poll_time_with,
}

-- What a change of the table leaves alone.
pub del_entry-others :
    (conf : Conf) (key : ℕ) (c : Core)
    → ((del_entry conf key c).recycled ≡ c.recycled) × ((del_entry conf key c).fired ≡ c.fired)
unfolding del_entry free_id
del_entry-others conf key c =
    let id = (c.conn_tbl (find_conn_entry conf.total c.tbl_mask c.conn_tbl key)).conn_id in
    elim (Bool-cases (ltb id conf.max_conn_cnt)) [
      | inl e ↦ rw e (refl, refl)
      | inr e ↦ rw e (refl, refl)
    ]

on_time_wait-recycled :
    (conf : Conf) (id : ℕ) (d : Buf) (c : Core) → (on_time_wait conf id d c).recycled ≡ c.recycled
unfolding on_time_wait unlink ack_tw send_frame
on_time_wait-recycled conf id d c = ground (arith, del_entry-others conf (key_of d) (unlink id c))

-- The buffers of the frames that are polled.
abbrev pub rx_ids : List NetEvent → List ℕ
rx_ids [] = []
rx_ids (rx id d ∷ es) = id ∷ rx_ids es
rx_ids (rx_discard id ∷ es) = id ∷ rx_ids es
rx_ids (tx ids ∷ es) = rx_ids es
rx_ids (other ∷ es) = rx_ids es

module _ (conf : Conf) {A : Type 0} (recv_handler : ℕ → ℕ → Buf → Core × A → Core × A)
    (tx_done : ℕ → A → A)
    (alone : (key i : ℕ) (d : Buf) (s : Core × A)
      → (recv_handler key i d s).0.recycled ≡ s.0.recycled) where
  on_rx-recycled :
      (d : Buf) (c : Core) (a : A)
      → (on_rx conf recv_handler tx_done d (c, a)).0.recycled ≡ c.recycled
  unfolding on_rx
  on_rx-recycled d c a =
      let key = key_of d in
      let i = find_conn_entry conf.total c.tbl_mask c.conn_tbl key in
      let e = c.conn_tbl i in
      elim (Bool-cases ((e.key == key) && leb conf.max_conn_cnt e.conn_id)) [
        | inl f ↦ rw f (on_time_wait-recycled conf e.conn_id d c)
        | inr f ↦ rw f (alone key i d (c, a))
      ]

  on_tx-recycled :
      (ids : List ℕ) (s : Core × A)
      → (on_tx conf recv_handler tx_done ids s).0.recycled ≡ s.0.recycled
  unfolding on_tx
  on_tx-recycled [] s = refl
  on_tx-recycled (id ∷ ids) (c, a) = elim (Bool-cases (id + 1 == conf.send_buf_cnt)) [
    | inl e ↦
        rw (on_tx, e) (on_tx-recycled ids (record c { rst = record c.rst { avail = true } }, a))
    | inr e ↦ rw (on_tx, e) (on_tx-recycled ids (c, tx_done id a))
  ]

  on_net-recycled :
      (x : ℕ) (e : NetEvent) (c : Core) (a : A)
      → count x (on_net conf recv_handler tx_done e (c, a)).0.recycled
        ≡ count x c.recycled + count x (rx_ids (e ∷ []))
  unfolding on_net
  on_net-recycled x (rx id d) c a = ground (arith, ap (count x) (on_rx-recycled d c a))
  on_net-recycled x (rx_discard id) c a = ground arith
  on_net-recycled x (tx ids) c a = ground (arith, ap (count x) (on_tx-recycled ids (c, a)))
  on_net-recycled x other c a = omega arith

  poll_net-counts :
      (x : ℕ) (es : List NetEvent) (s : Core × A)
      → count x (poll_net conf recv_handler tx_done es s).0.0.recycled
        ≡ count x s.0.recycled + count x (rx_ids es)
  unfolding poll_net
  poll_net-counts x [] s = omega arith
  poll_net-counts x (rx id d ∷ es) (c, a) =
      let s = on_net conf recv_handler tx_done (rx id d) (c, a) in
      omega (arith, poll_net-counts x es s, on_net-recycled x (rx id d) c a)
  poll_net-counts x (rx_discard id ∷ es) (c, a) =
      let s = on_net conf recv_handler tx_done (rx_discard id) (c, a) in
      omega (arith, poll_net-counts x es s, on_net-recycled x (rx_discard id) c a)
  poll_net-counts x (tx ids ∷ es) (c, a) =
      let s = on_net conf recv_handler tx_done (tx ids) (c, a) in
      omega (arith, poll_net-counts x es s, on_net-recycled x (tx ids) c a)
  poll_net-counts x (other ∷ es) (c, a) = omega (arith, poll_net-counts x es (c, a))

  poll_net-pushes :
      (es : List NetEvent) (s : Core × A)
      → (poll_net conf recv_handler tx_done es s).1 ≡ not (length (rx_ids es) == 0)
  unfolding poll_net
  poll_net-pushes [] s = refl
  poll_net-pushes (rx id d ∷ es) s = ground arith
  poll_net-pushes (rx_discard id ∷ es) s = ground arith
  poll_net-pushes (tx ids ∷ es) s = poll_net-pushes es (on_net conf recv_handler tx_done (tx ids) s)
  poll_net-pushes (other ∷ es) s = poll_net-pushes es s

  -- The receive handler leaves the buffers alone. Then a poll of the network gives the adapter each
  -- buffer back that it was polled with, as often as it came, discarded ones and those for
  -- connections in TIME_WAIT included, and no other; and it pushes them exactly if there is one.
  pub poll_net-recycles :
      (es : List NetEvent) (s : Core × A)
      → let (s', pushed) = poll_net conf recv_handler tx_done es s in
        ((x : ℕ) → count x s'.0.recycled ≡ count x s.0.recycled + count x (rx_ids es))
        × (pushed ≡ not (length (rx_ids es) == 0))
  poll_net-recycles es s = (λ x. poll_net-counts x es s, poll_net-pushes es s)

module _ (conf : Conf) {A : Type 0} (timer_handler : Node → Core × A → Core × A)
    (shorter : (n : Node) (s : Core × A)
      → length (timer_handler n s).0.fired ≤ length s.0.fired) where
  on_timer_node-shorter :
      (n : Node) (c : Core) (a : A)
      → length (on_timer_node conf timer_handler n (c, a)).0.fired ≤ length c.fired
  unfolding on_timer_node
  on_timer_node-shorter n c a =
      let tw = c.tws (n.conn_id - conf.max_conn_cnt) in
      elim (Bool-cases (leb conf.max_conn_cnt n.conn_id)) [
        | inl e ↦ rw e (
            omega
              (arith, ap length (del_entry-others conf (conn_hash_key tw.dst_ip tw.dst_port) c).1))
        | inr e ↦ rw e (shorter n (c, a))
      ]

  tell_fired-none :
      (fuel : ℕ) (c : Core) (a : A)
      → c.fired ≡ []
      → tell_fired conf timer_handler fuel (c, a) ≡ (c, a)
  unfolding tell_fired
  tell_fired-none zero c a e = refl
  tell_fired-none (suc fuel) c a e = simp e

  tell_fired-next :
      (fuel : ℕ) (c : Core) (a : A) (n : Node) (ns : List Node)
      → c.fired ≡ n ∷ ns
      → tell_fired conf timer_handler (suc fuel) (c, a)
        ≡ tell_fired conf timer_handler fuel
            (on_timer_node conf timer_handler n (record c { fired = ns }, a))
  unfolding tell_fired
  tell_fired-next fuel c a n ns e = simp e

  tell_fired-ends :
      (fuel : ℕ) (l : List Node) (c : Core) (a : A)
      → c.fired ≡ l
      → length l ≤ fuel
      → (tell_fired conf timer_handler fuel (c, a)).0.fired ≡ []
  tell_fired-ends fuel [] c a e h =
      ap (λ (s : Core × A). s.0.fired) (tell_fired-none fuel c a e) ∙ e
  tell_fired-ends (suc fuel) (n ∷ ns) c a e h =
      let c' : Core = record c { fired = ns } in
      let s = on_timer_node conf timer_handler n (c', a) in
      ap (λ (s : Core × A). s.0.fired) (tell_fired-next fuel c a n ns e)
      ∙ tell_fired-ends fuel s.0.fired s.0 s.1 refl (omega (arith, on_timer_node-shorter n c' a))
  tell_fired-ends zero (n ∷ ns) c a e h = absurd (omega arith)

  -- The timer handler may unlink timers that are still to be told, and adds none to them. Then a poll
  -- of the time ends, after as many rounds at most as timers went off, and has none left to tell.
  pub poll_time_with-ends :
      (ts : ℕ) (s : Core × A) → (poll_time_with conf timer_handler ts s).0.fired ≡ []
  unfolding poll_time_with
  poll_time_with-ends ts (c, a) =
      let (w, ns) = poll_time ts c.wheel in
      tell_fired-ends (length ns) ns (record c { wheel = w; fired = ns }) a refl (omega arith)
