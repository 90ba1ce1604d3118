-- ===== src/Socket/Server/Census.antt =====
-- The connections in use before and after a `poll` of `SocketTcpServer`, against what it reports.
use pollnet.Base.{
  count, ℕ, zero, suc, ◌+◌, ◌-◌, ◌≤◌, ◌<◌, ◌≡◌, refl, ap, inl, inr, ◌∷◌, ◌++◌, Bool-cases,
  Option-cases, arith, ltb,
}
use pollnet.Socket.Conn.{Conf, Conn, Handler, disconnected, is_connected}
use pollnet.Socket.Server.{
  Server, Calls, Log, swap, accept_conn, keep_conn, drop_conn, serve, poll, foreach_conn,
}
use pollnet.Socket.Server.Pool.{polled_conn}
use pollnet.Socket.Server.Counts.{
  losses, gains, among, among-snoc, among-swap, among_lem, losses-append, gains-append,
  poll_conn-quiet,
}

-- From a state to a later one, with what the log reports in between: the connections of `conns_`
-- from `i` on are those that are left and the losses, and those under `i` stay where they are.
pub record Serves (x i : ℕ) (s s' : Server) (log : Log) : Type 0 where
  pub census :
      among x s.conns (s.conns_cnt - i) i ≡ among x s'.conns (s'.conns_cnt - i) i + losses x log
  pub nothing_new : gains x log ≡ 0
  pub below : (j : ℕ) → j < i → s'.conns j ≡ s.conns j
  pub order : i ≤ s'.conns_cnt

module _ (conf : Conf) (handler : Handler) (now : ℕ) (k : Calls) (x : ℕ) where
  keep-Serves :
      (i : ℕ) (s s' : Server) (c : Conn) (here log : Log)
      → i < s.conns_cnt
      → (losses x here ≡ 0) × (gains x here ≡ 0)
      → Serves x (i + 1) (keep_conn conf handler now k i c s) s' log
      → Serves x i s s' (here ++ log)
  unfolding keep_conn
  keep-Serves i s s' c here log l q v = record {
    census = ground (
      arith,
      v,
      q,
      v.below i (omega arith),
      losses-append x here log,
      ap (λ n. among x s.conns n i) split,
      ap (λ n. among x s'.conns n i) later,
    );
    nothing_new = ground (arith, v, q, gains-append x here log);
    below = λ j m. v.below j (omega arith);
    order = ground (arith, v);
  }
    where
      split : s.conns_cnt - i ≡ suc (s.conns_cnt - (i + 1))
      split = ground arith

      later : s'.conns_cnt - i ≡ suc (s'.conns_cnt - (i + 1))
      later = ground (arith, v.order)

  drop-Serves :
      (i : ℕ) (s s' : Server) (c : Conn) (here log : Log)
      → i < s.conns_cnt
      → (losses x here ≡ 0) × (gains x here ≡ 0)
      → Serves x i (drop_conn conf handler now k i c s) s' log
      → Serves x i s s' (here ++ (s.conns i, disconnected) ∷ log)
  unfolding drop_conn
  drop-Serves i s s' c here log l q v = record {
    census = ground (
      arith,
      v,
      q,
      losses-append x here ((s.conns i, disconnected) ∷ log),
      ap (λ n. among x s.conns n i) split,
      among-swap x s.conns (s.conns_cnt - 1 - i) i,
      last,
    );
    nothing_new = ground (arith, v, q, gains-append x here ((s.conns i, disconnected) ∷ log));
    below = λ j m. ground (arith, v.below j);
    order = v.order;
  }
    where
      split : s.conns_cnt - i ≡ suc (s.conns_cnt - 1 - i)
      split = ground arith

      last :
          among x (swap s.conns i (i + (s.conns_cnt - 1 - i))) (s.conns_cnt - 1 - i) i
          ≡ among x (swap s.conns i (s.conns_cnt - 1)) (s.conns_cnt - 1 - i) i
      last = ap (λ n. among x (swap s.conns i n) (s.conns_cnt - 1 - i) i) (ground arith)

  serve-Serves :
      (fuel i : ℕ) (s : Server)
      → s.conns_cnt ≤ fuel + i
      → i ≤ s.conns_cnt
      → let (s', log) = serve conf handler now k fuel i s in Serves x i s s' log
  unfolding serve is_connected keep_conn drop_conn
  serve-Serves zero i s f l = record {
    census = ground arith;
    nothing_new = refl;
    below = λ j m. refl;
    order = l;
  }
  serve-Serves (suc fuel) i s f l = elim (Bool-cases (ltb i s.conns_cnt)) [
    | inr e ↦
        rw (serve, e)
          (record { census = ground arith; nothing_new = refl; below = λ j m. refl; order = l })
    | inl e ↦ elim (Option-cases (polled_conn conf handler now k i s).fd) [
      | inr (fd, g) ↦
          rw (serve, e, g)
            (keep-Serves i s _ (polled_conn conf handler now k i s) _ _ (ground arith)
              (poll_conn-quiet conf handler now x (s.conns i) (k.read (s.conns i))
                (s.conns_data (s.conns i)))
              (serve-Serves fuel (i + 1)
                (keep_conn conf handler now k i (polled_conn conf handler now k i s) s)
                (omega arith) (ground arith)))
      | inl g ↦
          rw (serve, e, g)
            (drop-Serves i s _ (polled_conn conf handler now k i s) _ _ (ground arith)
              (poll_conn-quiet conf handler now x (s.conns i) (k.read (s.conns i))
                (s.conns_data (s.conns i)))
              (serve-Serves fuel i
                (drop_conn conf handler now k i (polled_conn conf handler now k i s) s)
                (ground arith) (ground arith)))
    ]
  ]

  accept-census :
      (s : Server)
      → let (s', log) = accept_conn conf handler now k s in
        (among x s'.conns s'.conns_cnt 0 ≡ among x s.conns s.conns_cnt 0 + gains x log)
        × (losses x log ≡ 0)
  unfolding accept_conn
  accept-census s = ground (arith, among-snoc x s.conns s.conns_cnt 0)

  -- For each connection of the pool: its place among those in use before `poll`, and a report of
  -- `onTcpConnected`, make up its place among those in use after `poll` and a report of
  -- `onTcpDisconnect`.
  pub poll-census :
      (s : Server)
      → let (s', log) = poll conf handler now k s in
        count x (foreach_conn s) + gains x log ≡ count x (foreach_conn s') + losses x log
  unfolding poll foreach_conn
  poll-census s =
      let (s1, log1) = accept_conn conf handler now k s in
      let (s2, log2) = serve conf handler now k s1.conns_cnt 0 s1 in
      let v = serve-Serves s1.conns_cnt 0 s1 (omega arith) (omega arith) in
      ground (
        arith,
        v,
        accept-census s,
        losses-append x log1 log2,
        gains-append x log1 log2,
        among_lem x s.conns_cnt 0 s,
        among_lem x s2.conns_cnt 0 s2,
      )
