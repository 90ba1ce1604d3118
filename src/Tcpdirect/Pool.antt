-- ===== src/Tcpdirect/Pool.antt =====
-- The pool of `TcpdirectTcpServer` of Tcpdirect.h: which connections are in use after a `poll`.
use pollnet.Base.{
  ℕ, zero, suc, ◌+◌, ◌-◌, ◌≤◌, ◌<◌, ◌≡◌, ◌∙◌, sym, inl, inr, true, Bool-cases, Option-cases, arith,
  ltb,
}
use pollnet.Socket.Conn.{Conf}
use pollnet.Socket.Server.Pool.{exchange, swap_lem, exchange-apart, exchange-bound}
use pollnet.Tcpdirect.Conn.{Conn, Handler, is_connected, poll_conn}
use pollnet.Tcpdirect.Server.{
  Server, Calls, take_conn, accept_conn, keep_conn, drop_conn, serve, poll,
}

-- `conns_` is a permutation of the pool.
pub record IsPool (conf : Conf) (s : Server) : Type 0 where
  pub bound : s.conns_cnt ≤ conf.max_conns
  pub index : (j : ℕ) → j < conf.max_conns → s.conns j < conf.max_conns
  pub apart : (i j : ℕ) → i < conf.max_conns → j < conf.max_conns → s.conns i ≡ s.conns j → i ≡ j

module _ (conf : Conf) (handler : Handler) (now : ℕ) (k : Calls) where
  abbrev polled_conn : ℕ → Server → Conn
  polled_conn i s = (poll_conn conf handler now (k.recv (s.conns i)) (s.conns_data (s.conns i))).0

  accept_conn-IsPool :
      (s : Server) → IsPool conf s → IsPool conf (accept_conn conf handler now k s).0
  unfolding accept_conn take_conn
  accept_conn-IsPool s p = elim (Bool-cases (ltb s.conns_cnt conf.max_conns)) [
    | inr e ↦ rw e p
    | inl e ↦ elim (Option-cases k.accept) [
      | inl g ↦ rw (e, g) p
      | inr (z, g) ↦
          rw (e, g) (record { bound = ground (arith, p); index = p.index; apart = p.apart })
    ]
  ]

  drop_conn-IsPool :
      (i : ℕ) (c : Conn) (s : Server)
      → i < s.conns_cnt
      → IsPool conf s
      → IsPool conf (drop_conn conf handler now k i c s)
  unfolding drop_conn
  drop_conn-IsPool i c s l p =
      let last = s.conns_cnt - 1 in
      let n = conf.max_conns in
      let within : (a : ℕ) → a < n → exchange i last a < n =
        λ a m. exchange-bound i last a n (omega (arith, p)) (omega (arith, p)) m in
      record {
        bound = omega (arith, p);
        index = λ j m.
            ground (arith, swap_lem s.conns i last j, p.index (exchange i last j), within j m);
        apart = λ a b m m' e. exchange-apart i last a b (
            p.apart (exchange i last a) (exchange i last b) (within a m) (within b m')
              (sym (swap_lem s.conns i last a) ∙ e ∙ swap_lem s.conns i last b));
      }

  -- The connections of index under `i` are connected.
  abbrev AllUp : ℕ → Server → Type 0
  AllUp i s = (j : ℕ) → j < i → is_connected (k.up (s.conns j)) (s.conns_data (s.conns j)) ≡ true

  serve-AllUp :
      (fuel i : ℕ) (s : Server)
      → IsPool conf s
      → s.conns_cnt ≤ fuel + i
      → i ≤ s.conns_cnt
      → AllUp i s
      → let s' = (serve conf handler now k fuel i s).0 in IsPool conf s' × AllUp s'.conns_cnt s'
  unfolding serve keep_conn drop_conn
  serve-AllUp zero i s p f l a = (p, λ j m. a j (omega arith))
  serve-AllUp (suc fuel) i s p f l a =
      let c = polled_conn i s in
      elim (Bool-cases (ltb i s.conns_cnt)) [
        | inr e ↦ rw (serve, e) (p, λ j m. a j (ground arith))
        | inl e ↦ elim (Bool-cases (is_connected (k.up (s.conns i)) c)) [
          | inl g ↦
              rw (serve, e, g)
                (serve-AllUp fuel (i + 1) (keep_conn conf handler now k i c s)
                  (record { bound = p.bound; index = p.index; apart = p.apart }) (omega arith)
                  (ground arith) (λ j m. ground (arith, p, a j, p.apart j i)))
          | inr g ↦
              rw (serve, e, g)
                (serve-AllUp fuel i (drop_conn conf handler now k i c s)
                  (drop_conn-IsPool i c s (ground arith) p) (ground arith) (ground arith)
                  (λ j m. ground (arith, p, a j, p.apart j i)))
        ]
      ]

  -- The table of connections stays a permutation of the pool with at most all of them in use, and the
  -- rounds that `poll` gives its loop are enough: when it ends, every connection in use has a zocket
  -- that is established.
  pub poll-AllUp :
      (s : Server)
      → IsPool conf s
      → let s' = (poll conf handler now k s).0 in
        IsPool conf s'
        × ((j : ℕ)
            → j < s'.conns_cnt
            → is_connected (k.up (s'.conns j)) (s'.conns_data (s'.conns j)) ≡ true)
  unfolding poll
  poll-AllUp s p =
      let s1 = (accept_conn conf handler now k s).0 in
      serve-AllUp s1.conns_cnt 0 s1 (accept_conn-IsPool s p) (omega arith) (omega arith)
        (λ j m. ground arith)
