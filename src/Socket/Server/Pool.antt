-- ===== src/Socket/Server/Pool.antt =====
-- The pool of `SocketTcpServer`: which connections are in use after a `poll`.
use pollnet.Base.{
  ℕ, zero, suc, ◌+◌, ◌-◌, ◌≤◌, ◌<◌, ◌≡◌, ◌∙◌, sym, inl, inr, true, false, Option, none, Bool-cases,
  Option-cases, arith, ltb,
}
use pollnet.Socket.Conn.{Conf, Conn, Handler, is_connected, open_conn, close, poll_conn}
use pollnet.Socket.Conn.Buffer.{IsHandler}
use pollnet.Socket.Server.{Server, Calls, swap, accept_conn, keep_conn, drop_conn, serve, poll}

-- `conns_` is a permutation of the pool, and those behind `conns_cnt_` are closed.
pub record IsPool (conf : Conf) (s : Server) : Type 0 where
  pub bound : s.conns_cnt ≤ conf.max_conns
  pub index : (j : ℕ) → j < conf.max_conns → s.conns j < conf.max_conns
  pub apart : (i j : ℕ) → i < conf.max_conns → j < conf.max_conns → s.conns i ≡ s.conns j → i ≡ j
  pub idle : (j : ℕ) → s.conns_cnt ≤ j → j < conf.max_conns → (s.conns_data (s.conns j)).fd ≡ none

abbrev pub exchange : ℕ → ℕ → ℕ → ℕ
exchange i j k = swap (λ n. n) i j k

pub swap_lem : (f : ℕ → ℕ) (i j k : ℕ) → swap f i j k ≡ f (exchange i j k)
swap_lem f i j k = ground arith

pub exchange-apart : (i j a b : ℕ) → exchange i j a ≡ exchange i j b → a ≡ b
exchange-apart i j a b e = ground arith

pub exchange-bound : (i j k n : ℕ) → i < n → j < n → k < n → exchange i j k < n
exchange-bound i j k n a b c = ground arith

open_conn-failed :
    (conf : Conf) (now fd : ℕ) (a b : Option ℕ) (c : Conn)
    → (open_conn conf now fd a b c).1 ≡ false
    → (open_conn conf now fd a b c).0.fd ≡ none
unfolding open_conn close
open_conn-failed conf now fd a b c e = ground arith

module _ (conf : Conf) (handler : Handler) (now : ℕ) (k : Calls) where
  abbrev pub polled_conn : ℕ → Server → Conn
  polled_conn i s = (poll_conn conf handler now (k.read (s.conns i)) (s.conns_data (s.conns i))).0

module _ (conf : Conf) (handler : Handler) (h : IsHandler handler) (now : ℕ) (k : Calls) where
  accept_conn-IsPool :
      (s : Server) → IsPool conf s → IsPool conf (accept_conn conf handler now k s).0
  unfolding accept_conn
  accept_conn-IsPool s p = elim (Bool-cases (ltb s.conns_cnt conf.max_conns)) [
    | inr e ↦ rw e p
    | inl e ↦ elim (Option-cases k.accept) [
      | inl g ↦ rw (e, g) p
      | inr (fd, g) ↦
          let c = s.conns_data (s.conns s.conns_cnt) in
          let o = open_conn conf now fd k.open_nonblock k.open_nodelay c in
          elim (Bool-cases o.1) [
            | inl d ↦
                rw (e, g, d)
                  record {
                    bound = ground (arith, p);
                    index = p.index;
                    apart = p.apart;
                    idle = λ j a l. ground (arith, p.idle j, p.apart j s.conns_cnt);
                  }
            | inr d ↦
                rw (e, g, d)
                  record {
                    bound = p.bound;
                    index = p.index;
                    apart = p.apart;
                    idle = λ j a l. ground (
                      arith,
                      p.idle j,
                      open_conn-failed conf now fd k.open_nonblock k.open_nodelay c d,
                    );
                  }
          ]
    ]
  ]

  drop_conn-IsPool :
      (i : ℕ) (c : Conn) (s : Server)
      → i < s.conns_cnt
      → c.fd ≡ none
      → IsPool conf s
      → IsPool conf (drop_conn conf handler now k i c s)
  unfolding drop_conn
  drop_conn-IsPool i c s l e p = record {
    bound = ground (arith, p);
    index = λ j m. ground (
      arith,
      p,
      swap_lem s.conns i (s.conns_cnt - 1) j,
      p.index (exchange i (s.conns_cnt - 1) j),
      exchange-bound i (s.conns_cnt - 1) j conf.max_conns,
    );
    apart = λ a b la lb e. exchange-apart i (s.conns_cnt - 1) a b (
        p.apart (exchange i (s.conns_cnt - 1) a) (exchange i (s.conns_cnt - 1) b)
          (exchange-bound i (s.conns_cnt - 1) a conf.max_conns (ground (arith, p))
            (ground (arith, p)) la)
          (exchange-bound i (s.conns_cnt - 1) b conf.max_conns (ground (arith, p))
            (ground (arith, p)) lb)
          (sym (swap_lem s.conns i (s.conns_cnt - 1) a)
            ∙ e
            ∙ swap_lem s.conns i (s.conns_cnt - 1) b));
    idle = λ j a m. ground (arith, p, p.idle j, p.apart j i, h.on_disconnect c);
  }

  keep_conn-IsPool :
      (i : ℕ) (c : Conn) (s : Server)
      → i < s.conns_cnt
      → IsPool conf s
      → IsPool conf (keep_conn conf handler now k i c s)
  unfolding keep_conn
  keep_conn-IsPool i c s l p = record {
    bound = p.bound;
    index = p.index;
    apart = p.apart;
    idle = λ j a m. ground (arith, p, p.idle j, p.apart j i);
  }

  serve-IsPool :
      (fuel i : ℕ) (s : Server) → IsPool conf s → IsPool conf (serve conf handler now k fuel i s).0
  unfolding serve is_connected
  serve-IsPool zero i s p = p
  serve-IsPool (suc fuel) i s p = elim (Bool-cases (ltb i s.conns_cnt)) [
    | inr e ↦ rw (serve, e) p
    | inl e ↦ elim (Option-cases (polled_conn conf handler now k i s).fd) [
      | inr (fd, g) ↦
          rw (serve, e, g)
            (serve-IsPool fuel (i + 1)
              (keep_conn conf handler now k i (polled_conn conf handler now k i s) s)
              (keep_conn-IsPool i (polled_conn conf handler now k i s) s (ground arith) p))
      | inl g ↦
          rw (serve, e, g)
            (serve-IsPool fuel i
              (drop_conn conf handler now k i (polled_conn conf handler now k i s) s)
              (drop_conn-IsPool i (polled_conn conf handler now k i s) s (ground arith) g p))
    ]
  ]

  poll-IsPool : (s : Server) → IsPool conf s → IsPool conf (poll conf handler now k s).0
  unfolding poll
  poll-IsPool s p =
      let s1 = (accept_conn conf handler now k s).0 in
      serve-IsPool s1.conns_cnt 0 s1 (accept_conn-IsPool s p)

  -- The connections of index under `i` are open.
  abbrev AllOpen : ℕ → Server → Type 0
  AllOpen i s = (j : ℕ) → j < i → is_connected (s.conns_data (s.conns j)) ≡ true

  serve-open :
      (fuel i : ℕ) (s : Server)
      → IsPool conf s
      → s.conns_cnt ≤ fuel + i
      → i ≤ s.conns_cnt
      → AllOpen i s
      → let s' = (serve conf handler now k fuel i s).0 in AllOpen s'.conns_cnt s'
  unfolding serve is_connected keep_conn drop_conn
  serve-open zero i s p f l a = λ j m. a j (ground arith)
  serve-open (suc fuel) i s p f l a = elim (Bool-cases (ltb i s.conns_cnt)) [
    | inr e ↦ rw (serve, e) (λ j m. a j (ground arith))
    | inl e ↦ elim (Option-cases (polled_conn conf handler now k i s).fd) [
      | inr (fd, g) ↦
          rw (serve, e, g)
            (serve-open fuel (i + 1)
              (keep_conn conf handler now k i (polled_conn conf handler now k i s) s)
              (keep_conn-IsPool i (polled_conn conf handler now k i s) s (ground arith) p)
              (omega arith) (ground arith) (λ j m. ground (arith, p, a j, p.apart j i)))
      | inl g ↦
          rw (serve, e, g)
            (serve-open fuel i
              (drop_conn conf handler now k i (polled_conn conf handler now k i s) s)
              (drop_conn-IsPool i (polled_conn conf handler now k i s) s (ground arith) g p)
              (ground arith) (ground arith) (λ j m. ground (arith, p, a j, p.apart j i)))
    ]
  ]

  poll-AllOpen :
      (s : Server)
      → IsPool conf s
      → let s' = (poll conf handler now k s).0 in AllOpen s'.conns_cnt s'
  unfolding poll
  poll-AllOpen s p =
      let s1 = (accept_conn conf handler now k s).0 in
      serve-open s1.conns_cnt 0 s1 (accept_conn-IsPool s p) (omega arith) (omega arith)
        (λ j m. ground arith)

  -- The pool stays a permutation with at most all of its connections in use and the closed ones behind
  -- them, and the rounds that `poll` gives its loop are enough: when it ends, every connection in use
  -- is open.
  pub poll-open :
      (s : Server)
      → IsPool conf s
      → let s' = (poll conf handler now k s).0 in
        IsPool conf s'
        × ((j : ℕ) → j < s'.conns_cnt → is_connected (s'.conns_data (s'.conns j)) ≡ true)
  poll-open s p = (poll-IsPool s p, poll-AllOpen s p)
