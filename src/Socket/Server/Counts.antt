-- ===== src/Socket/Server/Counts.antt =====
-- Counts of a connection among those in use, and of the reports about it in a log.
use pollnet.Base.{
  count, one, ℕ, zero, suc, ◌+◌, ◌≤◌, ◌<◌, ◌≡◌, refl, ap, List, [], ◌∷◌, ◌++◌, map, arith,
}
use pollnet.Socket.Conn.{
  Conf, Conn, Handler, Event, connected, connect_failed, send_timeout, recv_timeout, received,
  disconnected, read, send_timer, recv_timer, poll_conn,
}
use pollnet.Socket.Os.{ReadResult, got, eof, would_block, read_failed}
use pollnet.Socket.Server.{Server, Log, swap, each_conn}

-- How often the log reports a connection as disconnected, or as connected.
abbrev pub losses : ℕ → Log → ℕ
losses x [] = 0
losses x ((id, connected) ∷ log) = losses x log
losses x ((id, connect_failed) ∷ log) = losses x log
losses x ((id, send_timeout) ∷ log) = losses x log
losses x ((id, recv_timeout) ∷ log) = losses x log
losses x ((id, received xs) ∷ log) = losses x log
losses x ((id, disconnected) ∷ log) = one x id + losses x log

abbrev pub gains : ℕ → Log → ℕ
gains x [] = 0
gains x ((id, connected) ∷ log) = one x id + gains x log
gains x ((id, connect_failed) ∷ log) = gains x log
gains x ((id, send_timeout) ∷ log) = gains x log
gains x ((id, recv_timeout) ∷ log) = gains x log
gains x ((id, received xs) ∷ log) = gains x log
gains x ((id, disconnected) ∷ log) = gains x log

-- How often `id` stands among `n` connections of `conns_` from index `i` on.
abbrev pub among : ℕ → (ℕ → ℕ) → ℕ → ℕ → ℕ
among x conns zero i = 0
among x conns (suc n) i = one x (conns i) + among x conns n (i + 1)

pub among-snoc :
    (x : ℕ) (f : ℕ → ℕ) (n i : ℕ) → among x f (n + 1) i ≡ among x f n i + one x (f (i + n))
among-snoc x f zero i = ground arith
among-snoc x f (suc n) i = ground (arith, among-snoc x f n (i + 1))

among-ext :
    (x : ℕ) (f g : ℕ → ℕ) (n i : ℕ)
    → ((k : ℕ) → i ≤ k → k < i + n → f k ≡ g k)
    → among x f n i ≡ among x g n i
among-ext x f g zero i e = refl
among-ext x f g (suc n) i e =
    ground (arith, e i, among-ext x f g n (i + 1) (λ k a b. e k (omega arith) (omega arith)))

-- The last of them takes the place of the first, which falls out.
pub among-swap :
    (x : ℕ) (f : ℕ → ℕ) (n i : ℕ)
    → among x f (suc n) i ≡ one x (f i) + among x (swap f i (i + n)) n i
among-swap x f zero i = refl
among-swap x f (suc n) i = ground (
  arith,
  among-snoc x f n (i + 1),
  among-ext x f (swap f i (i + suc n)) n (i + 1) (λ k a b. ground arith),
)

pub among_lem : (x n i : ℕ) (s : Server) → count x (each_conn n i s) ≡ among x s.conns n i
unfolding each_conn
among_lem x zero i s = refl
among_lem x (suc n) i s = ap (◌+◌ (one x (s.conns i))) (among_lem x n (i + 1) s)

pub losses-append : (x : ℕ) (a b : Log) → losses x (a ++ b) ≡ losses x a + losses x b
losses-append x [] b = omega arith
losses-append x ((id, connected) ∷ a) b = losses-append x a b
losses-append x ((id, connect_failed) ∷ a) b = losses-append x a b
losses-append x ((id, send_timeout) ∷ a) b = losses-append x a b
losses-append x ((id, recv_timeout) ∷ a) b = losses-append x a b
losses-append x ((id, received xs) ∷ a) b = losses-append x a b
losses-append x ((id, disconnected) ∷ a) b = omega (arith, losses-append x a b)

pub gains-append : (x : ℕ) (a b : Log) → gains x (a ++ b) ≡ gains x a + gains x b
gains-append x [] b = omega arith
gains-append x ((id, connected) ∷ a) b = omega (arith, gains-append x a b)
gains-append x ((id, connect_failed) ∷ a) b = gains-append x a b
gains-append x ((id, send_timeout) ∷ a) b = gains-append x a b
gains-append x ((id, recv_timeout) ∷ a) b = gains-append x a b
gains-append x ((id, received xs) ∷ a) b = gains-append x a b
gains-append x ((id, disconnected) ∷ a) b = gains-append x a b

-- What one connection's events are logged as.
abbrev pub logged : ℕ → List Event → Log
logged id es = map (λ (e : Event). (id, e)) es

logged-append : (id : ℕ) (a b : List Event) → logged id (a ++ b) ≡ logged id a ++ logged id b
logged-append id [] b = refl
logged-append id (e ∷ a) b = ap (◌∷◌ (id, e)) (logged-append id a b)

module _ (conf : Conf) (handler : Handler) (now : ℕ) where
  -- `pollConn` reports neither.
  pub poll_conn-quiet :
      (x id : ℕ) (r : ReadResult) (c : Conn)
      → let log = logged id (poll_conn conf handler now r c).1 in
        (losses x log ≡ 0) × (gains x log ≡ 0)
  unfolding poll_conn read send_timer recv_timer
  poll_conn-quiet x id (got xs) c = ground arith
  poll_conn-quiet x id eof c = ground arith
  poll_conn-quiet x id would_block c = ground arith
  poll_conn-quiet x id (read_failed e) c = ground arith
