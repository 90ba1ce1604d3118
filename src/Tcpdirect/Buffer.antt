-- ===== src/Tcpdirect/Buffer.antt =====
-- The receive buffer of `TcpdirectTcpConnection` of Tcpdirect.h: its bounds, and what it passes on.
use pollnet.Base.{
  ℕ, ◌+◌, ◌-◌, ◌/◌, ◌≤◌, ◌≡◌, ap, sym, ◌∙◌, refl, List, [], ◌∷◌, ◌++◌, none, length, drop, arith,
  Bool-cases, Option-cases, inl, inr, ◌==◌, leb, if◌then◌else◌, length-drop,
}
use pollnet.Base.Buf.{
  memcpy, shift, bytes, of_list, length-bytes, bytes-ext, bytes-of_list, memcpy-in,
}
use pollnet.Socket.Conn as Socket
use pollnet.Socket.Conn.{Conf}
use pollnet.Socket.Conn.Buffer as SocketBuffer
use pollnet.Socket.Conn.Buffer.{arrived-waiting, left-waiting}
use pollnet.Tcpdirect.Conn.{Conn, Handler, append, waiting, keep, settle, recv_done, receive}

-- What a callback may do to the connection: it cannot reach the buffer.
pub record Keeps (c c' : Conn) : Type 0 where
  pub head : c'.head ≡ c.head
  pub tail : c'.tail ≡ c.tail
  pub recvbuf : c'.recvbuf ≡ c.recvbuf

-- The handler leaves at most what it is passed, and keeps the buffer.
pub record IsHandler (h : Handler) : Type 0 where
  pub remains : (c : Conn) (xs : List ℕ) → (h.on_data c xs).1 ≤ length xs
  pub on_data : (c : Conn) (xs : List ℕ) → Keeps c (h.on_data c xs).0

-- The buffer's bounds; when it is empty it begins at 0.
pub record IsValid (conf : Conf) (c : Conn) : Type 0 where
  pub order : c.head ≤ c.tail
  pub inside : c.tail ≤ conf.recv_buf_size
  pub begins : c.tail ≡ 0 → c.head ≡ 0

-- The same buffer in a connection of Socket.h that is closed.
abbrev as_socket : Conn → Socket.Conn
as_socket c = record {
  fd = none;
  send_ts = 0;
  expire_ts = 0;
  head = c.head;
  tail = c.tail;
  recvbuf = c.recvbuf;
  last_error = c.last_error;
  closed = [];
  sent = [];
}

settle-same :
    (conf : Conf) (n : ℕ) (c : Conn)
    → waiting (settle conf n c) ≡ SocketBuffer.waiting (Socket.settle conf n (as_socket c))
unfolding settle Socket.settle Socket.close
settle-same conf n c = elim (Bool-cases (n == 0)) [
  | inl e ↦ rw e refl
  | inr e ↦ elim (Bool-cases (leb (conf.recv_buf_size / 2) (c.tail - n))) [
    | inl f ↦ rw (e, f) refl
    | inr f ↦ elim (Bool-cases (c.tail == conf.recv_buf_size)) [
      | inl g ↦ rw (e, f, g) refl
      | inr g ↦ rw (e, f, g) refl
    ]
  ]
]

empty : (l : List ℕ) → length l ≡ 0 → l ≡ []
empty [] e = refl
empty (y ∷ ys) e = absurd (omega arith)

module _ (conf : Conf) where
  settle-IsValid :
      (n : ℕ) (c : Conn)
      → c.head ≤ c.tail
      → c.tail ≤ conf.recv_buf_size
      → n ≤ c.tail - c.head
      → IsValid conf (settle conf n c)
  unfolding settle
  settle-IsValid n c a b r = ground arith

  keep-IsValid :
      (xs : List ℕ) (n : ℕ) (c : Conn)
      → c.head ≡ 0
      → c.tail ≡ 0
      → n ≤ conf.recv_buf_size
      → IsValid conf (keep conf xs n c)
  unfolding keep
  keep-IsValid xs n c a b r = ground arith

  keep-waiting :
      (xs : List ℕ) (n : ℕ) (c : Conn)
      → c.head ≡ 0
      → c.tail ≡ 0
      → n ≤ length xs
      → waiting (keep conf xs n c) ≡ drop (length xs - n) xs
  unfolding keep
  keep-waiting xs n c a b r =
      let ys = drop (length xs - n) xs in
      let size : length ys ≡ n = omega (arith, length-drop (length xs - n) xs) in
      elim (Bool-cases (n == 0)) [
        | inl e ↦ rw e (
            empty (waiting c)
              (omega (arith, length-bytes (shift c.recvbuf c.head) (c.tail - c.head)))
            ∙ sym (empty ys (ground arith)))
        | inr e ↦ rw e (
            bytes-ext (shift (memcpy c.recvbuf 0 (of_list ys) n) c.head) (of_list ys) (n - c.head)
              (λ k l.
                memcpy-in c.recvbuf 0 (of_list ys) n (c.head + k) (ground arith)
                ∙ ap (of_list ys) (omega arith))
            ∙ ap (bytes (of_list ys)) (omega arith)
            ∙ bytes-of_list ys)
      ]

recv_done-Keeps : (c : Conn) → Keeps c (recv_done c)
unfolding recv_done
recv_done-Keeps c = elim (Option-cases c.zock) [
  | inl e ↦ rw e (record { head = refl; tail = refl; recvbuf = refl })
  | inr (z, e) ↦ rw e (record { head = refl; tail = refl; recvbuf = refl })
]

same-waiting : (c c' : Conn) → Keeps c c' → waiting c' ≡ waiting c
same-waiting c c' k =
    ap (λ b. bytes (shift b c'.head) (c'.tail - c'.head)) k.recvbuf
    ∙ ap (λ i. bytes (shift c.recvbuf i) (c'.tail - i)) k.head
    ∙ ap (λ i. bytes (shift c.recvbuf c.head) (i - c.head)) k.tail

same-IsValid : (conf : Conf) (c c' : Conn) → Keeps c c' → IsValid conf c → IsValid conf c'
same-IsValid conf c c' k v = record {
  order = omega (arith, k, v);
  inside = omega (arith, k, v);
  begins = λ e. k.head ∙ v.begins (sym k.tail ∙ e);
}

-- What the handler is called with: the data alone, or behind what waits.
abbrev pub passing : List ℕ → Conn → Conn × List ℕ
passing xs c = if c.tail == 0 then (c, xs) else (append xs c, waiting (append xs c))

module _ (conf : Conf) (handler : Handler) (h : IsHandler handler) where
  -- The handler keeps the buffer. Then a segment that fits is passed on behind the bytes that wait,
  -- all of them in order; those that the handler leaves, the last of these, are the ones that wait
  -- then; and the buffer keeps its bounds.
  pub receive-passing :
      (xs : List ℕ) (c : Conn)
      → IsValid conf c
      → length xs + c.tail ≤ conf.recv_buf_size
      → let (c', passed) = receive conf handler xs c in
        let (called, given) = passing xs c in
        let remaining = (handler.on_data called given).1 in
        (passed ≡ waiting c ++ xs)
        × (waiting c' ≡ drop (length passed - remaining) passed)
        × IsValid conf c'
  unfolding receive
  receive-passing xs c v fits = elim (Bool-cases (c.tail == 0)) [
    | inl e ↦ rw e (direct (ground (arith, e)))
    | inr e ↦ rw e buffered
  ]
    where
      o : Conn × ℕ
      o = handler.on_data c xs

      s : Conn
      s = keep conf xs o.1 o.0

      direct :
          c.tail ≡ 0
          → (xs ≡ waiting c ++ xs)
            × (waiting (recv_done s) ≡ drop (length xs - o.1) xs)
            × IsValid conf (recv_done s)
      direct z =
          let k = h.on_data c xs in
          let r = h.remains c xs in
          let none_waits =
            empty (waiting c)
              (omega (arith, length-bytes (shift c.recvbuf c.head) (c.tail - c.head))) in
          (
            sym (ap (λ l. l ++ xs) none_waits),
            same-waiting s (recv_done s) (recv_done-Keeps s)
                ∙ keep-waiting conf xs o.1 o.0 (k.head ∙ v.begins z) (k.tail ∙ z) r,
            same-IsValid conf s (recv_done s) (recv_done-Keeps s)
                (keep-IsValid conf xs o.1 o.0 (k.head ∙ v.begins z) (k.tail ∙ z) (omega arith)),
          )

      a : Conn
      a = append xs c

      p : Conn × ℕ
      p = handler.on_data a (waiting a)

      t : Conn
      t = settle conf p.1 p.0

      buffered :
          (waiting a ≡ waiting c ++ xs)
          × (waiting (recv_done t) ≡ drop (length (waiting a) - p.1) (waiting a))
          × IsValid conf (recv_done t)
      buffered =
          let k = h.on_data a (waiting a) in
          let r = h.remains a (waiting a) in
          (
            arrived-waiting xs (as_socket c) v.order,
            same-waiting t (recv_done t) (recv_done-Keeps t)
                ∙ settle-same conf p.1 p.0
                ∙ left-waiting conf p.1 (as_socket a) (as_socket p.0)
                    (record {
                      head = k.head;
                      tail = k.tail;
                      recvbuf = k.recvbuf;
                      expire_ts = refl;
                      fd = inl refl;
                    })
                    (omega (arith, v)) r,
            same-IsValid conf t (recv_done t) (recv_done-Keeps t) (
                settle-IsValid conf p.1 p.0 (omega (arith, k, v)) (omega (arith, k, v))
                  (omega (arith, k, r, length-bytes (shift a.recvbuf a.head) (a.tail - a.head)))),
          )
