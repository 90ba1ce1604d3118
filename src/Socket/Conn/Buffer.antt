-- ===== src/Socket/Conn/Buffer.antt =====
-- The receive buffer of `SocketTcpConnection`: its bounds, the bytes that wait in it, and what a
-- handler may do to a connection.
use Prim.Native.String.{String}
use pollnet.Base.{
  ℕ, ◌+◌, ◌-◌, ◌≤◌, ◌<◌, ◌≡◌, ◌≢◌, ◌⊎◌, ap, ap₂, sym, ◌∙◌, List, ◌++◌, Option, none, length, drop,
  arith,
}
use pollnet.Base.Buf.{
  Buf, memcpy, shift, bytes, of_list, length-bytes, bytes-ext, bytes-add, bytes-of_list, drop-bytes,
  memcpy-in, memcpy-out,
}
use pollnet.Socket.Os.{ReadResult, got, eof, would_block, read_failed}
use pollnet.Socket.Conn.{Conf, Conn, Handler, close, settle}

-- What a callback may do to the connection: close it, or write. It cannot reach the buffer.
pub record Keeps (c c' : Conn) : Type 0 where
  pub head : c'.head ≡ c.head
  pub tail : c'.tail ≡ c.tail
  pub recvbuf : c'.recvbuf ≡ c.recvbuf
  pub expire_ts : c'.expire_ts ≡ c.expire_ts
  pub fd : (c'.fd ≡ c.fd) ⊎ (c'.fd ≡ none)

-- The handler leaves at most what it is passed, and its callbacks keep the buffer.
pub record IsHandler (h : Handler) : Type 0 where
  pub remains : (c : Conn) (xs : List ℕ) → (h.on_data c xs).1 ≤ length xs
  pub on_data : (c : Conn) (xs : List ℕ) → Keeps c (h.on_data c xs).0
  pub on_send_timeout : (c : Conn) → Keeps c (h.on_send_timeout c)
  pub on_recv_timeout : (c : Conn) → Keeps c (h.on_recv_timeout c)
  pub on_connected : (c : Conn) → Keeps c (h.on_connected c)
  pub on_disconnect : (c : Conn) → Keeps c (h.on_disconnect c)

-- The buffer's bounds; while the connection is open there is room for `::read`, which would
-- otherwise return 0 as at the end of the stream.
pub record IsValid (conf : Conf) (c : Conn) : Type 0 where
  pub order : c.head ≤ c.tail
  pub inside : c.tail ≤ conf.recv_buf_size
  pub room : c.fd ≢ none → c.tail < conf.recv_buf_size

-- `::read` returns at least one byte and at most as many as it is asked for.
abbrev pub ArrivesAt : Conf → ℕ → ReadResult → Type 0
ArrivesAt conf tail (got xs) = (0 < length xs) × (length xs ≤ conf.recv_buf_size - tail)
ArrivesAt conf tail eof = Unit {0}
ArrivesAt conf tail would_block = Unit {0}
ArrivesAt conf tail (read_failed e) = Unit {0}

abbrev pub Arrives : Conf → Conn → ReadResult → Type 0
Arrives conf c r = ArrivesAt conf c.tail r

close_lem :
    (reason : String) (errno : Option ℕ) (c : Conn)
    → ((close reason errno c).fd ≡ none)
      × ((close reason errno c).head ≡ c.head)
      × ((close reason errno c).tail ≡ c.tail)
      × ((close reason errno c).recvbuf ≡ c.recvbuf)
unfolding close
close_lem reason errno c = ground arith

pub close-IsValid :
    (conf : Conf) (reason : String) (errno : Option ℕ) (c : Conn)
    → c.head ≤ c.tail
    → c.tail ≤ conf.recv_buf_size
    → IsValid conf (close reason errno c)
close-IsValid conf reason errno c a b = ground (arith, close_lem reason errno c)

pub settle-IsValid :
    (conf : Conf) (remaining : ℕ) (c : Conn)
    → 2 ≤ conf.recv_buf_size
    → c.head ≤ c.tail
    → c.tail ≤ conf.recv_buf_size
    → remaining ≤ c.tail - c.head
    → IsValid conf (settle conf remaining c)
unfolding settle
settle-IsValid conf remaining c size a b r =
    ground (arith, close_lem "recv buf full" none (record c { head = c.tail - remaining }))

-- The bytes that wait in the buffer.
abbrev pub waiting : Conn → List ℕ
waiting c = bytes (shift c.recvbuf c.head) (c.tail - c.head)

settle-size :
    (conf : Conf) (remaining : ℕ) (c : Conn)
    → remaining ≤ c.tail
    → (settle conf remaining c).tail - (settle conf remaining c).head ≡ remaining
unfolding settle
settle-size conf remaining c r =
    ground (arith, close_lem "recv buf full" none (record c { head = c.tail - remaining }))

settle-byte :
    (conf : Conf) (remaining k : ℕ) (c : Conn)
    → remaining ≤ c.tail
    → k < remaining
    → (settle conf remaining c).recvbuf ((settle conf remaining c).head + k)
      ≡ c.recvbuf (c.tail - remaining + k)
unfolding settle
settle-byte conf remaining k c r l = ground (
  arith,
  close_lem "recv buf full" none (record c { head = c.tail - remaining }),
  memcpy-in c.recvbuf 0 (shift c.recvbuf (c.tail - remaining)) remaining (0 + k),
)

-- What the handler leaves is what waits then.
settle-waiting :
    (conf : Conf) (remaining : ℕ) (c : Conn)
    → remaining ≤ c.tail
    → waiting (settle conf remaining c) ≡ bytes (shift c.recvbuf (c.tail - remaining)) remaining
settle-waiting conf remaining c r =
    rw (settle-size conf remaining c r)
      (bytes-ext _ _ remaining (λ k l. settle-byte conf remaining k c r l))

-- The state in which the handler is called, and what it is passed.
abbrev pub arrived : List ℕ → Conn → Conn
arrived xs c = record c {
  recvbuf = memcpy c.recvbuf c.tail (of_list xs) (length xs);
  tail = c.tail + length xs;
}

pub arrived-waiting :
    (xs : List ℕ) (c : Conn) → c.head ≤ c.tail → waiting (arrived xs c) ≡ waiting c ++ xs
arrived-waiting xs c h =
    let e : c.tail + length xs - c.head ≡ c.tail - c.head + length xs = omega arith in
    ap (bytes buf) e
    ∙ bytes-add buf (c.tail - c.head) (length xs)
    ∙ ap₂ ◌++◌
        (bytes-ext buf (shift c.recvbuf c.head) (c.tail - c.head)
          (λ k l. memcpy-out c.recvbuf c.tail (of_list xs) (length xs) (c.head + k) (ground arith)))
        (bytes-ext (shift buf (c.tail - c.head)) (of_list xs) (length xs) (λ k l.
            memcpy-in c.recvbuf c.tail (of_list xs) (length xs) (c.head + (c.tail - c.head + k))
              (ground arith)
            ∙ ap (of_list xs) (omega arith))
          ∙ bytes-of_list xs)
  where
    buf : Buf
    buf = shift (memcpy c.recvbuf c.tail (of_list xs) (length xs)) c.head

pub left-waiting :
    (conf : Conf) (remaining : ℕ) (c c' : Conn)
    → Keeps c c'
    → c.head ≤ c.tail
    → remaining ≤ length (waiting c)
    → waiting (settle conf remaining c') ≡ drop (length (waiting c) - remaining) (waiting c)
left-waiting conf remaining c c' k h r =
    settle-waiting conf remaining c' (ground (arith, k, size))
    ∙ ap (bytes (shift c'.recvbuf (c'.tail - remaining))) (ground (arith, size))
    ∙ bytes-ext (shift c'.recvbuf (c'.tail - remaining))
        (shift (shift c.recvbuf c.head) (length (waiting c) - remaining)) _
        (λ j l.
          ap (λ b. b (c'.tail - remaining + j)) k.recvbuf ∙ ap c.recvbuf (ground (arith, k, size)))
    ∙ sym (drop-bytes (length (waiting c) - remaining) (shift c.recvbuf c.head) (c.tail - c.head))
  where
    size : length (waiting c) ≡ c.tail - c.head
    size = length-bytes (shift c.recvbuf c.head) (c.tail - c.head)
