-- ===== src/Socket/Server/Listen.antt =====
-- `SocketTcpServer::init` and `close`.
use Prim.Native.String.{String}
use pollnet.Base.{ℕ, ◌<◌, ◌≡◌, Bool, Option, none, List, [], ◌∷◌, ltb, if◌then◌else◌, arith}
use pollnet.Socket.Os.{Descriptor, LastError}
use pollnet.Socket.Handle.{
  Handle, Step, step, nonblocking, reuses_addr, bound, listening, or_later, Opens, open_handle,
  open_handle-Opens, close,
}
use pollnet.Socket.Conn.{Conf}
use pollnet.Socket.Server.{Server}
use pollnet.Socket.Server.Pool.{IsPool}

-- What the calls of `init` return, if they are made.
pub record ListenCalls : Type 0 where
  pub socket : Descriptor
  pub nonblock : Option ℕ
  pub reuse_addr : Option ℕ
  pub bind : Option ℕ
  pub listen : Option ℕ

pub listen_steps : ListenCalls → List Step
listen_steps k =
    step nonblocking "fcntl O_NONBLOCK error" k.nonblock
    ∷ step reuses_addr "setsockopt SO_REUSEADDR error" k.reuse_addr
    ∷ step bound "bind error" k.bind
    ∷ step listening "listen error" k.listen
    ∷ []

-- The listening descriptor of a server, and a server with another one.
abbrev pub listener : Server → Handle
listener s = record {
  fd = s.listenfd;
  last_error = s.last_error;
  closed = s.closed;
  settings = s.settings;
}

abbrev pub with_listener : Handle → Server → Server
with_listener h s = record s {
  listenfd = h.fd;
  last_error = h.last_error;
  closed = h.closed;
  settings = h.settings;
}

pub init : Conf → ListenCalls → Server → Server × Bool
unfolding open_handle listen_steps
init conf k s =
    let (h, ok) = open_handle k.socket (listen_steps k) (listener s) in
    (record (with_listener h s) { conns = λ i. if ltb i conf.max_conns then i else s.conns i }, ok)

pub close_server : String → ℕ → Server → Server
unfolding close
close_server reason errno s = with_listener (close reason errno (listener s)) s

-- The error of `init`, by its calls in the order of the code.
abbrev pub listen_error : ListenCalls → Option LastError
listen_error k = or_later "fcntl O_NONBLOCK error" k.nonblock (
    or_later "setsockopt SO_REUSEADDR error" k.reuse_addr
      (or_later "bind error" k.bind (or_later "listen error" k.listen none)))

-- `init` of a server that does not listen, and whose connections are all closed. It succeeds if and
-- only if it holds a descriptor afterwards, and that is then non-blocking, reuses addresses, is bound
-- and listens; otherwise it keeps the error of the first of these calls that failed. It neither loses
-- a descriptor nor closes one twice, and its pool is in order with none in use.
pub listen-Opens :
    (conf : Conf) (k : ListenCalls) (s : Server)
    → s.listenfd ≡ none
    → s.conns_cnt ≡ 0
    → ((j : ℕ) → j < conf.max_conns → (s.conns_data j).fd ≡ none)
    → let (s', ok) = init conf k s in
      Opens k.socket
        (listen_error k)
        (listening ∷ bound ∷ reuses_addr ∷ nonblocking ∷ [])
        (listener s)
        (listener s')
        ok
      × IsPool conf s'
      × (s'.conns_cnt ≡ 0)
unfolding init
listen-Opens conf k s e z idle = (
  open_handle-Opens k.socket (listen_steps k) (listener s) e,
  record {
    bound = ground arith;
    index = λ j l. ground arith;
    apart = λ i j a b g. ground arith;
    idle = λ j a l. ground (arith, idle j);
  },
  z,
)
