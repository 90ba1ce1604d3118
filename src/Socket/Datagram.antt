-- ===== src/Socket/Datagram.antt =====
-- `SocketUdpReceiver`, `SocketUdpSender` and `SocketEthReceiver` of Socket.h.
use pollnet.Base.{
  ℕ, Bool, true, false, ◌≡◌, Option, none, List, [], ◌∷◌, length, ◌==◌, if◌then◌else◌,
}
use pollnet.Socket.Os.{
  ReadResult, got, eof, would_block, read_failed, SendResult, accepts, send_again, send_failed,
  Descriptor, LastError,
}
use pollnet.Socket.Handle.{
  Handle, Step, step, Setting, nonblocking, reuses_addr, bound, connected, member, multicast_ttl,
  promiscuous, or_later, Opens, open_handle, open_handle-Opens,
}

-- What the calls of an `init` return, if they are made.
pub record ReceiverCalls : Type 0 where
  pub socket : Descriptor
  pub nonblock : Option ℕ
  pub reuse_addr : Option ℕ
  pub bind : Option ℕ
  pub add_membership : Option ℕ

pub record SenderCalls : Type 0 where
  pub socket : Descriptor
  pub nonblock : Option ℕ
  pub bind : Option ℕ
  pub connect : Option ℕ
  pub multicast_ttl : Option ℕ

pub record EthCalls : Type 0 where
  pub socket : Descriptor
  pub nonblock : Option ℕ
  pub bind : Option ℕ
  pub add_membership : Option ℕ

-- A group is joined if there is an address to subscribe on.
pub receiver_steps : ReceiverCalls → List ℕ → List Step
receiver_steps k subscribe_ip =
    step nonblocking "fcntl O_NONBLOCK error" k.nonblock
    ∷ step reuses_addr "setsockopt SO_REUSEADDR error" k.reuse_addr
    ∷ step bound "bind failed" k.bind
    ∷ (elim subscribe_ip as (λ l. List Step) [
      | [] ↦ []
      | _ ∷ _ ↦ step member "setsockopt IP_ADD_MEMBERSHIP failed" k.add_membership ∷ []
    ])

pub receiver_init : ReceiverCalls → List ℕ → Handle → Handle × Bool
unfolding open_handle receiver_steps
receiver_init k subscribe_ip h = open_handle k.socket (receiver_steps k subscribe_ip) h

pub sender_steps : SenderCalls → List Step
sender_steps k =
    step nonblocking "fcntl O_NONBLOCK error" k.nonblock
    ∷ step bound "bind failed" k.bind
    ∷ step connected "connect error" k.connect
    ∷ step multicast_ttl "setsockopt IP_MULTICAST_TTL failed" k.multicast_ttl
    ∷ []

pub sender_init : SenderCalls → Handle → Handle × Bool
unfolding open_handle sender_steps
sender_init k h = open_handle k.socket (sender_steps k) h

pub eth_steps : EthCalls → Bool → List Step
eth_steps k is_promiscuous =
    step nonblocking "fcntl O_NONBLOCK error" k.nonblock
    ∷ step bound "bind error" k.bind
    ∷ (if is_promiscuous
        then step promiscuous "setsockopt PACKET_ADD_MEMBERSHIP" k.add_membership ∷ []
        else [])

pub eth_init : EthCalls → Bool → Handle → Handle × Bool
unfolding open_handle eth_steps
eth_init k is_promiscuous h = open_handle k.socket (eth_steps k is_promiscuous) h

-- `read` and `recvfrom`: the handler, a change of the user's state, is called with what arrived.
pub read : {A : Type 0} → ReadResult → (List ℕ → A → A) → A → A × Bool
read (got []) handler a = (a, false)
read (got (x ∷ xs)) handler a = (handler (x ∷ xs) a, true)
read eof handler a = (a, false)
read would_block handler a = (a, false)
read (read_failed e) handler a = (a, false)

-- `write` and `sendto`: whether all of the bytes were accepted.
pub write : SendResult → List ℕ → Bool
write (accepts n) xs = n == length xs
write send_again xs = false
write (send_failed e) xs = false

-- The errors of the three `init`s and the settings of their descriptors, by their calls in the order of
-- the code.
abbrev pub receiver_error : ReceiverCalls → List ℕ → Option LastError
receiver_error k subscribe_ip = or_later "fcntl O_NONBLOCK error" k.nonblock (
    or_later "setsockopt SO_REUSEADDR error" k.reuse_addr (
      or_later "bind failed" k.bind (elim subscribe_ip [
        | [] ↦ none
        | _ ∷ _ ↦ or_later "setsockopt IP_ADD_MEMBERSHIP failed" k.add_membership none
      ])))

abbrev pub receiver_settings : List ℕ → List Setting
receiver_settings [] = bound ∷ reuses_addr ∷ nonblocking ∷ []
receiver_settings (_ ∷ _) = member ∷ bound ∷ reuses_addr ∷ nonblocking ∷ []

abbrev pub sender_error : SenderCalls → Option LastError
sender_error k = or_later "fcntl O_NONBLOCK error" k.nonblock (
    or_later "bind failed" k.bind (
      or_later "connect error" k.connect
        (or_later "setsockopt IP_MULTICAST_TTL failed" k.multicast_ttl none)))

abbrev pub eth_error : EthCalls → Bool → Option LastError
eth_error k false = or_later "fcntl O_NONBLOCK error" k.nonblock (or_later "bind error" k.bind none)
eth_error k true = or_later "fcntl O_NONBLOCK error" k.nonblock (
    or_later "bind error" k.bind
      (or_later "setsockopt PACKET_ADD_MEMBERSHIP" k.add_membership none))

abbrev pub eth_settings : Bool → List Setting
eth_settings false = bound ∷ nonblocking ∷ []
eth_settings true = promiscuous ∷ bound ∷ nonblocking ∷ []

receiver_init-Opens :
    (k : ReceiverCalls) (subscribe_ip : List ℕ) (h : Handle)
    → h.fd ≡ none
    → let (h', ok) = receiver_init k subscribe_ip h in
      Opens k.socket (receiver_error k subscribe_ip) (receiver_settings subscribe_ip) h h' ok
unfolding receiver_init
receiver_init-Opens k [] h e = open_handle-Opens k.socket (receiver_steps k []) h e
receiver_init-Opens k (x ∷ xs) h e = open_handle-Opens k.socket (receiver_steps k (x ∷ xs)) h e

eth_init-Opens :
    (k : EthCalls) (is_promiscuous : Bool) (h : Handle)
    → h.fd ≡ none
    → let (h', ok) = eth_init k is_promiscuous h in
      Opens k.socket (eth_error k is_promiscuous) (eth_settings is_promiscuous) h h' ok
unfolding eth_init
eth_init-Opens k false h e = open_handle-Opens k.socket (eth_steps k false) h e
eth_init-Opens k true h e = open_handle-Opens k.socket (eth_steps k true) h e

-- The three `init`s, on a socket that holds no descriptor yet. Each succeeds if and only if it holds a
-- descriptor afterwards: a receiver's is then non-blocking, reuses addresses, is bound, and has joined
-- its group if there is an address to subscribe on; a sender's is non-blocking, bound, connected and
-- has its time to live; an Ethernet receiver's is non-blocking and bound, and promiscuous if that is
-- asked for. Otherwise each keeps the error of the first of these calls that failed. None loses a
-- descriptor or closes one twice.
pub datagram-Opens :
    (receiver : ReceiverCalls) (sender : SenderCalls) (eth : EthCalls) (subscribe_ip : List ℕ)
    (is_promiscuous : Bool) (h : Handle)
    → h.fd ≡ none
    → let (h1, ok1) = receiver_init receiver subscribe_ip h in
      let (h2, ok2) = sender_init sender h in
      let (h3, ok3) = eth_init eth is_promiscuous h in
      Opens receiver.socket
        (receiver_error receiver subscribe_ip)
        (receiver_settings subscribe_ip)
        h
        h1
        ok1
      × Opens sender.socket
          (sender_error sender)
          (multicast_ttl ∷ connected ∷ bound ∷ nonblocking ∷ [])
          h
          h2
          ok2
      × Opens eth.socket (eth_error eth is_promiscuous) (eth_settings is_promiscuous) h h3 ok3
unfolding sender_init
datagram-Opens receiver sender eth subscribe_ip is_promiscuous h e = (
  receiver_init-Opens receiver subscribe_ip h e,
  open_handle-Opens sender.socket (sender_steps sender) h e,
  eth_init-Opens eth is_promiscuous h e,
)
