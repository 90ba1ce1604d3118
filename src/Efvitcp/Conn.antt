-- ===== src/Efvitcp/Conn.antt =====
-- `TcpConn` of efvitcp/TcpConn.h: one connection over the buffers and timers of the core. The state
-- is cut into what is sent, what is received, and the congestion control. A pointer to a send
-- buffer is its index; what a method asks of the core is logged.
pub mod Bufs
pub mod Copy
pub mod Send
pub mod Setup
pub mod Syn
pub mod Ack
pub mod Text
pub mod Pack
pub mod Closing
mod Tests
pub mod Examples
pub mod Rate
pub mod Retry
pub mod Bytes
pub mod Sum
pub mod Options
pub mod Settle
pub mod Offer
pub mod Accept
pub mod Place
pub mod Window
pub mod Content
pub mod Tail
pub mod Deliver
pub mod Kept
pub mod Stored
pub mod Receive
pub mod Flow
pub mod Free
use pollnet.Base.{ℕ, Bool, not, ◌&&◌, Option, List, [], ◌∷◌, ◌++◌, ◌==◌, if◌then◌else◌}
use pollnet.Base.Buf.{Buf}
use pollnet.Segs.{Seg}

-- The template's parameters that the connection reads, and `Core::SendMTU`.
pub record Conf : Type 0 where
  pub conn_send_buf_cnt : ℕ
  pub conn_recv_buf_size : ℕ
  pub send_mtu : ℕ
  pub syn_retries : ℕ
  pub tcp_retries : ℕ
  pub delayed_ack_ms : ℕ
  pub min_rto_ms : ℕ
  pub max_rto_ms : ℕ
  pub window_scale : Bool
  pub timestamp : Bool
  pub congestion : ℕ

-- `SendBuf`: the fields that change, in network order, and the memory behind the TCP header.
pub record SendBuf : Type 0 where
  pub send_ts : ℕ
  pub avail : Bool
  pub dst_mac : Buf
  pub src_ip : ℕ
  pub dst_ip : ℕ
  pub tot_len : ℕ
  pub ip_checksum : ℕ
  pub src_port : ℕ
  pub dst_port : ℕ
  pub seq_num : ℕ
  pub ack_num : ℕ
  pub offset_flags : ℕ
  pub window_size : ℕ
  pub checksum : ℕ
  pub area : Buf

-- What is sent: the buffers from `send_una` to `send_next` are in flight, those up to `data_next`
-- wait for the window, and `data_next` is being filled.
pub record Snd : Type 0 where
  pub bufs : ℕ → SendBuf
  pub send_una : ℕ
  pub send_next : ℕ
  pub data_next : ℕ
  pub data_next_size : ℕ
  pub data_sum : ℕ
  pub smss : ℕ
  pub send_wnd_seq : ℕ
  pub both_wnd_seq : ℕ

-- What is received: `recv_buf` begins at the number `recv_buf_seq`.
pub record Rcv : Type 0 where
  pub segs : List Seg
  pub recv_buf_seq : ℕ
  pub recv_buf : Buf

pub record Cong : Type 0 where
  pub cwnd : ℕ
  pub ssthresh : ℕ
  pub fast_re : Bool
  pub cong_av : Bool
  pub in_recover : Bool
  pub recover : ℕ
  pub cong_av_ts : ℕ
  pub dup_ack_cnt : ℕ
  pub cubic_wmax : ℕ
  pub cubic_k : ℕ

-- The calls of the event handler other than `onData`.
pub data Event : Type 0 where
  on_established : Event
  on_reset : Event
  on_timeout : Event
  on_more_sendable : Event
  on_closed : Event
  on_fin : List ℕ → Event
  on_user_timeout : ℕ → Event

-- What a method asks of others: a frame sent, with the buffer as it is then, the end of the entry
-- in the connection table, which may leave one in TIME_WAIT, or a call of the handler.
pub data Effect : Type 0 where
  sends : SendBuf → Effect
  del_entry : Effect
  enter_tw : SendBuf → Bool → ℕ → Effect
  reports : Event → Effect

-- A timer is linked for a duration, or unlinked. 0 resends, 1 acknowledges, the user has the others.
pub record Conn : Type 0 where
  pub snd : Snd
  pub rcv : Rcv
  pub cong : Cong
  pub timers : ℕ → Option ℕ
  pub rto : ℕ
  pub srtt : ℕ
  pub rttvar : ℕ
  pub established : Bool
  pub fin_sent : Bool
  pub fin_received : Bool
  pub pending_ack : Bool
  pub has_ws : Bool
  pub has_ts : Bool
  pub retries : ℕ
  pub recv_wnd_shift : ℕ
  pub send_wnd_shift : ℕ
  pub last_ack_seq : ℕ
  pub recent_ts : ℕ
  pub ipsum : ℕ
  pub tcpsum : ℕ
  pub effects : List Effect

-- What the handler does in a call: it may call the connection's methods, and `onData` returns how
-- many bytes it leaves.
pub record Handler : Type 0 where
  pub on_event : Event → Conn → Conn
  pub on_data : List ℕ → Conn → Conn × ℕ

abbrev pub emit : Effect → Conn → Conn
emit e c = record c { effects = c.effects ++ e ∷ [] }

unfoldable pub tell : Handler → Event → Conn → Conn
tell h e c = h.on_event e (emit (reports e) c)

abbrev pub set_timer : ℕ → Option ℕ → Conn → Conn
set_timer i t c = record c { timers = λ j. if j == i then t else c.timers j }

-- `isEstablished` is the field `established`.
unfoldable pub is_closed : Conn → Bool
is_closed c = c.fin_received && not c.established
