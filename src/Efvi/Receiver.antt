-- ===== src/Efvi/Receiver.antt =====
-- `EfviReceiver`, `EfviUdpReceiver` and `EfviEthReceiver` of Efvi.h.
use pollnet.Base.{ℕ, ◌+◌, ◌-◌, ◌%◌, ◌^◌, Bool, true, false, Option, none, some, List, ◌∷◌}
use pollnet.Base.Word.{sub32}
use pollnet.Base.Buf.{Buf, shift, bytes}
use pollnet.Wire.{swap16, le16, le32}

-- `EF_EVENT_TYPE`: a packet in one of the receiver's buffers, one in the adapter's, or another event.
pub data EventType : Type 0 where
  rx : EventType
  rx_ref : EventType
  other : EventType

-- `ef_event`, with the fields that are read of it.
pub record Event : Type 0 where
  pub kind : EventType
  pub rq_id : ℕ
  pub rx_bytes : ℕ
  pub pkt_id : ℕ
  pub ref_len : ℕ

-- The members. Without buffers of its own the receiver reads those of the adapter (X3). The buffers
-- that were given back are logged: those posted again by identifier, those released by packet.
pub record Receiver : Type 0 where
  pub pkt_bufs : Option (ℕ → Buf)
  pub prefix_len : ℕ
  pub posted : List ℕ
  pub released : List ℕ

-- What `handler` is called with: the bytes, and for `recvfrom` the sender's address and port.
pub record Packet : Type 0 where
  pub payload : List ℕ
  pub from : Option (ℕ × ℕ)

abbrev pub Outcome : Type 0
Outcome = Receiver × Option Packet × Bool

-- A UDP payload at `data`, as long as its header says.
abbrev pub udp_packet : Buf → ℕ → Packet
udp_packet b p = record {
  payload = bytes (shift b p) ((swap16 (le16 b (p - 4)) + 2 ^ 16 - 8) % 2 ^ 16);
  from = none;
}

-- The same with the sender's address and port, as `recvfrom` passes it on.
abbrev pub from_packet : Buf → ℕ → Packet
from_packet b p = record (udp_packet b p) { from = some (le32 b (p - 16), le16 b (p - 8)) }

abbrev pub eth_packet : Buf → ℕ → ℕ → Packet
eth_packet b p len = record { payload = bytes (shift b p) len; from = none }

-- `ef_vi_receive_post` and `efct_vi_rxpkt_release`
abbrev pub post : ℕ → Receiver → Receiver
post id r = record r { posted = id ∷ r.posted }

abbrev pub release : ℕ → Receiver → Receiver
release id r = record r { released = id ∷ r.released }

-- The adapter's buffer of a packet, `efct_vi_rxpkt_get`.
module _ (rxpkt : ℕ → Buf) where
  -- `read` with buffers of the receiver's own, then with the adapter's.
  unfoldable pub udp_own : (ℕ → Buf) → EventType → Event → Receiver → Outcome
  udp_own bufs rx e r =
      (post e.rq_id r, some (udp_packet (bufs e.rq_id) (64 + r.prefix_len + 42)), true)
  udp_own bufs rx_ref e r = (post e.rq_id r, none, false)
  udp_own bufs other e r = (post e.rq_id r, none, false)

  unfoldable pub udp_lent : EventType → Event → Receiver → Outcome
  udp_lent rx e r = (release e.pkt_id r, none, false)
  udp_lent rx_ref e r = (release e.pkt_id r, some (udp_packet (rxpkt e.pkt_id) 42), true)
  udp_lent other e r = (release e.pkt_id r, none, false)

  unfoldable pub udp_event : Option (ℕ → Buf) → Event → Receiver → Outcome
  unfolding udp_own udp_lent
  udp_event (some bufs) e r = udp_own bufs e.kind e r
  udp_event none e r = udp_lent e.kind e r

  -- `readNoCheck` and `recvfrom` take every event for a packet.
  unfoldable pub any_event : (Buf → ℕ → Packet) → Option (ℕ → Buf) → Event → Receiver → Outcome
  any_event packet (some bufs) e r =
      (post e.rq_id r, some (packet (bufs e.rq_id) (64 + r.prefix_len + 42)), true)
  any_event packet none e r = (release e.pkt_id r, some (packet (rxpkt e.pkt_id) 42), true)

  -- `EfviEthReceiver::read`: with buffers of the receiver's own `ret` stays false.
  unfoldable pub eth_own : (ℕ → Buf) → EventType → Event → Receiver → Outcome
  eth_own bufs rx e r = (
    post e.rq_id r,
    some (eth_packet (bufs e.rq_id) (64 + r.prefix_len) (sub32 e.rx_bytes r.prefix_len)),
    false,
  )
  eth_own bufs rx_ref e r = (post e.rq_id r, none, false)
  eth_own bufs other e r = (post e.rq_id r, none, false)

  unfoldable pub eth_lent : EventType → Event → Receiver → Outcome
  eth_lent rx e r = (release e.pkt_id r, none, false)
  eth_lent rx_ref e r =
      (release e.pkt_id r, some (eth_packet (rxpkt e.pkt_id) 0 (e.ref_len % 2 ^ 16)), true)
  eth_lent other e r = (release e.pkt_id r, none, false)

  unfoldable pub eth_event : Option (ℕ → Buf) → Event → Receiver → Outcome
  unfolding eth_own eth_lent
  eth_event (some bufs) e r = eth_own bufs e.kind e r
  eth_event none e r = eth_lent e.kind e r

  -- What `ef_eventq_poll` gives: an event or none.
  unfoldable pub udp_read : Option Event → Receiver → Outcome
  unfolding udp_event
  udp_read none r = (r, none, false)
  udp_read (some e) r = udp_event r.pkt_bufs e r

  unfoldable pub read_no_check : Option Event → Receiver → Outcome
  unfolding any_event
  read_no_check none r = (r, none, false)
  read_no_check (some e) r = any_event udp_packet r.pkt_bufs e r

  unfoldable pub recvfrom : Option Event → Receiver → Outcome
  unfolding any_event
  recvfrom none r = (r, none, false)
  recvfrom (some e) r = any_event from_packet r.pkt_bufs e r

  unfoldable pub eth_read : Option Event → Receiver → Outcome
  unfolding eth_event
  eth_read none r = (r, none, false)
  eth_read (some e) r = eth_event r.pkt_bufs e r
