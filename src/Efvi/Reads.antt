-- ===== src/Efvi/Reads.antt =====
-- What the receivers of Efvi.h pass on, report and give back.
use pollnet.Base.{ℕ, ◌≡◌, refl, Bool, true, false, Option, none, some, ◌&&◌, if◌then◌else◌}
use pollnet.Base.Buf.{Buf}
use pollnet.Efvi.Receiver.{
  EventType, rx, rx_ref, other, Event, Receiver, Packet, Outcome, post, release, udp_read,
  read_no_check, recvfrom, eth_read, udp_event, udp_own, udp_lent, any_event, eth_event, eth_own,
  eth_lent,
}

-- The receiver's own buffer posted again, or the adapter's released, and nothing else changed.
abbrev pub given_back : Option (ℕ → Buf) → Event → Receiver → Receiver
given_back (some bufs) e r = post e.rq_id r
given_back none e r = release e.pkt_id r

-- An event that tells of a packet, by where the packets are.
abbrev pub is_packet : Option (ℕ → Buf) → EventType → Bool
is_packet (some bufs) rx = true
is_packet (some bufs) rx_ref = false
is_packet (some bufs) other = false
is_packet none rx = false
is_packet none rx_ref = true
is_packet none other = false

abbrev pub is_called : Option Packet → Bool
is_called none = false
is_called (some p) = true

abbrev pub receiver_of : Outcome → Receiver
receiver_of (r, p, b) = r

abbrev pub passed_on : Outcome → Option Packet
passed_on (r, p, b) = p

abbrev pub result : Outcome → Bool
result (r, p, b) = b

-- A read that gives the event's buffer back and returns whether it called the handler.
abbrev pub IsDone : Event → Receiver → Outcome → Type 0
IsDone e r o = (receiver_of o ≡ given_back r.pkt_bufs e r) × (result o ≡ is_called (passed_on o))

-- The cases, on where the packets are and what the event is.
module _ (rxpkt : ℕ → Buf) (e0 : Event) (r0 : Receiver) where
  udp_cases :
      (o : Option (ℕ → Buf))
      → (k : EventType)
      → let e = record e0 { kind = k } in
        let r = record r0 { pkt_bufs = o } in
        IsDone e r (udp_read rxpkt (some e) r)
        × (passed_on (udp_read rxpkt (some e) r)
            ≡ (if is_packet o k then passed_on (read_no_check rxpkt (some e) r) else none))
  unfolding udp_read read_no_check udp_event udp_own udp_lent any_event
  udp_cases (some bufs) rx = ((refl, refl), refl)
  udp_cases (some bufs) rx_ref = ((refl, refl), refl)
  udp_cases (some bufs) other = ((refl, refl), refl)
  udp_cases none rx = ((refl, refl), refl)
  udp_cases none rx_ref = ((refl, refl), refl)
  udp_cases none other = ((refl, refl), refl)

  any_cases :
      (o : Option (ℕ → Buf))
      → let r = record r0 { pkt_bufs = o } in
        IsDone e0 r (read_no_check rxpkt (some e0) r) × IsDone e0 r (recvfrom rxpkt (some e0) r)
  unfolding read_no_check recvfrom any_event
  any_cases (some bufs) = ((refl, refl), (refl, refl))
  any_cases none = ((refl, refl), (refl, refl))

  -- The result is false with the receiver's own buffers, whether the handler was called or not.
  eth_cases :
      (o : Option (ℕ → Buf))
      → (k : EventType)
      → let e = record e0 { kind = k } in
        let r = record r0 { pkt_bufs = o } in
        let out = eth_read rxpkt (some e) r in
        (receiver_of out ≡ given_back o e r)
        × (is_called (passed_on out) ≡ is_packet o k)
        × (result out ≡ is_packet o k && is_packet none k)
  unfolding eth_read eth_event eth_own eth_lent
  eth_cases (some bufs) rx = (refl, refl, refl)
  eth_cases (some bufs) rx_ref = (refl, refl, refl)
  eth_cases (some bufs) other = (refl, refl, refl)
  eth_cases none rx = (refl, refl, refl)
  eth_cases none rx_ref = (refl, refl, refl)
  eth_cases none other = (refl, refl, refl)

-- Whatever event is polled, each of the four reads gives its buffer back once, the receiver's own
-- by posting it again and the adapter's by releasing it, and changes nothing else. The reads of the
-- UDP receiver return whether they called the handler. `read` passes on what `readNoCheck` does,
-- but only of an event that tells of a packet. The Ethernet receiver calls the handler for just
-- these events too, but returns true for them only if the packets are in the adapter's buffers.
pub udp_read-eth_read :
    (rxpkt : ℕ → Buf) (e : Event) (r : Receiver)
    → let udp = udp_read rxpkt (some e) r in
      let eth = eth_read rxpkt (some e) r in
      let is_told = is_packet r.pkt_bufs e.kind in
      (IsDone e r udp
        × (passed_on udp ≡ (if is_told then passed_on (read_no_check rxpkt (some e) r) else none)))
      × (IsDone e r (read_no_check rxpkt (some e) r) × IsDone e r (recvfrom rxpkt (some e) r))
      × ((receiver_of eth ≡ given_back r.pkt_bufs e r)
          × (is_called (passed_on eth) ≡ is_told)
          × (result eth ≡ is_told && is_packet none e.kind))
udp_read-eth_read rxpkt e r = (
  udp_cases rxpkt e r r.pkt_bufs e.kind,
  any_cases rxpkt e r r.pkt_bufs,
  eth_cases rxpkt e r r.pkt_bufs e.kind,
)
