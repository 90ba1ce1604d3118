-- ===== src/Efvi/Tests.antt =====
-- The classes of Efvi.h at concrete values, and the theorems there.
use pollnet.Base.{
  ◌+◌, ◌%◌, ◌^◌, ◌<◌, ◌≡◌, ◌↔◌, ◌⊎◌, refl, true, false, some, [], ◌∷◌, ◌-◌, ◌==◌, if◌then◌else◌,
}
use pollnet.Base.Buf.{memcpy, Buf, of_list}
use pollnet.Wire.{swap16}
use pollnet.Efvitcp.Csum.{fold, words}
use pollnet.Efvi.Receiver.{rx, Event, Receiver, udp_read, read_no_check, recvfrom, eth_read}
use pollnet.Efvi.Reads.{
  given_back, is_called, receiver_of, passed_on, result, IsDone, udp_read-eth_read,
}
use pollnet.Efvi.Sender.{
  Addr, Sender, hexchartoi, unicast_mac, init_udp_pkt, ci_ip4_hdr_init, ci_udp_hdr_init,
  update_udp_pkt, ipsum_of, set_up, write,
}
use pollnet.Efvi.Checksum.{header, once, sent, checksum-update_udp_pkt}

-- 10.0.0.1:5000 and 239.1.2.3:6000
abbrev local : Addr
local = record { sin_port = swap16 5000; sin_addr = 0x0100000a }

abbrev group : Addr
group = record { sin_port = swap16 6000; sin_addr = 0x030201ef }

abbrev zeros : Buf
zeros i = 0

-- "02:aB:00:00:00:0f"
unicast_mac-text :
    unicast_mac
      (of_list
        (48 ∷ 50 ∷ 58 ∷ 97 ∷ 66 ∷ 58 ∷ 48 ∷ 48 ∷ 58 ∷ 48 ∷ 48 ∷ 58 ∷ 48 ∷ 48 ∷ 58 ∷ 48 ∷ 102 ∷ []))
      1
    ≡ 0xab
unfolding unicast_mac hexchartoi
unicast_mac-text = refl

checksum-update_udp_pkt_example :
    let b = header local zeros group zeros zeros in
    let cache = ipsum_of b in
    (fold (words (sent cache (7 ∷ 100 ∷ []) b) 14 10) ≡ 0) ↔ (
      (once local zeros group zeros zeros < 2 ^ 16)
      ⊎ (cache + swap16 ((28 + 7) % 2 ^ 16) ≡ 2 ^ 17 - 1))
checksum-update_udp_pkt_example = checksum-update_udp_pkt local zeros group zeros zeros (100 ∷ []) 7

-- From 192.168.1.10 to 192.168.185.146 the first fold carries, and a receiver finds the sum wrong.
abbrev near : Addr
near = record { sin_port = 0; sin_addr = 0x0a01a8c0 }

abbrev far : Addr
far = record { sin_port = 0; sin_addr = 0x92b9a8c0 }

carry_twice :
    let b = init_udp_pkt near zeros far zeros zeros in
    fold (words (update_udp_pkt (ipsum_of b) 100 b) 14 10) ≡ 1
unfolding init_udp_pkt ci_ip4_hdr_init ci_udp_hdr_init ipsum_of update_udp_pkt memcpy fold
carry_twice = refl

abbrev sender : Sender
unfolding set_up init_udp_pkt ipsum_of
sender = set_up false local zeros group zeros zeros (record {
  is_x3 = false;
  pkt_bufs = λ i. zeros;
  buf_index = 0;
  eth = zeros;
  ipsum_cache = 0;
  frames = [];
})

-- The ring of buffers goes round after `n_buf` of them.
write-ring :
    ((write 0 zeros 3 sender).0.buf_index ≡ 1)
    × ((write 0 zeros 3 (record sender { buf_index = 127 })).0.buf_index ≡ 0)
unfolding write sender set_up
write-ring = (refl, refl)

-- A packet of three bytes from 10.0.0.9:7000, behind the prefix of a receiver without a prefix.
abbrev frame : Buf
frame p = if p == 102 then 0 else if p == 103 then 11 else p % 256

abbrev receiver : Receiver
receiver = record { pkt_bufs = some (λ i. frame); prefix_len = 0; posted = []; released = [] }

abbrev event : Event
event = record { kind = rx; rq_id = 3; rx_bytes = 45; pkt_id = 0; ref_len = 0 }

udp_read-eth_read_example :
    let udp = udp_read (λ i. zeros) (some event) receiver in
    let eth = eth_read (λ i. zeros) (some event) receiver in
    (IsDone event receiver udp
      × (passed_on udp ≡ passed_on (read_no_check (λ i. zeros) (some event) receiver)))
    × (IsDone event receiver (read_no_check (λ i. zeros) (some event) receiver)
        × IsDone event receiver (recvfrom (λ i. zeros) (some event) receiver))
    × ((receiver_of eth ≡ given_back receiver.pkt_bufs event receiver)
        × (is_called (passed_on eth) ≡ true)
        × (result eth ≡ false))
udp_read-eth_read_example = udp_read-eth_read (λ i. zeros) event receiver
