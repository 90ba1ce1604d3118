-- ===== src/Efvi/Sender.antt =====
-- `EfviUdpSender` of Efvi.h: the headers that its buffers begin with, and the ring of the buffers.
use pollnet.Base.{
  ℕ, ◌+◌, ◌-◌, ◌*◌, ◌/◌, ◌%◌, ◌^◌, Bool, true, Option, none, some, List, [], ◌∷◌, ◌==◌, leb, ltb,
  ◌&&◌, if◌then◌else◌,
}
use pollnet.Base.Buf.{Buf, memcpy, bytes, of_list}
use pollnet.Wire.{swap16}
use pollnet.Efvitcp.Csum.{words}

-- A number written in the host's order.
abbrev pub put16 : Buf → ℕ → ℕ → Buf
put16 b i w = memcpy b i (λ k. w / 2 ^ (8 * k) % 256) 2

abbrev pub put32 : Buf → ℕ → ℕ → Buf
put32 b i w = memcpy b i (λ k. w / 2 ^ (8 * k) % 256) 4

abbrev pub put8 : Buf → ℕ → ℕ → Buf
put8 b i v = memcpy b i (λ k. v % 256) 1

-- `sockaddr_in`: port and address in network order.
pub record Addr : Type 0 where
  pub sin_port : ℕ
  pub sin_addr : ℕ

-- `hexchartoi`
unfoldable pub hexchartoi : ℕ → ℕ
hexchartoi c =
    if leb 48 c && leb c 57
    then c - 48
    else if leb 65 c && leb c 70
    then c - 65 + 10
    else if leb 97 c && leb c 102
    then c - 97 + 10
    else 0

-- The destination's MAC address: that of the ARP table's text, 17 characters long, or by the address
-- of a multicast group.
unfoldable pub unicast_mac : Buf → Buf
unfolding hexchartoi
unicast_mac text i = (hexchartoi (text (3 * i)) * 16 + hexchartoi (text (3 * i + 1))) % 2 ^ 8

unfoldable pub multicast_mac : ℕ → Buf
multicast_mac addr =
    of_list (1 ∷ 0 ∷ 0x5e ∷ addr / 2 ^ 8 % 128 ∷ addr / 2 ^ 16 % 256 ∷ addr / 2 ^ 24 % 256 ∷ [])

-- With what `getMacFromARP` finds, for the address itself or else its gateway: a text of some length.
unfoldable pub unicast : Option (ℕ × Buf) → Option Buf
unfolding unicast_mac
unicast none = none
unicast (some (len, text)) = if len == 17 then some (unicast_mac text) else none

unfoldable pub dest_mac_of : ℕ → Option (ℕ × Buf) → Option Buf
unfolding unicast multicast_mac
dest_mac_of addr found = if ltb (addr % 256) 224 then unicast found else some (multicast_mac addr)

-- `ci_ip4_hdr_init` with no options, length and identifier, for UDP.
unfoldable pub ci_ip4_hdr_init : ℕ → ℕ → ℕ → Buf → Buf
ci_ip4_hdr_init ip saddr daddr b =
    let b = put16 (put8 (put8 b ip 0x45) (ip + 1) 0) (ip + 2) (swap16 0) in
    let b = put16 (put16 b (ip + 4) 0) (ip + 6) 0x0040 in
    let b = put8 (put8 b (ip + 8) 64) (ip + 9) 17 in
    put16 (put32 (put32 b (ip + 12) saddr) (ip + 16) daddr) (ip + 10) 0

unfoldable pub ci_udp_hdr_init : ℕ → ℕ → ℕ → Buf → Buf
ci_udp_hdr_init udp sport dport b =
    put16 (put16 (put16 (put16 b udp sport) (udp + 2) dport) (udp + 4) (swap16 8)) (udp + 6) 0

unfoldable pub init_udp_pkt : Addr → Buf → Addr → Buf → Buf → Buf
unfolding ci_ip4_hdr_init ci_udp_hdr_init
init_udp_pkt local local_mac dest dest_mac b =
    let b = memcpy (memcpy (put16 b 12 (swap16 0x0800)) 6 local_mac 6) 0 dest_mac 6 in
    ci_udp_hdr_init 34 local.sin_port dest.sin_port
      (ci_ip4_hdr_init 14 local.sin_addr dest.sin_addr b)

-- `ipsum_cache`: the sum of the header's words, folded.
unfoldable pub ipsum_of : Buf → ℕ
ipsum_of eth =
    let sum = words eth 14 10 in let sum = sum / 2 ^ 16 + sum % 2 ^ 16 in sum + sum / 2 ^ 16

unfoldable pub update_udp_pkt : ℕ → ℕ → Buf → Buf
update_udp_pkt ipsum_cache paylen b =
    let iplen = swap16 ((28 + paylen) % 2 ^ 16) in
    let ipsum = ipsum_cache + iplen in
    let ipsum = ipsum + ipsum / 2 ^ 16 in
    put16 (put16 (put16 b 16 iplen) 24 (2 ^ 16 - 1 - ipsum % 2 ^ 16)) 38
      (swap16 ((8 + paylen) % 2 ^ 16))

-- `N_BUF`
abbrev pub n_buf : ℕ
n_buf = 128

-- The members that `write` uses: the frames in the buffers, or the header of the adapter that takes
-- the data with each call (X3). The frames that are given to it are logged.
pub record Sender : Type 0 where
  pub is_x3 : Bool
  pub pkt_bufs : ℕ → Buf
  pub buf_index : ℕ
  pub eth : Buf
  pub ipsum_cache : ℕ
  pub frames : List (List ℕ)

-- The end of `init`, once the adapter's calls have succeeded: the headers, their sum, and a buffer
-- of the adapter's or `n_buf` of the sender's own that begin with the headers. `eth` is unset memory.
unfoldable pub set_up : Bool → Addr → Buf → Addr → Buf → Buf → Sender → Sender
unfolding init_udp_pkt ipsum_of
set_up is_x3 local local_mac dest dest_mac eth s =
    let eth = init_udp_pkt local local_mac dest dest_mac eth in
    let s = record s { is_x3 = is_x3; ipsum_cache = ipsum_of eth } in
    if is_x3
    then record s { eth = memcpy s.eth 0 eth 42 }
    else record s { buf_index = 0; pkt_bufs = λ i. memcpy (s.pkt_bufs i) 0 eth 42 }

unfoldable pub write_x3 : Buf → ℕ → Sender → Sender × Bool
unfolding update_udp_pkt
write_x3 src size s =
    let eth = update_udp_pkt s.ipsum_cache size s.eth in
    (record s { eth = eth; frames = bytes (memcpy eth 42 src size) (42 + size) ∷ s.frames }, true)

-- `write`, with what `ef_vi_transmit_ctpio_fallback` returns. The events that the adapter reports at
-- the end only go back to it.
unfoldable pub write : ℕ → Buf → ℕ → Sender → Sender × Bool
unfolding update_udp_pkt write_x3
write rc src size s =
    let i = s.buf_index in
    let b = memcpy (update_udp_pkt s.ipsum_cache size (s.pkt_bufs i)) 42 src size in
    if s.is_x3 then write_x3 src size s else (
      record s {
        pkt_bufs = λ j. if j == i then b else s.pkt_bufs j;
        buf_index = (i + 1) % n_buf;
        frames = bytes b (42 + size) ∷ s.frames;
      },
      rc == 0,
    )
