-- ===== src/Stream.antt =====
-- TcpStream.h: a filter for the packets of one TCP direction, and the reassembly of its bytes.
-- `TcpStream` is the class's state, `filter_packet` and `handle_packet` its methods. A method that
-- changes `*this` returns the new state; the handler is a function from the bytes that it is passed
-- to the number that it leaves, and the bytes passed are part of the result.
pub mod Filter
pub mod Window
pub mod Cases
pub mod Invariant
pub mod Content
pub mod Position
pub mod Delivery
pub mod Latest
pub mod Bounds
mod Tests
use pollnet.Base.{
  ℕ, suc, ◌+◌, ◌-◌, ◌*◌, ◌/◌, ◌%◌, ◌^◌, Bool, true, false, not, ◌&&◌, ◌||◌, Option, none, some,
  List, [], ◌∷◌, map, get_or, set, length, ltb, leb, ◌==◌, if◌then◌else◌,
}
use pollnet.Base.Word.{add32, sub32, is_neg32}
use pollnet.Base.Buf.{Buf, memcpy, shift, bytes}
use pollnet.Segs.{Seg, seg, at, skip, slot_end, place}
use pollnet.Wire.{
  swap16, swap32, ether_type, protocol, ip_src, ip_dst, port_src, port_dst, sequence_number,
  syn_flag, data_offset, total_length,
}

-- The private members. Addresses and ports of the filter are in network order, as stored.
pub record TcpStream : Type 0 where
  pub init_stream : Bool
  pub filter_src_ip : ℕ
  pub filter_dst_ip : ℕ
  pub filter_src_port : ℕ
  pub filter_dst_port : ℕ
  pub buf_seq : ℕ
  pub segs : List Seg
  pub recvbuf : Buf

-- `MAX_SEG`
abbrev pub max_seg : ℕ
max_seg = 5

-- `inet_pton` writes its result only if the text is an address.
abbrev pub or_kept : Option ℕ → ℕ → ℕ
or_kept none old = old
or_kept (some a) old = a

module _ (inet_pton : List ℕ → Option ℕ) where
  pub init_filter : TcpStream → List ℕ → ℕ → List ℕ → ℕ → TcpStream
  init_filter s src_ip src_port dst_ip dst_port = record s {
    filter_src_ip = or_kept (inet_pton src_ip) s.filter_src_ip;
    filter_dst_ip = or_kept (inet_pton dst_ip) s.filter_dst_ip;
    filter_src_port = swap16 src_port;
    filter_dst_port = swap16 dst_port;
  }

-- `filter && filter != value`
abbrev pub differs : ℕ → ℕ → Bool
differs filter value = not (filter == 0) && not (filter == value)

pub filter_packet : TcpStream → Buf → Bool
filter_packet s d =
    if not (ether_type d == 0x0008)
    then false
    else if not (protocol d == 6)
    then false
    else if differs s.filter_src_ip (ip_src d)
    then false
    else if differs s.filter_dst_ip (ip_dst d)
    then false
    else if differs s.filter_src_port (port_src d)
    then false
    else if differs s.filter_dst_port (port_dst d)
    then false
    else true

-- The sequence number of the packet's first byte: a SYN takes one number itself.
pub packet_seq : Buf → ℕ
packet_seq d =
    if syn_flag d == 0 then swap32 (sequence_number d) else add32 (swap32 (sequence_number d)) 1

-- A SYN, or the first packet, starts the stream anew.
pub sync : TcpStream → Buf → TcpStream
sync s d =
    if (syn_flag d == 0) && s.init_stream
    then s
    else record s { init_stream = true; buf_seq = packet_seq d; segs = seg 0 0 ∷ [] }

-- `loc`, `loc_end`, the offset of `new_data` in the packet, `new_size`.
pub record Cut : Type 0 where
  pub loc : ℕ
  pub loc_end : ℕ
  pub off : ℕ
  pub size : ℕ

-- Where the payload lies in the buffer, without what is already in order there. `diff` is
-- negative where the payload begins with such data: then `2 ^ 32 - diff` bytes are skipped.
pub cut : TcpStream → Buf → Cut
cut s d =
    let header_len = 20 + data_offset d * 4 in
    let new_size = sub32 (swap16 (total_length d)) header_len in
    let loc = sub32 (packet_seq d) s.buf_seq in
    let diff = sub32 loc (at s.segs 0).second in
    if is_neg32 diff
    then record {
      loc = sub32 loc diff;
      loc_end = add32 loc new_size;
      off = 14 + header_len + (2 ^ 32 - diff);
      size = add32 new_size diff;
    }
    else record { loc = loc; loc_end = add32 loc new_size; off = 14 + header_len; size = new_size }

-- `segs[0].first = a`
abbrev pub set_first : ℕ → List Seg → List Seg
set_first a segs = set segs 0 (seg a (at segs 0).second)

-- The new state, the bytes that the handler was called with, and the method's result.
abbrev pub Outcome : Type 0
Outcome = TcpStream × Option (List ℕ) × Bool

-- Without `WaitForResend` a gap drops all that is buffered.
pub drop_gap : Bool → ℕ → TcpStream → TcpStream
drop_gap wait loc s =
    if not wait && ltb (at s.segs 0).second loc
    then record s { segs = set s.segs 0 (seg loc loc) }
    else s

-- Move the live bytes to the front once half of the buffer has been passed on.
pub compact : ℕ → TcpStream → TcpStream
compact bufsize s =
    let diff = (at s.segs 0).first in
    let total_size = sub32 (at s.segs (length s.segs - 1)).second diff in
    if leb (bufsize / 2) diff
    then record s {
      recvbuf =
          if total_size == 0
          then s.recvbuf
          else memcpy s.recvbuf 0 (shift s.recvbuf diff) total_size;
      buf_seq = add32 s.buf_seq diff;
      segs = map (λ (t : Seg). seg (sub32 t.first diff) (sub32 t.second diff)) s.segs;
    }
    else s

-- The payload meets no segment, and there is no slot for one more.
pub is_full : Cut → List Seg → Bool
is_full c segs = (skip c.loc segs == slot_end c.loc c.loc_end segs) && (length segs == max_seg)

-- The bytes of the first segment in the buffer, which the handler is called with.
abbrev pub ready : TcpStream → List ℕ
ready s = let t = at s.segs 0 in bytes (shift s.recvbuf t.first) (sub32 t.second t.first)

module _ (handler : List ℕ → ℕ) where
  -- The payload is all that is buffered in order: the handler reads the packet itself, and what it
  -- leaves is copied.
  pub keep_packet : Cut → Buf → TcpStream → TcpStream
  keep_packet c d s =
      let new_data = shift d c.off in
      let remaining = handler (bytes new_data c.size) in
      let first = sub32 (at s.segs 0).second remaining in
      let s' = record s { segs = set_first first s.segs } in
      if remaining == 0 then s' else record s' {
        recvbuf = memcpy s'.recvbuf first (shift new_data (sub32 c.size remaining)) remaining;
      }

  pub keep_buffer : TcpStream → TcpStream
  keep_buffer s = record s {
    segs = set_first (sub32 (at s.segs 0).second (handler (ready s))) s.segs;
  }

module _ (bufsize : ℕ) (handler : List ℕ → ℕ) where
  -- Put the payload's segment in, and call the handler if bytes are ready.
  pub store : Cut → Buf → TcpStream → Outcome
  store c d s =
      let i = skip c.loc s.segs in
      let s' = record s { segs = place c.loc c.loc_end s.segs } in
      let t = at s'.segs 0 in
      let s'' = record s' { recvbuf = memcpy s'.recvbuf c.loc (shift d c.off) c.size } in
      if is_full c s.segs
      then (s, none, false)
      else if (t.first == c.loc) && (t.second == c.loc_end)
      then (compact bufsize (keep_packet handler c d s'), some (bytes (shift d c.off) c.size), true)
      else if not (i == 0)
      then (s'', none, false)
      else (compact bufsize (keep_buffer handler s''), some (ready s''), true)

  pub handle_packet : Bool → TcpStream → Buf → Outcome
  handle_packet wait s d =
      let s = sync s d in
      let c = cut s d in
      if (c.size == 0) || is_neg32 c.size
      then (s, none, false)
      else if ltb bufsize c.loc_end
      then (s, none, false)
      else store c d (drop_gap wait c.loc s)
