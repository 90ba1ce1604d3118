-- ===== src/Stream/Invariant.antt =====
-- The well-formedness of `TcpStream`.
use pollnet.Base.{
  ℕ, ◌+◌, ◌/◌, ◌^◌, ◌≤◌, ◌<◌, ◌≡◌, ◌⊎◌, true, false, Bool, List, [], ◌∷◌, arith, length, set,
}
use pollnet.Base.Word.{sub32}
use pollnet.Base.Buf.{Buf, shift, bytes, length-bytes}
use pollnet.Segs.{Seg, seg, at, skip, slot_end, place}
use pollnet.Segs.Order.{Ordered, Apart-le, place-Ordered, place-head, length-place, skip-meets}
use pollnet.Segs.Shift.{shift_down, shift_down-Apart, length-shift_down}
use pollnet.Stream.{
  TcpStream, Cut, max_seg, sync, cut, drop_gap, compact, keep_packet, keep_buffer, ready, is_full,
  store, handle_packet, set_first,
}
use pollnet.Stream.Cases.{placed, copied, store_cases, handle_cases}
use pollnet.Stream.Window.{Fits, cut-Fits, packet_seq-lt}

module _ (wait : Bool) (bufsize : ℕ) where
  -- Segments in order and apart within the buffer, at most `MAX_SEG`, and one alone if the stream
  -- does not wait for what is sent again.
  pub record IsTidy (s : TcpStream) : Type 0 where
    pub seq_lt : s.buf_seq < 2 ^ 32
    pub order : Ordered bufsize s.segs
    pub count : length s.segs ≤ max_seg
    pub single : wait ≡ false → length s.segs ≡ 1

  -- Between calls less than half of the buffer is already passed on.
  pub record IsLive (s : TcpStream) : Type 0 where
    pub tidy : IsTidy s
    pub front : (at s.segs 0).first < bufsize / 2

-- The sizes for which the arithmetic does not overflow; the default is 2 ^ 20.
pub record SizeOk (bufsize : ℕ) : Type 0 where
  pub at_least : 2 ≤ bufsize
  pub at_most : bufsize ≤ 2 ^ 30

pub compact-segs :
    (bufsize : ℕ) (segs : List Seg)
    → bufsize ≤ 2 ^ 30
    → Ordered bufsize segs
    → let segs' = shift_down (at segs 0).first segs in
      Ordered bufsize segs' × ((at segs' 0).first ≡ 0) × (length segs' ≡ length segs)
compact-segs bufsize [] z h = absurd h
compact-segs bufsize (t ∷ r) z h = ground (
  arith,
  Apart-le t.second bufsize r h.1,
  shift_down-Apart t.first t.second bufsize r h.1,
  length-shift_down t.first r,
)

pub Ordered-length : (bufsize : ℕ) (segs : List Seg) → Ordered bufsize segs → 0 < length segs
Ordered-length bufsize [] h = absurd h
Ordered-length bufsize (t ∷ r) h = omega arith

pub set_first-Ordered :
    (bufsize a : ℕ) (segs : List Seg)
    → Ordered bufsize segs
    → a ≤ (at segs 0).second
    → Ordered bufsize (set_first a segs) × (length (set_first a segs) ≡ length segs)
set_first-Ordered bufsize a [] h k = absurd h
set_first-Ordered bufsize a (t ∷ r) h k = ground arith

pub Ordered-bounds :
    (bufsize : ℕ) (segs : List Seg)
    → Ordered bufsize segs
    → ((at segs 0).first ≤ (at segs 0).second) × ((at segs 0).second ≤ bufsize)
Ordered-bounds bufsize [] h = absurd h
Ordered-bounds bufsize (t ∷ r) h = (h.0, Apart-le t.second bufsize r h.1)

module _ {wait : Bool} {bufsize : ℕ} (z : SizeOk bufsize) where
  pub sync-IsLive :
      (s : TcpStream) (d : Buf)
      → (s.init_stream ≡ true → IsLive wait bufsize s)
      → IsLive wait bufsize (sync s d) × ((sync s d).init_stream ≡ true)
  unfolding sync
  sync-IsLive s d h = ground (arith, packet_seq-lt d)

  compact-IsLive : (s : TcpStream) → IsTidy wait bufsize s → IsLive wait bufsize (compact bufsize s)
  unfolding compact
  compact-IsLive s v = ground (arith, compact-segs bufsize s.segs z.at_most v.order)

-- What the guards of `handlePacket` and the drop of a gap leave `store` with.
is_full-eq :
    (c : Cut) (segs : List Seg)
    → is_full c segs ≡ true
    → skip c.loc segs ≡ slot_end c.loc c.loc_end segs
unfolding is_full
is_full-eq c segs h = ground arith

-- One segment alone, empty at `loc`.
drop-Ordered :
    (bufsize loc : ℕ) (segs : List Seg)
    → Ordered bufsize segs
    → loc ≤ bufsize
    → length segs ≡ 1
    → let segs' = set segs 0 (seg loc loc) in
      Ordered bufsize segs' × (length segs' ≡ 1) × ((at segs' 0).second ≡ loc)
drop-Ordered bufsize loc [] h k e = absurd h
drop-Ordered bufsize loc (t ∷ []) h k e = ground arith
drop-Ordered bufsize loc (t ∷ u ∷ r) h k e = absurd (omega arith)

pub record Room (wait : Bool) (bufsize : ℕ) (c : Cut) (s : TcpStream) : Type 0 where
  pub tidy : IsTidy wait bufsize s
  pub front : ((at s.segs 0).first < bufsize / 2) ⊎ ((at s.segs 0).second ≡ c.loc)
  pub ahead : (at s.segs 0).second ≤ c.loc
  pub ends : c.loc + c.size ≡ c.loc_end
  pub some_data : 0 < c.size
  pub inside : c.loc_end ≤ bufsize
  pub meets : wait ≡ false → (at s.segs 0).second ≡ c.loc

module _ {wait : Bool} {bufsize : ℕ} (z : SizeOk bufsize) (handler : List ℕ → ℕ)
    (bound : (xs : List ℕ) → handler xs ≤ length xs) where
  pub keep_buffer-IsTidy :
      (s : TcpStream) → IsTidy wait bufsize s → IsTidy wait bufsize (keep_buffer handler s)
  unfolding keep_buffer
  keep_buffer-IsTidy s v = ground (
    arith,
    z,
    Ordered-bounds bufsize s.segs v.order,
    bound (ready s),
    length-bytes (shift s.recvbuf t.first) (sub32 t.second t.first),
    set_first-Ordered bufsize (sub32 t.second (handler (ready s))) s.segs v.order,
  )
    where
      t : Seg
      t = at s.segs 0

  pub keep_packet-IsTidy :
      (c : Cut) (d : Buf) (s : TcpStream)
      → IsTidy wait bufsize s
      → c.size ≤ (at s.segs 0).second
      → IsTidy wait bufsize (keep_packet handler c d s)
  unfolding keep_packet
  keep_packet-IsTidy c d s v h = ground (
    arith,
    z,
    Ordered-bounds bufsize s.segs v.order,
    bound taken,
    length-bytes (shift d c.off) c.size,
    set_first-Ordered bufsize (sub32 (at s.segs 0).second (handler taken)) s.segs v.order,
  )
    where
      taken : List ℕ
      taken = bytes (shift d c.off) c.size

  pub placed-IsTidy :
      (c : Cut) (s : TcpStream) (buf : Buf)
      → Room wait bufsize c s
      → is_full c s.segs ≡ false
      → IsTidy wait bufsize (record s { segs = place c.loc c.loc_end s.segs; recvbuf = buf })
  unfolding is_full
  placed-IsTidy c s buf r free = ground (
    arith,
    place-Ordered bufsize c.loc c.loc_end s.segs r.tidy.order,
    length-place c.loc c.loc_end s.segs,
    skip-meets bufsize c.loc c.loc_end s.segs r.tidy.order,
    Ordered-length bufsize (place c.loc c.loc_end s.segs),
  )

  store-IsLive :
      (c : Cut) (d : Buf) (s : TcpStream)
      → Room wait bufsize c s
      → IsLive wait bufsize (store bufsize handler c d s).0
  store-IsLive c d s r =
      store_cases bufsize handler (λ o. IsLive wait bufsize o.0) c d s
        (λ full. record { tidy = r.tidy; front = stay full })
        (λ free _ e. compact-IsLive z (keep_packet handler c d (placed c s)) (
          keep_packet-IsTidy c d (placed c s) (placed-IsTidy c s s.recvbuf r free)
            (omega (arith, r))))
        (λ free later. record {
          tidy = placed-IsTidy c s _ r free;
          front = ground (
            arith,
            place-head bufsize c.loc c.loc_end s.segs r.tidy.order,
            skip-meets bufsize c.loc c.loc_end s.segs r.tidy.order,
          );
        })
        (λ free _.
          compact-IsLive z (keep_buffer handler (copied c d s))
            (keep_buffer-IsTidy (copied c d s) (placed-IsTidy c s _ r free)))
    where
      stay : is_full c s.segs ≡ true → (at s.segs 0).first < bufsize / 2
      stay full =
          ground (
            arith,
            is_full-eq c s.segs full,
            skip-meets bufsize c.loc c.loc_end s.segs r.tidy.order,
          )

  pub drop_gap-Room :
      (s : TcpStream) (d : Buf) (c : Cut)
      → IsLive wait bufsize s
      → Fits bufsize s d c
      → Room wait bufsize c (drop_gap wait c.loc s)
  unfolding drop_gap
  drop_gap-Room s d c v f = ground (arith, drop-Ordered bufsize c.loc s.segs v.tidy.order)

  -- `handlePacket` keeps the segments in order, apart, inside the buffer and at most five, keeps the
  -- first one's start below half of the buffer.
  pub handle_packet-IsLive :
      (s : TcpStream) (d : Buf)
      → (s.init_stream ≡ true → IsLive wait bufsize s)
      → IsLive wait bufsize (handle_packet bufsize handler wait s d).0
  handle_packet-IsLive s d v =
      let live = (sync-IsLive z s d v).0 in
      handle_cases bufsize handler (λ o. IsLive wait bufsize o.0) wait s d live
        λ e k.
          let c = cut (sync s d) d in
          store-IsLive c d (drop_gap wait c.loc (sync s d)) (
            drop_gap-Room (sync s d) d c live (
              cut-Fits bufsize (sync s d) d z.at_most live.tidy.seq_lt
                (Ordered-bounds bufsize (sync s d).segs live.tidy.order).1 e k))
