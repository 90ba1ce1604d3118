-- ===== src/Stream/Content.antt =====
-- The bytes that `handlePacket` buffers, against those of the TCP stream.
use pollnet.Base.{
  ℕ, ◌+◌, ◌-◌, ◌^◌, ◌≤◌, ◌<◌, ◌≡◌, ◌⊎◌, ap, ◌∙◌, inl, inr, true, Bool, List, [], ◌∷◌, arith, length,
  ◌==◌, if◌then◌else◌, Bool-cases,
}
use pollnet.Base.Word.{add32, sub32}
use pollnet.Base.Buf.{Buf, memcpy, shift, bytes, length-bytes, memcpy-in, memcpy-out}
use pollnet.Wire.{swap16, total_length}
use pollnet.Segs.{Seg, at}
use pollnet.Segs.Order.{Ordered, Apart-le}
use pollnet.Segs.Cover.{within, covers, covers-place-Ordered}
use pollnet.Segs.Shift.{shift_down, covers-shift_down, covers-Apart, last_end, covers-last_end}
use pollnet.Stream.{TcpStream, Cut, compact, keep_packet, keep_buffer, ready, set_first, packet_seq}
use pollnet.Stream.Window.{Fits, payload}
use pollnet.Stream.Cases.{placed, copied}
use pollnet.Stream.Invariant.{IsTidy, Room, Ordered-bounds}

-- The stream is a function from sequence numbers to bytes. What the segments cover of the buffer
-- is its bytes.
abbrev pub IsContent : (ℕ → ℕ) → TcpStream → Type 0
IsContent stream s = (p : ℕ) → covers s.segs p ≡ true → s.recvbuf p ≡ stream (add32 s.buf_seq p)

-- The payload of a packet, as long as its IP header says, is part of the stream.
abbrev pub Carries : (ℕ → ℕ) → Buf → Type 0
Carries stream d =
    (k : ℕ)
    → payload d + k < 14 + swap16 (total_length d)
    → d (payload d + k) ≡ stream (add32 (packet_seq d) k)

-- The byte at offset `k` of a cut stands at `loc + k` of the buffer's numbering.
pub cut-byte :
    (stream : ℕ → ℕ) {bufsize : ℕ} {s : TcpStream} {d : Buf} {c : Cut} (k : ℕ)
    → Fits bufsize s d c
    → Carries stream d
    → k < c.size
    → d (c.off + k) ≡ stream (add32 s.buf_seq (c.loc + k))
cut-byte stream {s = s} {d = d} {c = c} k f w h =
    let e : c.off + k ≡ payload d + (c.off - payload d + k) = omega (arith, f) in
    ap d e ∙ w (c.off - payload d + k) (omega (arith, f)) ∙ ap stream (omega (arith, f))

-- The bytes that a compaction leaves in the buffer.
moved :
    (stream : ℕ → ℕ) (bufsize buf_seq p : ℕ) (buf : Buf) (segs : List Seg)
    → let diff = (at segs 0).first in
      let total_size = sub32 (last_end segs) diff in
      bufsize ≤ 2 ^ 30
      → Ordered bufsize segs
      → ((p : ℕ) → covers segs p ≡ true → buf p ≡ stream (add32 buf_seq p))
      → covers (shift_down diff segs) p ≡ true
      → (if total_size == 0 then buf else memcpy buf 0 (shift buf diff) total_size) p
        ≡ stream (add32 (add32 buf_seq diff) p)
moved stream bufsize buf_seq p buf [] z h c e = cc
moved stream bufsize buf_seq p buf (t ∷ r) z h c e = ground (
  arith,
  Apart-le t.second bufsize r h.1,
  covers-shift_down t.first t.second bufsize p r h.1,
  covers-last_end bufsize (t.first + p) t r h.1,
  memcpy-in buf 0 (shift buf t.first) (sub32 (last_end (t ∷ r)) t.first) p,
  c (t.first + p),
)

-- Setting the first segment's start: what is covered then.
pub set_first-covers :
    (limit a p : ℕ) (segs : List Seg)
    → Ordered limit segs
    → covers (set_first a segs) p ≡ true
    → (within a (at segs 0).second p ≡ true) ⊎ ((covers segs p ≡ true) × ((at segs 0).second < p))
set_first-covers limit a p [] h e = cc
set_first-covers limit a p (t ∷ r) h e = ground (arith, covers-Apart t.second limit p r h.1)

pub head-covers :
    (limit p : ℕ) (segs : List Seg)
    → Ordered limit segs
    → within (at segs 0).first (at segs 0).second p ≡ true
    → covers segs p ≡ true
head-covers limit p [] h e = absurd h
head-covers limit p (t ∷ r) h e = ground arith

module _ (stream : ℕ → ℕ) {wait : Bool} {bufsize : ℕ} where
  pub copied-IsContent :
      (c : Cut) (d : Buf) (s : TcpStream)
      → Room wait bufsize c s
      → Fits bufsize s d c
      → Carries stream d
      → IsContent stream s
      → IsContent stream (copied c d s)
  copied-IsContent c d s r f w h p e = elim (Bool-cases (within c.loc (c.loc + c.size) p)) [
    | inl i ↦
        memcpy-in s.recvbuf c.loc (shift d c.off) c.size p i
        ∙ cut-byte stream (p - c.loc) f w (ground arith)
        ∙ ap (λ x. stream (add32 s.buf_seq x)) (ground arith)
    | inr o ↦
        memcpy-out s.recvbuf c.loc (shift d c.off) c.size p o
        ∙ h p
            (ground (arith, r, covers-place-Ordered bufsize c.loc c.loc_end s.segs p r.tidy.order))
  ]

  -- Moving the segments and their bytes down keeps every byte's number.
  pub compact-IsContent :
      (s : TcpStream)
      → bufsize ≤ 2 ^ 30
      → IsTidy wait bufsize s
      → IsContent stream s
      → IsContent stream (compact bufsize s)
  unfolding compact
  compact-IsContent s z v h p e =
      ground (arith, moved stream bufsize s.buf_seq p s.recvbuf s.segs z v.order h, h p)

-- The tail that the handler leaves of a packet, `remaining` bytes up to `loc_end`.
module _ (stream : ℕ → ℕ) {wait : Bool} {bufsize : ℕ} (c : Cut) (d : Buf) (s : TcpStream)
    (r : Room wait bufsize c s) (f : Fits bufsize s d c) (z : bufsize ≤ 2 ^ 30)
    (w : Carries stream d) (h : IsContent stream s) (remaining p : ℕ)
    (fewer : remaining ≤ c.size) where
  tail : Buf
  tail =
      memcpy s.recvbuf (sub32 c.loc_end remaining) (shift (shift d c.off) (sub32 c.size remaining))
        remaining

  tail-in :
      within (sub32 c.loc_end remaining) c.loc_end p ≡ true → tail p ≡ stream (add32 s.buf_seq p)
  unfolding tail
  tail-in e =
      memcpy-in s.recvbuf (sub32 c.loc_end remaining) _ remaining p (ground arith)
      ∙ ap d (ground arith)
      ∙ cut-byte stream (c.size - remaining + (p - (c.loc_end - remaining))) f w (ground arith)
      ∙ ap (λ x. stream (add32 s.buf_seq x)) (ground arith)

  tail-out : c.loc_end < p → tail p ≡ s.recvbuf p
  unfolding tail
  tail-out e = memcpy-out s.recvbuf (sub32 c.loc_end remaining) _ remaining p (ground arith)

  behind :
      covers (placed c s).segs p ≡ true → c.loc_end < p → s.recvbuf p ≡ stream (add32 s.buf_seq p)
  behind e l =
      h p (ground (arith, r, covers-place-Ordered bufsize c.loc c.loc_end s.segs p r.tidy.order))

module _ (stream : ℕ → ℕ) {wait : Bool} {bufsize : ℕ} (handler : List ℕ → ℕ)
    (bound : (xs : List ℕ) → handler xs ≤ length xs) where
  pub keep_buffer-IsContent :
      (s : TcpStream)
      → bufsize ≤ 2 ^ 30
      → IsTidy wait bufsize s
      → IsContent stream s
      → IsContent stream (keep_buffer handler s)
  unfolding keep_buffer
  keep_buffer-IsContent s z v h p e = h p (
      ground (
        arith,
        Ordered-bounds bufsize s.segs v.order,
        bound (ready s),
        length-bytes (shift s.recvbuf t.first) (sub32 t.second t.first),
        set_first-covers bufsize (sub32 t.second (handler (ready s))) p s.segs v.order e,
        head-covers bufsize p s.segs v.order,
      ))
    where
      t : Seg
      t = at s.segs 0

  -- The tail that the handler leaves of a packet is copied to its place, and no more is covered there.
  pub keep_packet-IsContent :
      (c : Cut) (d : Buf) (s : TcpStream)
      → Room wait bufsize c s
      → Fits bufsize s d c
      → bufsize ≤ 2 ^ 30
      → Carries stream d
      → IsContent stream s
      → (at (placed c s).segs 0).second ≡ c.loc_end
      → IsTidy wait bufsize (placed c s)
      → IsContent stream (keep_packet handler c d (placed c s))
  unfolding keep_packet tail
  keep_packet-IsContent c d s r f z w h k v p e = ground (
    arith,
    fewer,
    set_first-covers bufsize (sub32 (at (placed c s).segs 0).second (handler taken)) p
        (placed c s).segs v.order,
    tail-in stream c d s r f z w h (handler taken) p fewer,
    tail-out stream c d s r f z w h (handler taken) p fewer,
    behind stream c d s r f z w h (handler taken) p fewer,
  )
    where
      taken : List ℕ
      taken = bytes (shift d c.off) c.size

      fewer : handler taken ≤ c.size
      fewer = omega (arith, bound taken, length-bytes (shift d c.off) c.size)
