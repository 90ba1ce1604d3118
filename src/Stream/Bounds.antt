-- ===== src/Stream/Bounds.antt =====
-- What `handlePacket` writes and copies in `recvbuf[BUFSIZE]`.
use pollnet.Base.{
  ℕ, ◌/◌, ◌%◌, ◌^◌, ◌≤◌, ◌≡◌, refl, ap, ◌∙◌, true, Bool, List, arith, length, [], ◌∷◌,
}
use pollnet.Base.Word.{sub32}
use pollnet.Base.Buf.{Buf, shift, bytes, memcpy-out, length-bytes}
use pollnet.Segs.{Seg, at}
use pollnet.Segs.Order.{Ordered}
use pollnet.Segs.Shift.{last_end, covers-last_end}
use pollnet.Stream.{
  TcpStream, Cut, sync, cut, drop_gap, compact, keep_packet, keep_buffer, handle_packet, store,
}
use pollnet.Stream.Cases.{placed, copied, store_cases, handle_cases}
use pollnet.Stream.Invariant.{
  IsTidy, IsLive, SizeOk, Room, Ordered-bounds, sync-IsLive, keep_packet-IsTidy, keep_buffer-IsTidy,
  placed-IsTidy, drop_gap-Room,
}
use pollnet.Stream.Window.{cut-Fits}

last_end-le :
    (limit : ℕ) (segs : List Seg)
    → Ordered limit segs
    → ((at segs 0).second ≤ last_end segs) × (last_end segs ≤ limit)
last_end-le limit [] h = absurd h
last_end-le limit (t ∷ r) h = let l = covers-last_end limit 0 t r h.1 in (l.0, l.1)

keep_buffer-out :
    (handler : List ℕ → ℕ) (s : TcpStream) (p : ℕ) → (keep_buffer handler s).recvbuf p ≡ s.recvbuf p
unfolding keep_buffer
keep_buffer-out handler s p = refl

drop_gap-recvbuf :
    (wait : Bool) (loc : ℕ) (s : TcpStream) → (drop_gap wait loc s).recvbuf ≡ s.recvbuf
unfolding drop_gap
drop_gap-recvbuf wait loc s = ground arith

sync-recvbuf : (s : TcpStream) (d : Buf) → (sync s d).recvbuf ≡ s.recvbuf
unfolding sync
sync-recvbuf s d = ground arith

module _ {wait : Bool} {bufsize : ℕ} where
  compact-out :
      (s : TcpStream) (p : ℕ)
      → bufsize ≤ 2 ^ 30
      → IsTidy wait bufsize s
      → bufsize ≤ p
      → (compact bufsize s).recvbuf p ≡ s.recvbuf p
  unfolding compact
  compact-out s p z v h = ground (
    arith,
    last_end-le bufsize s.segs v.order,
    Ordered-bounds bufsize s.segs v.order,
    memcpy-out s.recvbuf 0 (shift s.recvbuf diff) (sub32 (last_end s.segs) diff) p,
  )
    where
      diff : ℕ
      diff = (at s.segs 0).first

  -- The regions of the compaction's `memcpy` do not overlap, if the buffer's size is even.
  pub compact_disjoint :
      (s : TcpStream)
      → bufsize ≤ 2 ^ 30
      → bufsize % 2 ≡ 0
      → IsTidy wait bufsize s
      → bufsize / 2 ≤ (at s.segs 0).first
      → sub32 (last_end s.segs) (at s.segs 0).first ≤ (at s.segs 0).first
  compact_disjoint s z e v h =
      omega (arith, last_end-le bufsize s.segs v.order, Ordered-bounds bufsize s.segs v.order)

module _ {wait : Bool} {bufsize : ℕ} (z : SizeOk bufsize) (handler : List ℕ → ℕ)
    (bound : (xs : List ℕ) → handler xs ≤ length xs) where
  keep_packet-out :
      (c : Cut) (d : Buf) (s : TcpStream) (p : ℕ)
      → IsTidy wait bufsize s
      → c.size ≤ (at s.segs 0).second
      → bufsize ≤ p
      → (keep_packet handler c d s).recvbuf p ≡ s.recvbuf p
  unfolding keep_packet
  keep_packet-out c d s p v h k = ground (
    arith,
    z,
    Ordered-bounds bufsize s.segs v.order,
    bound taken,
    length-bytes (shift d c.off) c.size,
    memcpy-out s.recvbuf (sub32 (at s.segs 0).second (handler taken))
        (shift (shift d c.off) (sub32 c.size (handler taken))) (handler taken) p,
  )
    where
      taken : List ℕ
      taken = bytes (shift d c.off) c.size

  store-out :
      (c : Cut) (d : Buf) (s : TcpStream) (p : ℕ)
      → Room wait bufsize c s
      → bufsize ≤ p
      → (store bufsize handler c d s).0.recvbuf p ≡ s.recvbuf p
  store-out c d s p r h =
      store_cases bufsize handler (λ o. o.0.recvbuf p ≡ s.recvbuf p) c d s (λ full. refl)
        (λ free e k.
          let v = placed-IsTidy z handler bound c s s.recvbuf r free in
          let size : c.size ≤ (at (placed c s).segs 0).second = omega (arith, r) in
          compact-out (keep_packet handler c d (placed c s)) p z.at_most
            (keep_packet-IsTidy z handler bound c d (placed c s) v size) h
          ∙ keep_packet-out c d (placed c s) p v size h)
        (λ free later. out)
        (λ free here.
          compact-out (keep_buffer handler (copied c d s)) p z.at_most
            (keep_buffer-IsTidy z handler bound (copied c d s)
              (placed-IsTidy z handler bound c s _ r free))
            h
          ∙ keep_buffer-out handler (copied c d s) p
          ∙ out)
    where
      out : (copied c d s).recvbuf p ≡ s.recvbuf p
      out = memcpy-out s.recvbuf c.loc (shift d c.off) c.size p (ground (arith, r))

  -- `handlePacket` changes no byte at or past the buffer's size, whatever the packet says.
  pub handle_packet-recvbuf :
      (s : TcpStream) (d : Buf) (p : ℕ)
      → (s.init_stream ≡ true → IsLive wait bufsize s)
      → bufsize ≤ p
      → (handle_packet bufsize handler wait s d).0.recvbuf p ≡ s.recvbuf p
  handle_packet-recvbuf s d p v h =
      let live = (sync-IsLive z s d v).0 in
      let same = ap (λ b. b p) (sync-recvbuf s d) in
      handle_cases bufsize handler (λ o. o.0.recvbuf p ≡ s.recvbuf p) wait s d same
        λ e k.
          let c = cut (sync s d) d in
          store-out c d (drop_gap wait c.loc (sync s d)) p
            (drop_gap-Room z handler bound (sync s d) d c live (
              cut-Fits bufsize (sync s d) d z.at_most live.tidy.seq_lt
                (Ordered-bounds bufsize (sync s d).segs live.tidy.order).1 e k))
            h
          ∙ ap (λ b. b p) (drop_gap-recvbuf wait c.loc (sync s d))
          ∙ same
