-- ===== src/Stream/Position.antt =====
-- Where the handler is in the stream, and how a packet that is stored moves it on.
use pollnet.Base.{
  ℕ, ◌+◌, ◌-◌, ◌≤◌, ◌≡◌, refl, sym, subst, ap, ◌∙◌, true, false, Bool, List, [], ◌∷◌, arith, length,
  Option, none, some,
}
use pollnet.Base.Word.{add32, sub32}
use pollnet.Base.Buf.{Buf, shift, bytes, length-bytes, bytes-ext}
use pollnet.Segs.{Seg, at}
use pollnet.Segs.Order.{Ordered, place-head}
use pollnet.Segs.Shift.{shift_down}
use pollnet.Stream.{TcpStream, Cut, compact, keep_packet, keep_buffer, ready, store, set_first}
use pollnet.Stream.Window.{Fits}
use pollnet.Stream.Cases.{placed, copied, store_cases}
use pollnet.Stream.Invariant.{
  IsTidy, SizeOk, Room, Ordered-bounds, keep_packet-IsTidy, keep_buffer-IsTidy, placed-IsTidy,
}
use pollnet.Stream.Content.{
  IsContent, Carries, cut-byte, head-covers, copied-IsContent, compact-IsContent,
  keep_buffer-IsContent, keep_packet-IsContent,
}

-- The sequence number of the next byte that the handler has not taken.
abbrev pub position : TcpStream → ℕ
position s = add32 s.buf_seq (at s.segs 0).first

-- Nothing is passed on and the position stays; or the bytes of the stream from the position on are,
-- and it moves behind those that the handler takes.
abbrev pub Delivers :
    (ℕ → ℕ) → (List ℕ → ℕ) → TcpStream → TcpStream → Option (List ℕ) → Bool → Type 0
Delivers stream handler s s' none result = (result ≡ false) × (position s' ≡ position s)
Delivers stream handler s s' (some xs) result =
    (result ≡ true)
    × (xs ≡ bytes (λ k. stream (add32 (position s) k)) (length xs))
    × (position s' ≡ add32 (position s) (length xs - handler xs))

set_first-at :
    (limit a : ℕ) (segs : List Seg) → Ordered limit segs → (at (set_first a segs) 0).first ≡ a
set_first-at limit a [] h = absurd h
set_first-at limit a (t ∷ r) h = refl

shifted-at :
    (limit : ℕ) (segs : List Seg)
    → Ordered limit segs
    → (at (shift_down (at segs 0).first segs) 0).first ≡ sub32 (at segs 0).first (at segs 0).first
shifted-at limit [] h = absurd h
shifted-at limit (t ∷ r) h = refl

module _ {wait : Bool} {bufsize : ℕ} where
  compact-position :
      (s : TcpStream) → IsTidy wait bufsize s → position (compact bufsize s) ≡ position s
  unfolding compact
  compact-position s v = ground (arith, shifted-at bufsize s.segs v.order)

taken-bytes :
    (stream : ℕ → ℕ) {bufsize : ℕ} (c : Cut) (d : Buf) (s : TcpStream)
    → Fits bufsize s d c
    → Carries stream d
    → (at s.segs 0).first ≡ c.loc
    → let taken = bytes (shift d c.off) c.size in
      taken ≡ bytes (λ k. stream (add32 (position s) k)) (length taken)
taken-bytes stream c d s f w e =
    rw length-bytes (bytes-ext _ _ _ λ k l. cut-byte stream k f w l ∙ ap stream (omega arith))

module _ (stream : ℕ → ℕ) {wait : Bool} {bufsize : ℕ} (z : SizeOk bufsize) (handler : List ℕ → ℕ)
    (bound : (xs : List ℕ) → handler xs ≤ length xs) where
  keep_buffer-position :
      (s : TcpStream)
      → IsTidy wait bufsize s
      → position (keep_buffer handler s) ≡ add32 (position s) (length (ready s) - handler (ready s))
  unfolding keep_buffer
  keep_buffer-position s v = ground (
    arith,
    z,
    Ordered-bounds bufsize s.segs v.order,
    bound (ready s),
    length-bytes (shift s.recvbuf t.first) (sub32 t.second t.first),
    set_first-at bufsize (sub32 t.second (handler (ready s))) s.segs v.order,
  )
    where
      t : Seg
      t = at s.segs 0

  keep_packet-position :
      (c : Cut) (d : Buf) (s : TcpStream)
      → IsTidy wait bufsize s
      → (at s.segs 0).first + c.size ≡ (at s.segs 0).second
      → let taken = bytes (shift d c.off) c.size in
        position (keep_packet handler c d s) ≡ add32 (position s) (length taken - handler taken)
  unfolding keep_packet
  keep_packet-position c d s v e = ground (
    arith,
    z,
    Ordered-bounds bufsize s.segs v.order,
    bound taken,
    length-bytes (shift d c.off) c.size,
    set_first-at bufsize (sub32 (at s.segs 0).second (handler taken)) s.segs v.order,
  )
    where
      taken : List ℕ
      taken = bytes (shift d c.off) c.size

  ready-bytes :
      (s : TcpStream)
      → IsTidy wait bufsize s
      → IsContent stream s
      → ready s ≡ bytes (λ k. stream (add32 (position s) k)) (length (ready s))
  ready-bytes s v h = rw length-bytes (
      bytes-ext _ _ _ λ k l.
        h (t.first + k) (
          head-covers bufsize (t.first + k) s.segs v.order
            (ground (arith, z, Ordered-bounds bufsize s.segs v.order)))
        ∙ ap stream (omega arith))
    where
      t : Seg
      t = at s.segs 0

  -- What `store` does to the content and the position, with what it passes on.
  pub store-Delivers :
      (c : Cut) (d : Buf) (s : TcpStream)
      → Room wait bufsize c s
      → Fits bufsize s d c
      → Carries stream d
      → IsContent stream s
      → let o = store bufsize handler c d s in
        IsContent stream o.0 × Delivers stream handler s o.0 o.1 o.2
  store-Delivers c d s r f w h =
      store_cases bufsize handler
        (λ o. IsContent stream o.0 × Delivers stream handler s o.0 o.1 o.2) c d s
        (λ full. (h, (refl, refl)))
        (λ free e k.
          let v = placed-IsTidy z handler bound c s s.recvbuf r free in
          let size : c.size ≤ (at (placed c s).segs 0).second = omega (arith, r) in
          let v' = keep_packet-IsTidy z handler bound c d (placed c s) v size in
          (
            compact-IsContent stream _ z.at_most v'
                (keep_packet-IsContent stream handler bound c d s r f z.at_most w h k v),
            (
              refl,
              taken-bytes stream c d s f w (sym first ∙ e),
              compact-position _ v'
                  ∙ keep_packet-position c d (placed c s) v (omega (arith, r, e, k))
                  ∙ moved (
                      length (bytes (shift d c.off) c.size)
                      - handler (bytes (shift d c.off) c.size)),
            ),
          ))
        (λ free later. (copied-IsContent stream c d s r f w h, (refl, pos)))
        (λ free here.
          let v = placed-IsTidy z handler bound c s _ r free in
          let h' = copied-IsContent stream c d s r f w h in
          let v' = keep_buffer-IsTidy z handler bound (copied c d s) v in
          (
            compact-IsContent stream _ z.at_most v'
                (keep_buffer-IsContent stream handler bound (copied c d s) z.at_most v h'),
            (
              refl,
              subst
                  (λ x.
                    ready (copied c d s)
                    ≡ bytes (λ k. stream (add32 x k)) (length (ready (copied c d s))))
                  pos (ready-bytes (copied c d s) v h'),
              compact-position _ v'
                  ∙ keep_buffer-position (copied c d s) v
                  ∙ moved (length (ready (copied c d s)) - handler (ready (copied c d s))),
            ),
          ))
    where
      first : (at (placed c s).segs 0).first ≡ (at s.segs 0).first
      first = (place-head bufsize c.loc c.loc_end s.segs r.tidy.order r.ahead (omega (arith, r))).0

      pos : position (placed c s) ≡ position s
      pos = ap (add32 s.buf_seq) first

      moved : (n : ℕ) → add32 (position (placed c s)) n ≡ add32 (position s) n
      moved n = ap (λ x. add32 x n) pos
