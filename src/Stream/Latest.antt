-- ===== src/Stream/Latest.antt =====
-- `handlePacket` without `WaitForResend`.
use pollnet.Base.{
  ℕ, ◌-◌, ◌≤◌, ◌<◌, ◌≡◌, refl, subst, true, false, Bool, List, [], ◌∷◌, arith, length, set, ltb,
  ◌==◌, ◌||◌, some, if◌then◌else◌,
}
use pollnet.Base.Word.{is_neg32, add32}
use pollnet.Base.Buf.{Buf, bytes}
use pollnet.Segs.{Seg, seg, at, skip, slot_end}
use pollnet.Segs.Order.{skip-meets}
use pollnet.Stream.{TcpStream, Cut, Outcome, sync, cut, drop_gap, is_full, store, handle_packet}
use pollnet.Stream.Cases.{store_cases, handle_taken}
use pollnet.Stream.Invariant.{IsLive, sync-IsLive, SizeOk, Room}
use pollnet.Stream.Content.{IsContent, Carries}
use pollnet.Stream.Position.{Delivers, position}
use pollnet.Stream.Delivery.{taken-Delivers}

-- A packet that meets the first segment always calls the handler.
store-some :
    {wait : Bool} {bufsize : ℕ} (handler : List ℕ → ℕ) (c : Cut) (d : Buf) (s : TcpStream)
    → Room wait bufsize c s
    → (at s.segs 0).second ≡ c.loc
    → (xs : List ℕ) × ((store bufsize handler c d s).1 ≡ some xs)
unfolding is_full
store-some {bufsize = bufsize} handler c d s r e =
    store_cases bufsize handler (λ o. (xs : List ℕ) × (o.1 ≡ some xs)) c d s
      (λ full. absurd (ground (arith, full, meet))) (λ free a b. (_, refl))
      (λ free later. absurd (later meet.0)) (λ free here. (_, refl))
  where
    meet : (skip c.loc s.segs ≡ 0) × (¬ (skip c.loc s.segs ≡ slot_end c.loc c.loc_end s.segs))
    meet = skip-meets bufsize c.loc c.loc_end s.segs r.tidy.order e (omega (arith, r))

-- Where the handler goes on after a packet that begins at `loc`: at `loc` if that leaves a gap.
abbrev pub resume : ℕ → TcpStream → ℕ
resume loc s = add32 s.buf_seq (if ltb (at s.segs 0).second loc then loc else (at s.segs 0).first)

set-at :
    (loc : ℕ) (segs : List Seg) → 0 < length segs → (at (set segs 0 (seg loc loc)) 0).first ≡ loc
set-at loc [] h = absurd (omega arith)
set-at loc (t ∷ r) h = refl

drop_gap-position :
    {bufsize : ℕ} (loc : ℕ) (s : TcpStream)
    → IsLive false bufsize s
    → position (drop_gap false loc s) ≡ resume loc s
unfolding drop_gap
drop_gap-position loc s v = ground (arith, set-at loc s.segs)

-- The result for a call that reached the handler.
abbrev Reached : (ℕ → ℕ) → (List ℕ → ℕ) → ℕ → Outcome → Type 0
Reached stream handler from o =
    (xs : List ℕ) × (o.1 ≡ some xs)
    × (o.2 ≡ true)
    × (xs ≡ bytes (λ k. stream (add32 from k)) (length xs))
    × (position o.0 ≡ add32 from (length xs - handler xs))
    × IsContent stream o.0

reached :
    (stream : ℕ → ℕ) (handler : List ℕ → ℕ) (s : TcpStream) (from : ℕ) (o : Outcome)
    → position s ≡ from
    → IsContent stream o.0
    → Delivers stream handler s o.0 o.1 o.2
    → (xs : List ℕ) × (o.1 ≡ some xs)
    → Reached stream handler from o
reached stream handler s from o p c v (xs, e) =
    let v' = subst (λ m. Delivers stream handler s o.0 m o.2) e v in
    subst (λ f. Reached stream handler f o) p (xs, e, v'.0, v'.1, v'.2, c)

-- Without `WaitForResend`, a packet with new data that fits in the buffer always reaches the
-- handler: it is called with the stream's bytes from its position on, or, if the packet leaves a
-- gap, from the packet's own first byte on; it then stands behind the bytes that it took.
pub handle_packet-Latest :
    (stream : ℕ → ℕ) {bufsize : ℕ} (z : SizeOk bufsize) (handler : List ℕ → ℕ)
    (bound : (xs : List ℕ) → handler xs ≤ length xs) (s : TcpStream) (d : Buf)
    → (s.init_stream ≡ true → IsLive false bufsize s × IsContent stream s)
    → Carries stream d
    → ((cut (sync s d) d).size == 0) || is_neg32 (cut (sync s d) d).size ≡ false
    → ltb bufsize (cut (sync s d) d).loc_end ≡ false
    → let from = resume (cut (sync s d) d).loc (sync s d) in
      let o = handle_packet bufsize handler false s d in
      (xs : List ℕ) × (o.1 ≡ some xs)
      × (o.2 ≡ true)
      × (xs ≡ bytes (λ k. stream (add32 from k)) (length xs))
      × (position o.0 ≡ add32 from (length xs - handler xs))
      × IsContent stream o.0
handle_packet-Latest stream {bufsize} z handler bound s d h w e k =
    let c = cut (sync s d) d in
    let s' = drop_gap false c.loc (sync s d) in
    let live = (sync-IsLive z s d (λ i. (h i).0)).0 in
    let done = taken-Delivers stream z handler bound s d h w e k in
    rw (handle_taken bufsize handler false s d e k) (
      reached stream handler s' (resume c.loc (sync s d)) (store bufsize handler c d s')
        (drop_gap-position c.loc (sync s d) live) done.1 done.2
        (store-some handler c d s' done.0 (done.0.meets refl)))
