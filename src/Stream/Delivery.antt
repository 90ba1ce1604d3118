-- ===== src/Stream/Delivery.antt =====
-- What `handlePacket` passes on, against the TCP stream.
use pollnet.Base.{
  ℕ, ◌≤◌, ◌≡◌, refl, true, false, Bool, List, [], ◌∷◌, arith, length, set, ltb, ◌==◌, ◌||◌,
}
use pollnet.Base.Word.{is_neg32}
use pollnet.Base.Buf.{Buf}
use pollnet.Segs.{Seg, seg, at}
use pollnet.Segs.Cover.{covers}
use pollnet.Stream.{TcpStream, Cut, sync, cut, drop_gap, store, handle_packet}
use pollnet.Stream.Window.{Fits, cut-Fits}
use pollnet.Stream.Cases.{handle_cases}
use pollnet.Stream.Invariant.{
  IsTidy, IsLive, SizeOk, Room, Ordered-bounds, sync-IsLive, drop_gap-Room,
}
use pollnet.Stream.Content.{IsContent, Carries}
use pollnet.Stream.Position.{Delivers, store-Delivers}

-- Nothing is covered right after a start, and nothing more after the drop of a gap.
sync-IsContent :
    (stream : ℕ → ℕ) (s : TcpStream) (d : Buf)
    → (s.init_stream ≡ true → IsContent stream s)
    → IsContent stream (sync s d)
unfolding sync
sync-IsContent stream s d h p e = ground (arith, λ (i : s.init_stream ≡ true). h i p)

alone-covers :
    (loc p : ℕ) (segs : List Seg) → length segs ≡ 1 → covers (set segs 0 (seg loc loc)) p ≡ false
alone-covers loc p [] e = absurd (omega arith)
alone-covers loc p (t ∷ []) e = ground arith
alone-covers loc p (t ∷ u ∷ r) e = absurd (omega arith)

drop_gap-IsContent :
    (stream : ℕ → ℕ) {wait : Bool} {bufsize : ℕ} (loc : ℕ) (s : TcpStream)
    → IsTidy wait bufsize s
    → IsContent stream s
    → IsContent stream (drop_gap wait loc s)
unfolding drop_gap
drop_gap-IsContent stream loc s v h p e = ground (arith, h p, alone-covers loc p s.segs)

drop_gap-Fits :
    (wait : Bool) (loc : ℕ) {bufsize : ℕ} {s : TcpStream} {d : Buf} {c : Cut}
    → Fits bufsize s d c
    → (at (drop_gap wait loc s).segs 0).second ≤ c.loc
    → Fits bufsize (drop_gap wait loc s) d c
unfolding drop_gap
drop_gap-Fits wait loc f h = ground arith

module _ (stream : ℕ → ℕ) {wait : Bool} {bufsize : ℕ} (z : SizeOk bufsize) (handler : List ℕ → ℕ)
    (bound : (xs : List ℕ) → handler xs ≤ length xs) (s : TcpStream) (d : Buf)
    (h : s.init_stream ≡ true → IsLive wait bufsize s × IsContent stream s)
    (w : Carries stream d) where
  -- A packet that passes the guards, stored after the drop of a gap.
  pub taken-Delivers :
      let c = cut (sync s d) d in
      let s' = drop_gap wait c.loc (sync s d) in
      let o = store bufsize handler c d s' in
      (c.size == 0) || is_neg32 c.size ≡ false
      → ltb bufsize c.loc_end ≡ false
      → Room wait bufsize c s' × IsContent stream o.0 × Delivers stream handler s' o.0 o.1 o.2
  taken-Delivers e k =
      let live = (sync-IsLive z s d (λ i. (h i).0)).0 in
      let content = sync-IsContent stream s d (λ i. (h i).1) in
      let c = cut (sync s d) d in
      let s' = drop_gap wait c.loc (sync s d) in
      let f =
        cut-Fits bufsize (sync s d) d z.at_most live.tidy.seq_lt
          (Ordered-bounds bufsize (sync s d).segs live.tidy.order).1 e k in
      let r = drop_gap-Room z handler bound (sync s d) d c live f in
      let f' = drop_gap-Fits wait c.loc f r.ahead in
      let done =
        store-Delivers stream z handler bound c d s' r f' w
          (drop_gap-IsContent stream c.loc (sync s d) live.tidy content) in
      (r, done.0, done.1)

-- With `WaitForResend`, `handlePacket` keeps the buffer's live bytes those of the TCP stream. If it
-- calls the handler, it returns true and passes on exactly the stream's bytes from the handler's
-- position on, which then moves by as many as the handler takes; if it does not, it returns false
-- and the position stays.
pub handle_packet-Delivers :
    (stream : ℕ → ℕ) {bufsize : ℕ} (z : SizeOk bufsize) (handler : List ℕ → ℕ)
    (bound : (xs : List ℕ) → handler xs ≤ length xs) (s : TcpStream) (d : Buf)
    → (s.init_stream ≡ true → IsLive true bufsize s × IsContent stream s)
    → Carries stream d
    → let o = handle_packet bufsize handler true s d in
      IsContent stream o.0 × Delivers stream handler (sync s d) o.0 o.1 o.2
unfolding drop_gap
handle_packet-Delivers stream {bufsize} z handler bound s d h w =
    handle_cases bufsize handler
      (λ o. IsContent stream o.0 × Delivers stream handler (sync s d) o.0 o.1 o.2) true s d
      (sync-IsContent stream s d (λ i. (h i).1), (refl, refl))
      (λ e k. let done = taken-Delivers stream z handler bound s d h w e k in (done.1, done.2))
