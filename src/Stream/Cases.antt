-- ===== src/Stream/Cases.antt =====
-- The branches of `store` and `handlePacket`, each with what its tests have found.
use pollnet.Base.{
  ℕ, ◌≡◌, ◌≢◌, inl, inr, true, false, Bool, List, none, some, arith, ltb, ◌==◌, ◌&&◌, ◌||◌,
  Bool-cases,
}
use pollnet.Base.Word.{is_neg32}
use pollnet.Base.Buf.{Buf, memcpy, shift, bytes}
use pollnet.Segs.{Seg, at, skip, place}
use pollnet.Stream.{
  TcpStream, Cut, Outcome, sync, cut, drop_gap, compact, keep_packet, keep_buffer, ready, is_full,
  store, handle_packet,
}

-- The state with the payload's segment put in, and with its bytes copied too.
abbrev pub placed : Cut → TcpStream → TcpStream
placed c s = record s { segs = place c.loc c.loc_end s.segs }

abbrev pub copied : Cut → Buf → TcpStream → TcpStream
copied c d s = record s {
  segs = place c.loc c.loc_end s.segs;
  recvbuf = memcpy s.recvbuf c.loc (shift d c.off) c.size;
}

module _ (bufsize : ℕ) (handler : List ℕ → ℕ) where
  pub store_cases {ℓ} :
      (P : Outcome → Type ℓ) (c : Cut) (d : Buf) (s : TcpStream)
      → (is_full c s.segs ≡ true → P (s, none, false))
      → (is_full c s.segs ≡ false
          → (at (placed c s).segs 0).first ≡ c.loc
          → (at (placed c s).segs 0).second ≡ c.loc_end
          → P (
            compact bufsize (keep_packet handler c d (placed c s)),
            some (bytes (shift d c.off) c.size),
            true,
          ))
      → (is_full c s.segs ≡ false → skip c.loc s.segs ≢ 0 → P (copied c d s, none, false))
      → (is_full c s.segs ≡ false
          → skip c.loc s.segs ≡ 0
          → P (
            compact bufsize (keep_buffer handler (copied c d s)),
            some (ready (copied c d s)),
            true,
          ))
      → P (store bufsize handler c d s)
  unfolding store
  store_cases P c d s full whole later here = elim (Bool-cases (is_full c s.segs)) [
    | inl e ↦ rw e (full e)
    | inr e ↦ rw e (elim (Bool-cases ((t.first == c.loc) && (t.second == c.loc_end))) [
      | inl w ↦ rw w (whole e (ground arith) (ground arith))
      | inr w ↦ rw w (elim (Bool-cases (skip c.loc s.segs == 0)) [
        | inl k ↦ rw k (here e (ground arith))
        | inr k ↦ rw k (later e (ground arith))
      ])
    ])
  ]
    where
      t : Seg
      t = at (placed c s).segs 0

  pub handle_cases {ℓ} :
      (P : Outcome → Type ℓ) (wait : Bool) (s : TcpStream) (d : Buf)
      → P (sync s d, none, false)
      → (let c = cut (sync s d) d in
          (c.size == 0) || is_neg32 c.size ≡ false
          → ltb bufsize c.loc_end ≡ false
          → P (store bufsize handler c d (drop_gap wait c.loc (sync s d))))
      → P (handle_packet bufsize handler wait s d)
  unfolding handle_packet
  handle_cases P wait s d refused taken = elim (Bool-cases ((c.size == 0) || is_neg32 c.size)) [
    | inl e ↦ rw e refused
    | inr e ↦ rw e (elim (Bool-cases (ltb bufsize c.loc_end)) [
      | inl k ↦ rw k refused
      | inr k ↦ rw k (taken e k)
    ])
  ]
    where
      c : Cut
      c = cut (sync s d) d

  pub handle_taken :
      (wait : Bool) (s : TcpStream) (d : Buf)
      → ((cut (sync s d) d).size == 0) || is_neg32 (cut (sync s d) d).size ≡ false
      → ltb bufsize (cut (sync s d) d).loc_end ≡ false
      → handle_packet bufsize handler wait s d
        ≡ store bufsize handler
            (cut (sync s d) d)
            d
            (drop_gap wait (cut (sync s d) d).loc (sync s d))
  unfolding handle_packet
  handle_taken wait s d e k = rw (e, k)
