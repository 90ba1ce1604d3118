-- ===== src/Efvitcp/Conn/Options.antt =====
-- The options of a SYN as `onSyn` of efvitcp/TcpConn.h reads them.
use pollnet.Base.{
  ℕ, zero, suc, ◌+◌, ◌-◌, ◌*◌, ◌≤◌, ◌<◌, ◌≡◌, refl, ap, ◌∙◌, Bool, true, false, arith, ◌==◌, lt→ltb,
  not-leb, if◌then◌else◌,
}
use pollnet.Base.Buf.{Buf}
use pollnet.Wire.{swap32, le32, data_offset}
use pollnet.Efvitcp.Conn.{Conf, Conn}
use pollnet.Efvitcp.Conn.Syn.{on_syn, begin_syn, settle_options, read_options, on_option}

pub ==-same : (n : ℕ) → (n == n) ≡ true
==-same n = ground arith

-- The steps of the loop.
module _ (conf : Conf) (d : Buf) (end : ℕ) where
  read_end : (fuel opt : ℕ) (c : Conn) → end ≤ opt → read_options conf fuel d opt end c ≡ c
  unfolding read_options
  read_end zero opt c h = refl
  read_end (suc fuel) opt c h = ground arith

  read_nop :
      (fuel opt : ℕ) (c : Conn)
      → opt < end
      → d opt ≡ 1
      → read_options conf (suc fuel) d opt end c ≡ read_options conf fuel d (opt + 1) end c
  unfolding read_options
  read_nop fuel opt c h e = rw (lt→ltb _ _ h, e)

  read_option :
      (fuel opt kind len : ℕ) (c : Conn)
      → opt < end
      → 1 < kind
      → 2 ≤ len
      → d opt ≡ kind
      → d (opt + 1) ≡ len
      → read_options conf (suc fuel) d opt end c
        ≡ read_options conf fuel d (opt + len) end (on_option conf d kind len (opt + 2) c)
  unfolding read_options
  read_option fuel opt kind len c h k l e f =
      let same : opt + 2 + (len - 2) ≡ opt + len = omega arith in
      rw (lt→ltb _ _ h, e, not-leb _ _ k, f)
        (ap (λ o. read_options conf fuel d o end (on_option conf d kind len (opt + 2) c)) same)

-- Where the options behind the timestamp begin, and where they end.
abbrev pub start_of : Bool → ℕ
start_of stamps = if stamps then 66 else 54

abbrev pub end_of : Bool → Bool → ℕ
end_of stamps ws = start_of stamps + (if ws then 8 else 4)

-- The options of a frame: a timestamp or none, the MSS, and a window scale or none.
pub record IsOptions (stamps ws : Bool) (now shift : ℕ) (d : Buf) : Type 0 where
  pub stamp :
      stamps ≡ true
      → (d 54 ≡ 1) × (d 55 ≡ 1) × (d 56 ≡ 8) × (d 57 ≡ 10) × (swap32 (le32 d 58) ≡ now)
  pub mss :
      let o = start_of stamps in (d o ≡ 2) × (d (o + 1) ≡ 4) × (d (o + 2) ≡ 5) × (d (o + 3) ≡ 180)
  pub scale :
      ws ≡ true
      → let o = start_of stamps in
        (d (o + 4) ≡ 1) × (d (o + 5) ≡ 3) × (d (o + 6) ≡ 3) × (d (o + 7) ≡ shift)
  pub ends : 34 + data_offset d * 4 ≡ end_of stamps ws

-- What the loop makes of them.
abbrev pub after : Conf → Buf → Bool → Bool → Conn → Conn
after conf d stamps ws c =
    let o = start_of stamps in
    let c1 = if stamps then on_option conf d 8 10 58 c else c in
    let c2 = on_option conf d 2 4 (o + 2) c1 in if ws then on_option conf d 3 3 (o + 7) c2 else c2

module _ (conf : Conf) {now shift : ℕ} (d : Buf) where
  read_options-after :
      (stamps ws : Bool) (c : Conn)
      → IsOptions stamps ws now shift d
      → read_options conf (end_of stamps ws - 54) d 54 (end_of stamps ws) c
        ≡ after conf d stamps ws c
  read_options-after false false c o =
      read_option conf d 58 3 54 2 4 c (omega arith) (omega arith) (omega arith) o.mss.0 o.mss.1
      ∙ read_end conf d 58 3 58 _ (omega arith)
  read_options-after false true c o =
      let (a, b, e, f) = o.scale refl in
      read_option conf d 62 7 54 2 4 c (omega arith) (omega arith) (omega arith) o.mss.0 o.mss.1
      ∙ read_nop conf d 62 6 58 _ (omega arith) a
      ∙ read_option conf d 62 5 59 3 3 _ (omega arith) (omega arith) (omega arith) b e
      ∙ read_end conf d 62 5 62 _ (omega arith)
  read_options-after true false c o =
      let (a, b, e, f, g) = o.stamp refl in
      read_nop conf d 70 15 54 c (omega arith) a
      ∙ read_nop conf d 70 14 55 c (omega arith) b
      ∙ read_option conf d 70 13 56 8 10 c (omega arith) (omega arith) (omega arith) e f
      ∙ read_option conf d 70 12 66 2 4 _ (omega arith) (omega arith) (omega arith) o.mss.0 o.mss.1
      ∙ read_end conf d 70 12 70 _ (omega arith)
  read_options-after true true c o =
      let (a, b, e, f, g) = o.stamp refl in
      let (a', b', e', f') = o.scale refl in
      read_nop conf d 74 19 54 c (omega arith) a
      ∙ read_nop conf d 74 18 55 c (omega arith) b
      ∙ read_option conf d 74 17 56 8 10 c (omega arith) (omega arith) (omega arith) e f
      ∙ read_option conf d 74 16 66 2 4 _ (omega arith) (omega arith) (omega arith) o.mss.0 o.mss.1
      ∙ read_nop conf d 74 15 70 _ (omega arith) a'
      ∙ read_option conf d 74 14 71 3 3 _ (omega arith) (omega arith) (omega arith) b' e'
      ∙ read_end conf d 74 14 74 _ (omega arith)

  pub on_syn-after :
      (stamps ws : Bool) (c : Conn)
      → IsOptions stamps ws now shift d
      → on_syn conf d c ≡ settle_options conf (after conf d stamps ws (begin_syn conf d c))
  unfolding on_syn
  on_syn-after stamps ws c o =
      rw o.ends (ap (settle_options conf) (read_options-after stamps ws (begin_syn conf d c) o))
