-- ===== src/Efvi/Checksum.antt =====
-- The IP checksum of the frames that `EfviUdpSender` of Efvi.h sends.
use pollnet.Base.{
  ℕ, List, [], ◌∷◌, ◌+◌, ◌-◌, ◌/◌, ◌%◌, ◌^◌, ◌<◌, ◌≡◌, ◌↔◌, ◌⊎◌, refl, sym, ap, ◌∙◌, subst, arith,
}
use pollnet.Base.Buf.{Buf, memcpy}
use pollnet.Wire.{swap16, le16}
use pollnet.Efvitcp.Csum.{fold, words}
use pollnet.Efvi.Sender.{
  Addr, init_udp_pkt, ci_ip4_hdr_init, ci_udp_hdr_init, ipsum_of, update_udp_pkt,
}

-- The header's words but its length and its checksum.
abbrev pub rest : Buf → ℕ
rest d = le16 d 14 + words d 18 3 + words d 26 4

rest-update : (cache size : ℕ) (d : Buf) → rest (update_udp_pkt cache size d) ≡ rest d
unfolding update_udp_pkt memcpy
rest-update cache size d = omega arith

-- The buffer after sends of the given sizes, the last one first.
abbrev pub sent : ℕ → List ℕ → Buf → Buf
sent cache [] d = d
sent cache (size ∷ sizes) d = update_udp_pkt cache size (sent cache sizes d)

rest-sent : (cache : ℕ) (sizes : List ℕ) (d : Buf) → rest (sent cache sizes d) ≡ rest d
rest-sent cache [] d = refl
rest-sent cache (size ∷ sizes) d =
    rest-update cache size (sent cache sizes d) ∙ rest-sent cache sizes d

-- The words with the length and the checksum that are written.
update-words :
    (cache size : ℕ) (d : Buf)
    → let iplen = swap16 ((28 + size) % 2 ^ 16) in
      let ipsum = cache + iplen in
      words (update_udp_pkt cache size d) 14 10
      ≡ rest d + iplen + (2 ^ 16 - 1 - (ipsum + ipsum / 2 ^ 16) % 2 ^ 16)
unfolding update_udp_pkt memcpy
update-words cache size d = omega arith

-- The sum's arithmetic.
verifies :
    (sum iplen : ℕ)
    → 0 < sum
    → sum < 2 ^ 19
    → iplen < 2 ^ 16
    → let once = sum / 2 ^ 16 + sum % 2 ^ 16 in
      let ipsum = once + once / 2 ^ 16 + iplen in
      (fold (sum + iplen + (2 ^ 16 - 1 - (ipsum + ipsum / 2 ^ 16) % 2 ^ 16)) ≡ 0)
      ↔ ((once < 2 ^ 16) ⊎ (ipsum ≡ 2 ^ 17 - 1))
unfolding fold
verifies sum iplen h k l = (λ e. omega (arith, e), λ e. omega (arith, e))

-- The header that `init` writes.
module _ (local : Addr) (local_mac : Buf) (dest : Addr) (dest_mac d : Buf) where
  abbrev pub header : Buf
  header = init_udp_pkt local local_mac dest dest_mac d

  abbrev addresses : ℕ
  addresses =
      local.sin_addr % 2 ^ 16
      + local.sin_addr / 2 ^ 16 % 2 ^ 16
      + dest.sin_addr % 2 ^ 16
      + dest.sin_addr / 2 ^ 16 % 2 ^ 16

  header-words : words header 14 10 ≡ 0x45 + 0x40 + 0x1140 + addresses
  unfolding init_udp_pkt ci_ip4_hdr_init ci_udp_hdr_init memcpy
  header-words = omega arith

  header-rest : rest header ≡ 0x45 + 0x40 + 0x1140 + addresses
  unfolding init_udp_pkt ci_ip4_hdr_init ci_udp_hdr_init memcpy
  header-rest = omega arith

  -- The words' sum, folded once.
  abbrev pub once : ℕ
  once = words header 14 10 / 2 ^ 16 + words header 14 10 % 2 ^ 16

  -- A frame that was sent from a buffer with the headers of any two addresses, after any sends
  -- from it before, has a valid IP checksum exactly if the first fold of the sum that is cached
  -- does not carry, or the cached sum and the length add up to 2 ^ 17 - 1.
  pub checksum-update_udp_pkt :
      (sizes : List ℕ)
      → (size : ℕ)
      → let cache = ipsum_of header in
        (fold (words (sent cache (size ∷ sizes) header) 14 10) ≡ 0)
        ↔ ((once < 2 ^ 16) ⊎ (cache + swap16 ((28 + size) % 2 ^ 16) ≡ 2 ^ 17 - 1))
  unfolding ipsum_of
  checksum-update_udp_pkt sizes size =
      let cache = ipsum_of header in
      let iplen = swap16 ((28 + size) % 2 ^ 16) in
      let sum = words header 14 10 in
      let e = update-words cache size (sent cache sizes header) in
      let r = rest-sent cache sizes header ∙ header-rest ∙ sym header-words in
      subst (λ w. (fold w ≡ 0) ↔ ((once < 2 ^ 16) ⊎ (cache + iplen ≡ 2 ^ 17 - 1)))
        (sym (
          e
          ∙ ap (λ v. v + iplen + (2 ^ 16 - 1 - (cache + iplen + (cache + iplen) / 2 ^ 16) % 2 ^ 16))
              r))
        (verifies sum iplen (omega (arith, header-words)) (omega (arith, header-words))
          (omega arith))
