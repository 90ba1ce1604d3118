-- ===== src/Efvitcp/Conn/Sum.antt =====
-- `copyAndSum` against the copy and the sum that it stands for.
use pollnet.Base.{
  ℕ, zero, suc, ◌+◌, ◌*◌, ◌/◌, ◌%◌, ◌^◌, ◌≤◌, ◌<◌, ◌≡◌, refl, ap, ◌∙◌, inl, inr, arith, leb, ◌==◌,
  Bool-cases, leb→le,
}
use pollnet.Base.Buf.{Buf, memcpy}
use pollnet.Wire.{le16, le32, IsBytes, le16-lt, le32-lt}
use pollnet.Efvitcp.Csum.{ones_sum, add_word}
use pollnet.Efvitcp.Conn.Copy.{
  Copy, copy_word, copy_longs, copy_ints, copy_shorts, copy_last, copy_odd, copy_and_sum,
}
use pollnet.Efvitcp.Conn.Bytes.{
  byte_sum, byte_sum-1, byte_sum-2, byte_sum-4, byte_sum-8, le32-halves, Counts,
}

-- Where the copy stands.
module _ (mem : Buf) (dst : ℕ) (src : Buf) (size : ℕ) where
  record Stands (c : Copy) : Type 0 where
    place : c.dst ≡ dst + c.src
    left : c.src + c.size ≡ size
    copied : (p : ℕ) → c.mem p ≡ memcpy mem dst src c.src p
    counts : Counts (byte_sum dst src c.src) c.sum
    small : c.sum ≤ c.src * 2 ^ 33

  copy_word-Stands :
      (n w part : ℕ) (c : Copy)
      → size < 2 ^ 30
      → Stands c
      → n ≤ c.size
      → byte_sum dst src (c.src + n) ≡ byte_sum dst src c.src + part
      → Counts part w
      → w ≤ n * 2 ^ 33
      → Stands (copy_word src n w c)
  unfolding copy_word memcpy
  copy_word-Stands n w part c z s h e k b = record {
    place = omega (arith, s.place);
    left = omega (arith, s.left);
    copied = λ p. ground (arith, s.copied p, s.place);
    counts = record {
      lower = omega (arith, e, k.lower, s.counts.lower, s.small, s.left);
      upper = omega (arith, e, k.upper, s.counts.upper, s.small, s.left);
      same = omega (arith, e, k.same, s.counts.same, s.small, s.left);
    };
    small = omega (arith, s.small, s.left);
  }

  module _ (b : IsBytes src) (z : size < 2 ^ 30) where
    long-Stands :
        (c : Copy)
        → Stands c
        → (dst + c.src) % 2 ≡ 0
        → 8 ≤ c.size
        → Stands (copy_word src 8 (le32 src (c.src + 4) + le32 src c.src) c)
    long-Stands c s e h =
        let i = c.src in
        copy_word-Stands 8 (le32 src (i + 4) + le32 src i)
          (le16 src i + le16 src (i + 2) + (le16 src (i + 4) + le16 src (i + 4 + 2))) c z s h
          (byte_sum-8 dst src i e)
          (record {
            lower = omega (arith, le32-halves src i, le32-halves src (i + 4));
            upper = omega (arith, le32-halves src i, le32-halves src (i + 4));
            same = omega (arith, le32-halves src i, le32-halves src (i + 4));
          })
          (omega (arith, le32-lt src i b, le32-lt src (i + 4) b))

    copy_longs-Stands :
        (fuel : ℕ) (c : Copy)
        → Stands c
        → (dst + c.src) % 2 ≡ 0
        → c.size < 8 + 8 * fuel
        → let c' = copy_longs src fuel c in Stands c' × ((dst + c'.src) % 2 ≡ 0) × (c'.size < 8)
    unfolding copy_longs copy_word
    copy_longs-Stands zero c s e f = (s, e, omega arith)
    copy_longs-Stands (suc fuel) c s e f = elim (Bool-cases (leb 8 c.size)) [
      | inl more ↦ rw more (
          copy_longs-Stands fuel (copy_word src 8 (le32 src (c.src + 4) + le32 src c.src) c)
            (long-Stands c s e (leb→le _ _ more)) (omega (arith, e))
            (omega (arith, s.left, leb→le _ _ more)))
      | inr done ↦ rw done (s, e, ground arith)
    ]

    copy_ints-Stands :
        (c : Copy)
        → Stands c
        → (dst + c.src) % 2 ≡ 0
        → c.size < 8
        → let c' = copy_ints src c in Stands c' × ((dst + c'.src) % 2 ≡ 0) × (c'.size < 4)
    unfolding copy_ints copy_word
    copy_ints-Stands c s e f = elim (Bool-cases (leb 4 c.size)) [
      | inl more ↦
          let i = c.src in
          rw more (
            copy_word-Stands 4 (le32 src i) (le16 src i + le16 src (i + 2)) c z s (leb→le _ _ more)
                (byte_sum-4 dst src i e)
                (record {
                  lower = omega (arith, le32-halves src i);
                  upper = omega (arith, le32-halves src i);
                  same = omega (arith, le32-halves src i);
                })
                (omega (arith, le32-lt src i b)),
            omega (arith, e),
            omega (arith, s.left, leb→le _ _ more),
          )
      | inr done ↦ rw done (s, e, ground arith)
    ]

    copy_shorts-Stands :
        (c : Copy)
        → Stands c
        → (dst + c.src) % 2 ≡ 0
        → c.size < 4
        → let c' = copy_shorts src c in Stands c' × ((dst + c'.src) % 2 ≡ 0) × (c'.size < 2)
    unfolding copy_shorts copy_word
    copy_shorts-Stands c s e f = elim (Bool-cases (leb 2 c.size)) [
      | inl more ↦
          let i = c.src in
          rw more (
            copy_word-Stands 2 (le16 src i) (le16 src i) c z s (leb→le _ _ more)
                (byte_sum-2 dst src i e)
                (record { lower = omega arith; upper = omega arith; same = refl })
                (omega (arith, le16-lt src i b)),
            omega (arith, e),
            omega (arith, s.left, leb→le _ _ more),
          )
      | inr done ↦ rw done (s, e, ground arith)
    ]

    copy_last-Stands :
        (c : Copy)
        → Stands c
        → (dst + c.src) % 2 ≡ 0
        → c.size < 2
        → let c' = copy_last src c in Stands c' × (c'.size ≡ 0)
    unfolding copy_last copy_word
    copy_last-Stands c s e f = elim (Bool-cases (c.size == 0)) [
      | inl done ↦ rw done (s, ground arith)
      | inr more ↦
          let i = c.src in
          rw more (
            copy_word-Stands 1 (src i) (src i) c z s (ground arith)
                (ground (arith, byte_sum-1 dst src i))
                (record { lower = omega arith; upper = omega arith; same = refl })
                (omega (arith, b i)),
            ground (arith, s.left),
          )
    ]

    copy_odd-Stands :
        (c : Copy)
        → Stands c
        → c.src ≡ 0
        → 0 < size
        → let c' = copy_odd src c in Stands c' × ((dst + c'.src) % 2 ≡ 0)
    unfolding copy_odd copy_word
    copy_odd-Stands c s e f = elim (Bool-cases (c.dst % 2 == 1)) [
      | inr even ↦ rw even (s, ground (arith, s.place))
      | inl odd ↦
          let i = c.src in
          rw odd (
            copy_word-Stands 1 (256 * src i) (256 * src i) c z s (omega (arith, s.left))
                (ground (arith, byte_sum-1 dst src i, s.place))
                (record { lower = omega arith; upper = omega arith; same = refl })
                (omega (arith, b i)),
            ground (arith, s.place),
          )
    ]

-- What is left of the 64-bit sum in 32 bits counts the same.
folded :
    (part sum : ℕ)
    → Counts part sum
    → sum < 2 ^ 63
    → ones_sum (add_word (sum / 2 ^ 32) (sum % 2 ^ 32)) ≡ ones_sum part
unfolding add_word
folded part sum k h = ground (arith, k.lower, k.upper, k.same)

abbrev start : Buf → ℕ → ℕ → Copy
start mem dst size = record { mem = mem; dst = dst; src = 0; size = size; sum = 0 }

start-Stands :
    (mem : Buf) (dst : ℕ) (src : Buf) (size : ℕ) → Stands mem dst src size (start mem dst size)
unfolding memcpy
start-Stands mem dst src size = record {
  place = omega arith;
  left = omega arith;
  copied = λ p. ground arith;
  counts = record { lower = omega arith; upper = omega arith; same = refl };
  small = omega arith;
}

-- For data of 1 to 2^30 - 1 bytes: the bytes are copied, and the sum is in one's complement the sum of the bytes, each in
-- the half of a word in which its destination lies.
pub copy_and_sum-byte_sum :
    (mem : Buf) (dst : ℕ) (src : Buf) (size : ℕ)
    → IsBytes src
    → 0 < size
    → size < 2 ^ 30
    → let (mem', sum) = copy_and_sum mem dst src size in
      ((p : ℕ) → mem' p ≡ memcpy mem dst src size p)
      × (ones_sum sum ≡ ones_sum (byte_sum dst src size))
unfolding copy_and_sum
copy_and_sum-byte_sum mem dst src size b a z =
    let (s1, e1) = copy_odd-Stands mem dst src size b z _ (start-Stands mem dst src size) refl a in
    let left : (copy_odd src (start mem dst size)).size < 8 + 8 * size = omega (arith, s1.left) in
    let (s2, e2, l2) = copy_longs-Stands mem dst src size b z size _ s1 e1 left in
    let (s3, e3, l3) = copy_ints-Stands mem dst src size b z _ s2 e2 l2 in
    let (s4, e4, l4) = copy_shorts-Stands mem dst src size b z _ s3 e3 l3 in
    let (s5, l5) = copy_last-Stands mem dst src size b z _ s4 e4 l4 in
    let c' =
      copy_last src (
        copy_shorts src
          (copy_ints src (copy_longs src size (copy_odd src (start mem dst size))))) in
    let all : c'.src ≡ size = omega (arith, s5.left) in
    (
      λ p. s5.copied p ∙ ap (λ n. memcpy mem dst src n p) all,
      folded _ c'.sum s5.counts (omega (arith, s5.small))
          ∙ ap (λ n. ones_sum (byte_sum dst src n)) all,
    )
