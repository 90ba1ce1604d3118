-- ===== src/Efvitcp/Conn/Copy.antt =====
-- `copyAndSum` of efvitcp/TcpConn.h: data is copied in words of 8, 4, 2 and 1 bytes, which are summed.
use pollnet.Base.{ℕ, zero, suc, ◌+◌, ◌*◌, ◌/◌, ◌%◌, ◌^◌, leb, ◌==◌, if◌then◌else◌}
use pollnet.Base.Word.{sub32}
use pollnet.Base.Buf.{Buf, memcpy, shift}
use pollnet.Wire.{le16, le32}
use pollnet.Efvitcp.Csum.{add_word}

-- The locals: the offsets of `dst` and `src`, what is left, and the 64-bit sum.
pub record Copy : Type 0 where
  pub mem : Buf
  pub dst : ℕ
  pub src : ℕ
  pub size : ℕ
  pub sum : ℕ

module _ (buf : Buf) where
  -- Copy one word of `n` bytes, and add `w`.
  unfoldable pub copy_word : ℕ → ℕ → Copy → Copy
  copy_word n w c = record {
    mem = memcpy c.mem c.dst (shift buf c.src) n;
    dst = c.dst + n;
    src = c.src + n;
    size = sub32 c.size n;
    sum = (c.sum + w) % 2 ^ 64;
  }

  -- `while (size >= 8)`
  unfoldable pub copy_longs : ℕ → Copy → Copy
  unfolding copy_word
  copy_longs zero c = c
  copy_longs (suc fuel) c =
      let rest = copy_longs fuel (copy_word 8 (le32 buf (c.src + 4) + le32 buf c.src) c) in
      if leb 8 c.size then rest else c

  unfoldable pub copy_ints : Copy → Copy
  unfolding copy_word
  copy_ints c = if leb 4 c.size then copy_word 4 (le32 buf c.src) c else c

  unfoldable pub copy_shorts : Copy → Copy
  unfolding copy_word
  copy_shorts c = if leb 2 c.size then copy_word 2 (le16 buf c.src) c else c

  -- The last byte, and the first one where the address is odd.
  unfoldable pub copy_last : Copy → Copy
  unfolding copy_word
  copy_last c = if c.size == 0 then c else copy_word 1 (buf c.src) c

  unfoldable pub copy_odd : Copy → Copy
  unfolding copy_word
  copy_odd c = if c.dst % 2 == 1 then copy_word 1 (256 * buf c.src) c else c

-- The memory after the copy to `mem + dst`, and the sum.
unfoldable pub copy_and_sum : Buf → ℕ → Buf → ℕ → Buf × ℕ
unfolding copy_longs copy_ints copy_shorts copy_last copy_odd
copy_and_sum mem dst buf size =
    let c = copy_odd buf (record { mem = mem; dst = dst; src = 0; size = size; sum = 0 }) in
    let c = copy_last buf (copy_shorts buf (copy_ints buf (copy_longs buf size c))) in
    (c.mem, add_word (c.sum / 2 ^ 32) (c.sum % 2 ^ 32))
