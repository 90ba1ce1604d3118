-- ===== src/Wire/Laws.antt =====
-- Byte order: what the host's reads and swaps make of the bytes on the wire.
use pollnet.Base.{
  Bool, true, ◌&&◌, ltb, List, [], ◌∷◌, zero, suc, ℕ, ◌+◌, ◌*◌, ◌^◌, ◌<◌, ◌≡◌, arith,
}
use pollnet.Base.Buf.{Buf, of_list}
use pollnet.Wire.Defs.{le16, le32, swap16, swap32}

-- Memory that holds bytes.
abbrev pub IsBytes : Buf → Type 0
IsBytes d = (i : ℕ) → d i < 256

-- The big-endian numbers that the protocols define.
abbrev pub be16 : Buf → ℕ → ℕ
be16 d i = 256 * d i + d (i + 1)

abbrev pub be32 : Buf → ℕ → ℕ
be32 d i = 2 ^ 24 * d i + 2 ^ 16 * d (i + 1) + 256 * d (i + 2) + d (i + 3)

pub swap16-le16 : (d : Buf) (i : ℕ) → IsBytes d → swap16 (le16 d i) ≡ be16 d i
swap16-le16 d i b = omega (arith, b i, b (i + 1))

pub swap32-le32 : (d : Buf) (i : ℕ) → IsBytes d → swap32 (le32 d i) ≡ be32 d i
swap32-le32 d i b = omega (arith, b i, b (i + 1), b (i + 2), b (i + 3))

pub swap16-swap16 : (x : ℕ) → x < 2 ^ 16 → swap16 (swap16 x) ≡ x
swap16-swap16 x h = omega arith

pub swap32-swap32 : (x : ℕ) → x < 2 ^ 32 → swap32 (swap32 x) ≡ x
swap32-swap32 x h = omega arith

pub le16-lt : (d : Buf) (i : ℕ) → IsBytes d → le16 d i < 2 ^ 16
le16-lt d i b = omega (arith, b i, b (i + 1))

pub le32-lt : (d : Buf) (i : ℕ) → IsBytes d → le32 d i < 2 ^ 32
le32-lt d i b = omega (arith, b i, b (i + 1), b (i + 2), b (i + 3))

-- A list of bytes is such memory.
abbrev pub all_bytes : List ℕ → Bool
all_bytes [] = true
all_bytes (x ∷ xs) = ltb x 256 && all_bytes xs

pub all_bytes-IsBytes : (xs : List ℕ) → all_bytes xs ≡ true → IsBytes (of_list xs)
all_bytes-IsBytes [] h i = omega arith
all_bytes-IsBytes (x ∷ xs) h zero = ground arith
all_bytes-IsBytes (x ∷ xs) h (suc i) = all_bytes-IsBytes xs (ground arith) i
