-- ===== src/Efvitcp/Conn/Bytes.antt =====
-- The sum of bytes that `copyAndSum` of efvitcp/TcpConn.h stands for.
use pollnet.Base.{ℕ, zero, suc, ◌+◌, ◌*◌, ◌%◌, ◌^◌, ◌≤◌, ◌≡◌, ap, ◌∙◌, arith, ◌==◌, if◌then◌else◌}
use pollnet.Base.Buf.{Buf}
use pollnet.Wire.{le16, le32}

-- The sum of the bytes, each in its half of a word at address `d`: a byte at an odd address counts 256 times.
abbrev pub byte_sum : ℕ → Buf → ℕ → ℕ
byte_sum d b zero = 0
byte_sum d b (suc n) = byte_sum d b n + (if (d + n) % 2 == 1 then 256 * b n else b n)

pub byte_sum-1 :
    (d : ℕ) (b : Buf) (n : ℕ)
    → byte_sum d b (n + 1) ≡ byte_sum d b n + (if (d + n) % 2 == 1 then 256 * b n else b n)
byte_sum-1 d b n = let e : n + 1 ≡ suc n = omega arith in rw e

pub byte_sum-2 :
    (d : ℕ) (b : Buf) (n : ℕ) → (d + n) % 2 ≡ 0 → byte_sum d b (n + 2) ≡ byte_sum d b n + le16 b n
byte_sum-2 d b n e =
    let two : n + 2 ≡ n + 1 + 1 = omega arith in
    ap (byte_sum d b) two ∙ ground (arith, byte_sum-1 d b n, byte_sum-1 d b (n + 1))

pub byte_sum-4 :
    (d : ℕ) (b : Buf) (n : ℕ)
    → (d + n) % 2 ≡ 0
    → byte_sum d b (n + 4) ≡ byte_sum d b n + (le16 b n + le16 b (n + 2))
byte_sum-4 d b n e =
    let two : n + 4 ≡ n + 2 + 2 = omega arith in
    ap (byte_sum d b) two
    ∙ omega (arith, byte_sum-2 d b n e, byte_sum-2 d b (n + 2) (omega (arith, e)))

pub byte_sum-8 :
    (d : ℕ) (b : Buf) (n : ℕ)
    → (d + n) % 2 ≡ 0
    → byte_sum d b (n + 8)
      ≡ byte_sum d b n + (le16 b n + le16 b (n + 2) + (le16 b (n + 4) + le16 b (n + 4 + 2)))
byte_sum-8 d b n e =
    let two : n + 8 ≡ n + 4 + 4 = omega arith in
    ap (byte_sum d b) two
    ∙ omega (arith, byte_sum-4 d b n e, byte_sum-4 d b (n + 4) (omega (arith, e)))

-- `w` counts as much as `part` in one's complement.
pub record Counts (part w : ℕ) : Type 0 where
  pub lower : part ≤ w
  pub upper : w ≤ 65536 * part
  pub same : w % 65535 ≡ part % 65535

pub le32-halves : (b : Buf) (n : ℕ) → le32 b n ≡ le16 b n + 2 ^ 16 * le16 b (n + 2)
le32-halves b n = let e : b (n + 3) ≡ b (n + 2 + 1) = ap b (omega arith) in omega (arith, e)
