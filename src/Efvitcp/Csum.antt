-- ===== src/Efvitcp/Csum.antt =====
-- `CSum` of efvitcp/Core.h: the Internet checksum, summed in 32 bits and folded at the end.
use pollnet.Base.{
  ℕ, zero, suc, ◌+◌, ◌-◌, ◌*◌, ◌/◌, ◌%◌, ◌^◌, ◌≤◌, ◌<◌, ◌≡◌, Bool, arith, if◌then◌else◌, ◌==◌, ◌∙◌,
  ap, sym,
}
use pollnet.Base.Word.{add32, sub32}
use pollnet.Base.Buf.{Buf}
use pollnet.Wire.{le16, swap16, IsBytes}

-- `fold`: the two halves are added, then the carry, and the result is complemented in 16 bits.
unfoldable pub fold : ℕ → ℕ
fold sum =
    let res = sum / 2 ^ 16 + sum % 2 ^ 16 in
    let res = res + res / 2 ^ 16 in 2 ^ 16 - 1 - res % 2 ^ 16

unfoldable pub add16 : ℕ → ℕ → ℕ
add16 sum a = add32 sum a

unfoldable pub add_word : ℕ → ℕ → ℕ
add_word sum a = add32 (add32 sum (a / 2 ^ 16)) (a % 2 ^ 16)

-- `add<Len>`: the 16-bit words of `2 * words` bytes from `p` on.
unfoldable pub add_bytes : ℕ → Buf → ℕ → ℕ → ℕ
unfolding add16
add_bytes sum d p zero = sum
add_bytes sum d p (suc words) = add_bytes (add16 sum (le16 d p)) d (p + 2) words

pub sub16 : ℕ → ℕ → ℕ
sub16 sum a = sub32 (add32 sum 0xffff) a

unfoldable pub sub_word : ℕ → ℕ → ℕ
sub_word sum a = sub32 (sub32 (add32 sum 0x1fffe) (a / 2 ^ 16)) (a % 2 ^ 16)

-- `setVar`: the sum and the variable.
unfoldable pub set_var16 : Bool → ℕ → ℕ → ℕ → ℕ × ℕ
unfolding sub16 add16
set_var16 reset var val sum = (add16 (if reset then sub16 sum var else sum) val, val)

unfoldable pub set_var_word : Bool → ℕ → ℕ → ℕ → ℕ × ℕ
unfolding sub_word add_word
set_var_word reset var val sum = (add_word (if reset then sub_word sum var else sum) val, val)

-- `SendBuf::setOptDataLen`: the total length, the IP checksum and the TCP checksum that it writes.
unfoldable pub set_opt_data_len : ℕ → ℕ → ℕ → ℕ × ℕ × ℕ
unfolding add16 fold
set_opt_data_len len ipsum tcpsum =
    let tot_len = swap16 (40 + len) in
    (tot_len, fold (add16 ipsum tot_len), fold (add16 tcpsum (swap16 (20 + len))))

-- The one's complement sum of RFC 1071: 0 only for nothing but zeros.
abbrev pub ones_sum : ℕ → ℕ
ones_sum sum = if sum == 0 then 0 else (sum - 1) % 65535 + 1

-- The 16-bit words of `d` from offset `p` on, added up without a bound.
abbrev pub words : Buf → ℕ → ℕ → ℕ
words d p zero = 0
words d p (suc n) = le16 d p + words d (p + 2) n

fold_lem : (sum : ℕ) → sum < 2 ^ 32 → fold sum ≡ 65535 - ones_sum sum
unfolding fold
fold_lem sum h = ground arith

-- A checksum added to the sum that it was taken of makes it fold to 0, as a receiver checks.
fold-add16 : (sum : ℕ) → sum < 2 ^ 31 → fold (add16 sum (fold sum)) ≡ 0
unfolding add16 fold
fold-add16 sum h = omega arith

words-bound : (d : Buf) (p n : ℕ) → IsBytes d → words d p n ≤ n * 65535
words-bound d p zero b = omega arith
words-bound d p (suc n) b = omega (arith, words-bound d (p + 2) n b, b p, b (p + 1))

add_bytes_lem :
    (sum : ℕ) (d : Buf) (p n : ℕ)
    → sum + words d p n < 2 ^ 32
    → add_bytes sum d p n ≡ sum + words d p n
unfolding add_bytes add16
add_bytes_lem sum d p zero h = omega arith
add_bytes_lem sum d p (suc n) h =
    omega (arith, add_bytes_lem (add16 sum (le16 d p)) d (p + 2) n (omega arith))

-- Sums that agree in one's complement fold to the same.
fold-ones_sum : (a b : ℕ) → a < 2 ^ 32 → b < 2 ^ 32 → ones_sum a ≡ ones_sum b → fold a ≡ fold b
fold-ones_sum a b h k e = fold_lem a h ∙ ap (◌-◌ 65535) e ∙ sym (fold_lem b k)

ones_sum_add :
    (a b t : ℕ) → 0 < a → 0 < b → ones_sum a ≡ ones_sum b → ones_sum (a + t) ≡ ones_sum (b + t)
ones_sum_add a b t h k e = ground arith

-- The checksum of one sum verifies another one that agrees with it.
checksum_lem :
    (other sum t c : ℕ)
    → other < 2 ^ 30
    → sum < 2 ^ 30
    → t < 2 ^ 16
    → 0 < other
    → ones_sum sum ≡ ones_sum other
    → c ≡ fold (add16 sum t)
    → fold (other + t + c) ≡ 0
unfolding add16
checksum_lem other sum t c a b l z e k =
    let same : fold (add32 sum t) ≡ fold (other + t) =
      fold-ones_sum (add32 sum t) (other + t) (omega arith) (omega arith) (
        ap ones_sum (wrap sum t (omega arith) (omega arith))
        ∙ ones_sum_add sum other t (ground arith) z e) in
    ap (λ n. fold (other + t + n)) (k ∙ same)
    ∙ ap fold (
        sym (
          wrap (other + t) (fold (other + t)) (omega arith)
            (omega (arith, fold_lem (other + t) (omega arith)))))
    ∙ fold-add16 (other + t) (omega arith)
  where
    wrap : (a b : ℕ) → a < 2 ^ 31 → b < 2 ^ 31 → add32 a b ≡ a + b
    wrap a b h k = omega arith

-- An IP header whose total length and checksum are what `setOptDataLen` writes for the running sum
-- of its other words folds to 0, as a receiver checks.
pub set_opt_data_len-fold :
    (len ipsum tcpsum : ℕ) (d : Buf)
    → IsBytes d
    → ipsum < 2 ^ 30
    → 0 < words d 0 1 + words d 4 3 + words d 12 4
    → ones_sum ipsum ≡ ones_sum (words d 0 1 + words d 4 3 + words d 12 4)
    → let (tot_len, checksum, _) = set_opt_data_len len ipsum tcpsum in
      le16 d 2 ≡ tot_len → le16 d 10 ≡ checksum → fold (add_bytes 0 d 0 10) ≡ 0
unfolding set_opt_data_len
set_opt_data_len-fold len ipsum tcpsum d b h z e t c =
    let other = words d 0 1 + words d 4 3 + words d 12 4 in
    ap fold (add_bytes_lem 0 d 0 10 (omega (arith, words-bound d 0 10 b)))
    ∙ ap fold (omega (arith, t))
    ∙ checksum_lem other ipsum (swap16 (40 + len)) (le16 d 10)
        (omega (arith, words-bound d 0 1 b, words-bound d 4 3 b, words-bound d 12 4 b)) h
        (omega arith) z e c
