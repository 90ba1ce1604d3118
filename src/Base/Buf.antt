-- ===== src/Base/Buf.antt =====
-- Byte arrays and packet memory. An array is a function from offsets to bytes; that every offset
-- written lies inside the array's size is proved where it is written.
use Prim.Native.Nat.{ℕ, zero, suc, ◌+◌, ◌-◌, ◌<◌}
use mathlib.Core.Path.{◌≡◌, refl, ap, ap₂, ◌∙◌}
use mathlib.Core.Bool.{true, false, ◌&&◌}
use mathlib.Core.List.{List, [], ◌∷◌, ◌++◌}
use Prim.Native.Nat.add
use native.Mathlib.Omega.{arith}
use pollnet.Base.Tests.{ltb, leb, if◌then◌else◌}
use pollnet.Base.Lists.{length, get_or, drop}

abbrev pub Buf : Type 0
Buf = ℕ → ℕ

-- `memcpy(dst + at, src, n)`, with disjoint regions.
unfoldable pub memcpy : Buf → ℕ → Buf → ℕ → Buf
memcpy dst at src n p = if leb at p && ltb p (at + n) then src (p - at) else dst p

-- The pointer `b + k`.
abbrev pub shift : Buf → ℕ → Buf
shift b k p = b (k + p)

-- The bytes `b[0 .. n)`, as a handler that is called with `(b, n)` reads them.
unfoldable pub bytes : Buf → ℕ → List ℕ
bytes b zero = []
bytes b (suc n) = b 0 ∷ bytes (shift b 1) n

-- The memory behind a pointer to the given bytes; what lies past them is not given.
abbrev pub of_list : List ℕ → Buf
of_list xs p = get_or xs p 0

pub length-bytes : (b : Buf) (n : ℕ) → length (bytes b n) ≡ n
unfolding bytes
length-bytes b zero = refl
length-bytes b (suc n) = ap suc (length-bytes (shift b 1) n)

pub bytes-ext : (a b : Buf) (n : ℕ) → ((k : ℕ) → k < n → a k ≡ b k) → bytes a n ≡ bytes b n
unfolding bytes
bytes-ext a b zero h = refl
bytes-ext a b (suc n) h =
    ap₂ ◌∷◌ (h 0 (omega arith))
      (bytes-ext (shift a 1) (shift b 1) n (λ k l. h (1 + k) (omega arith)))

pub memcpy-in :
    (dst : Buf) (at : ℕ) (src : Buf) (n p : ℕ)
    → leb at p && ltb p (at + n) ≡ true
    → memcpy dst at src n p ≡ src (p - at)
unfolding memcpy
memcpy-in dst at src n p h = rw h

pub memcpy-out :
    (dst : Buf) (at : ℕ) (src : Buf) (n p : ℕ)
    → leb at p && ltb p (at + n) ≡ false
    → memcpy dst at src n p ≡ dst p
unfolding memcpy
memcpy-out dst at src n p h = rw h

-- Two runs of bytes, one behind the other.
pub bytes-add : (b : Buf) (n m : ℕ) → bytes b (n + m) ≡ bytes b n ++ bytes (shift b n) m
unfolding bytes
bytes-add b zero m =
    ap (bytes b) (omega arith) ∙ bytes-ext b (shift b 0) m (λ k h. ap b (omega arith))
bytes-add b (suc n) m =
    ap (bytes b) (add.suc n m)
    ∙ ap (λ l. b 0 ∷ l)
        (bytes-add (shift b 1) n m
          ∙ ap (◌++◌ (bytes (shift b 1) n)) (bytes-ext _ _ m (λ k h. ap b (omega arith))))

pub bytes-of_list : (xs : List ℕ) → bytes (of_list xs) (length xs) ≡ xs
unfolding bytes
bytes-of_list [] = refl
bytes-of_list (x ∷ xs) =
    ap (λ l. x ∷ l)
      (bytes-ext (shift (of_list (x ∷ xs)) 1) (of_list xs) (length xs)
          (λ k h. let e : 1 + k ≡ suc k = omega arith in ap (of_list (x ∷ xs)) e)
        ∙ bytes-of_list xs)

-- The first bytes left out.
pub drop-bytes : (k : ℕ) (b : Buf) (n : ℕ) → drop k (bytes b n) ≡ bytes (shift b k) (n - k)
unfolding bytes
drop-bytes zero b n =
    ap (bytes b) (omega arith) ∙ bytes-ext b (shift b 0) (n - 0) (λ j h. ap b (omega arith))
drop-bytes (suc k) b zero = let e : 0 - suc k ≡ 0 = omega arith in rw e
drop-bytes (suc k) b (suc n) =
    drop-bytes k (shift b 1) n
    ∙ (let e : n - k ≡ suc n - suc k = omega arith in ap (bytes (shift (shift b 1) k)) e)
    ∙ bytes-ext (shift (shift b 1) k) (shift b (suc k)) (suc n - suc k) (λ j h. ap b (omega arith))
