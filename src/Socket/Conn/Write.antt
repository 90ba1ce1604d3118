-- ===== src/Socket/Conn/Write.antt =====
-- `write` and `writeNonblock` of `SocketTcpConnection`: what is accepted, and what the result says.
use pollnet.Base.{
  ℕ, zero, suc, ◌+◌, ◌-◌, ◌≤◌, ◌<◌, ◌≡◌, ◌≢◌, ◌⊎◌, refl, ap, sym, ◌∙◌, inl, inr, true, false, Bool,
  List, [], ◌∷◌, ◌++◌, Option, none, some, length, drop, take, min, arith, ◌==◌, append_assoc,
  append-nil, length-drop, Bool-cases,
}
use Prim.Native.Nat.add
use pollnet.Socket.Os.{SendResult, accepts, send_again, send_failed}
use pollnet.Socket.Conn.{Conf, Conn, close, write_some, write, write_nonblock}

take_all {ℓ} : {A : Type ℓ} (n : ℕ) (xs : List A) → length xs ≤ n → take n xs ≡ xs
take_all zero [] h = refl
take_all zero (x ∷ xs) h = absurd (omega arith)
take_all (suc n) [] h = refl
take_all (suc n) (x ∷ xs) h = ap (λ l. x ∷ l) (take_all n xs (omega arith))

take-add {ℓ} :
    {A : Type ℓ} (m n : ℕ) (xs : List A) → take m xs ++ take n (drop m xs) ≡ take (m + n) xs
take-add zero n xs = ap (λ k. take k xs) (omega arith)
take-add (suc m) zero [] = let e : suc m + 0 ≡ suc m = omega arith in rw e
take-add (suc m) (suc n) [] = let e : suc m + suc n ≡ suc (m + suc n) = omega arith in rw e
take-add (suc m) n (x ∷ xs) =
    ap (λ l. x ∷ l) (take-add m n xs) ∙ ap (λ k. take k (x ∷ xs)) (sym (add.suc m n))

-- `c'` has sent the first `n` bytes of `xs` more than `c`.
pub record Sent (c : Conn) (xs : List ℕ) (o : Conn × Option Bool) (n : ℕ) : Type 0 where
  pub within : n ≤ length xs
  pub prefix : o.0.sent ≡ c.sent ++ take n xs
  pub whole : o.1 ≡ some true → n ≡ length xs
  pub failed : o.1 ≡ some false → o.0.fd ≡ none

-- The calls that make the loop go on towards its end.
abbrev pub progress : List SendResult → ℕ
progress [] = 0
progress (accepts zero ∷ rs) = progress rs
progress (accepts (suc n) ∷ rs) = suc (progress rs)
progress (send_again ∷ rs) = progress rs
progress (send_failed e ∷ rs) = suc (progress rs)

progress-length : (rs : List SendResult) → progress rs ≤ length rs
progress-length [] = omega arith
progress-length (accepts zero ∷ rs) = omega (arith, progress-length rs)
progress-length (accepts (suc n) ∷ rs) = omega (arith, progress-length rs)
progress-length (send_again ∷ rs) = omega (arith, progress-length rs)
progress-length (send_failed e ∷ rs) = omega (arith, progress-length rs)

module _ (conf : Conf) where
  -- One `writeSome`.
  write_some_lem :
      (time : ℕ) (r : SendResult) (xs : List ℕ) (c : Conn)
      → let (c', result) = write_some conf time r xs c in
        ((result ≡ none) × (c'.fd ≡ none) × (c'.sent ≡ c.sent))
        ⊎ ((n : ℕ) × (result ≡ some n) × (n ≤ length xs) × (c'.sent ≡ c.sent ++ take n xs))
  unfolding write_some close
  write_some_lem time (accepts n) xs c = inr (min n (length xs), refl, omega arith, ground arith)
  write_some_lem time send_again xs c =
      inr (0, refl, omega arith, ground (arith, append-nil c.sent))
  write_some_lem time (send_failed e) xs c = inl (refl, ground arith, ground arith)

  write_lem :
      (time : ℕ) (rs : List SendResult) (xs : List ℕ) (c : Conn)
      → (n : ℕ) × Sent c xs (write conf time rs xs c) n
  unfolding write
  write_lem time [] xs c = (0, ground (arith, append-nil c.sent))
  write_lem time (r ∷ rs) xs c = elim (write_some_lem time r xs c) [
    | inl (e, k, s) ↦ (0, rw (e, write) (ground (arith, append-nil c.sent)))
    | inr (n, e, l, s) ↦ elim (Bool-cases (length xs - n == 0)) [
      | inl done ↦ (n, rw (e, done, write) (ground arith))
      | inr more ↦
          let (m, rest) = write_lem time rs (drop n xs) (write_some conf time r xs c).0 in
          (
            n + m,
            rw (e, more, write)
                (record {
                  within = omega (arith, rest.within, length-drop n xs);
                  prefix =
                      rest.prefix
                      ∙ ap (λ l. l ++ take m (drop n xs)) s
                      ∙ append_assoc c.sent (take n xs) (take m (drop n xs))
                      ∙ ap (λ l. c.sent ++ l) (take-add n m xs);
                  whole = λ w. omega (arith, rest.whole w, length-drop n xs);
                  failed = rest.failed;
                }),
          )
    ]
  ]

  -- So when it returns true, all of the data has been accepted, in order.
  pub write-true :
      (time : ℕ) (rs : List SendResult) (xs : List ℕ) (c : Conn)
      → (write conf time rs xs c).1 ≡ some true
      → (write conf time rs xs c).0.sent ≡ c.sent ++ xs
  write-true time rs xs c e =
      let (n, w) = write_lem time rs xs c in
      w.prefix ∙ ap (λ l. c.sent ++ l) (take_all n xs (omega (arith, w.whole e)))

  write-returns :
      (time : ℕ) (rs : List SendResult) (xs : List ℕ) (c : Conn)
      → 0 < length rs
      → length xs ≤ progress rs
      → (write conf time rs xs c).1 ≢ none
  unfolding write write_some
  write-returns time [] xs c l h = absurd (omega arith)
  write-returns time (accepts zero ∷ rs) xs c l h = ground (
    arith,
    write-returns time rs (drop (min 0 (length xs)) xs) (write_some conf time (accepts 0) xs c).0,
    length-drop (min 0 (length xs)) xs,
    progress-length rs,
  )
  write-returns time (accepts (suc n) ∷ rs) xs c l h = ground (
    arith,
    write-returns time rs (drop (min (suc n) (length xs)) xs)
        (write_some conf time (accepts (suc n)) xs c).0,
    length-drop (min (suc n) (length xs)) xs,
    progress-length rs,
  )
  write-returns time (send_again ∷ rs) xs c l h = ground (
    arith,
    write-returns time rs (drop 0 xs) (write_some conf time send_again xs c).0,
    length-drop 0 xs,
    progress-length rs,
  )
  write-returns time (send_failed e ∷ rs) xs c l h = λ e. cc

  -- `::send` fails, or takes at least one byte as often as there are bytes. Then `write` returns, and
  -- has put a prefix of the data on the stream, whatever `::send` accepts from call to call: all of
  -- it when it returns true; when it returns false the connection is closed.
  pub write-Sent :
      (time : ℕ) (rs : List SendResult) (xs : List ℕ) (c : Conn)
      → 0 < length rs
      → length xs ≤ progress rs
      → ((write conf time rs xs c).1 ≢ none) × ((n : ℕ) × Sent c xs (write conf time rs xs c) n)
  write-Sent time rs xs c l h = (write-returns time rs xs c l h, write_lem time rs xs c)

  -- `writeNonblock` returns true only if all of the data was accepted at once; otherwise the
  -- connection is closed, and a prefix at most was accepted.
  pub write_nonblock_lem :
      (time errno : ℕ) (r : SendResult) (xs : List ℕ) (c : Conn)
      → let (c', ok) = write_nonblock conf time errno r xs c in
        ((ok ≡ true) × (c'.sent ≡ c.sent ++ xs) × (c'.fd ≡ c.fd))
        ⊎ ((ok ≡ false) × (c'.fd ≡ none) × ((n : ℕ) × (c'.sent ≡ c.sent ++ take n xs)))
  unfolding write_nonblock write_some close
  write_nonblock_lem time errno (accepts n) xs c =
      elim (Bool-cases (min n (length xs) == length xs)) [
        | inl e ↦ inl (
          rw e refl,
          rw e (ground (arith, take_all (min n (length xs)) xs (ground arith))),
          rw e (ground arith),
        )
        | inr e ↦ inr (rw e refl, rw e (ground arith), (min n (length xs), rw e (ground arith)))
      ]
  write_nonblock_lem time errno send_again [] c =
      inl (refl, ground (arith, append-nil c.sent), ground arith)
  write_nonblock_lem time errno send_again (x ∷ xs) c =
      inr (ground arith, ground arith, (0, ground (arith, append-nil c.sent)))
  write_nonblock_lem time errno (send_failed e) xs c =
      inr (refl, ground arith, (0, ground (arith, append-nil c.sent)))
