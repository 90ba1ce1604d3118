-- ===== src/Efvitcp/Core/Pool.antt =====
-- The identifiers of efvitcp/Core.h, `conns` and `tw_ids`: from `cnt` on those that are free.
use pollnet.Base.{
  ℕ, zero, suc, ◌+◌, ◌-◌, ◌≤◌, ◌<◌, ◌≡◌, ◌≢◌, ◌↔◌, ◌⊎◌, List, [], ◌∷◌, length, ◌==◌, if◌then◌else◌,
  arith, refl, one, count, ltb, ◌∙◌, ap, sym, subst, Bool-cases, inl, inr,
}
use pollnet.Efvitcp.Table.{Entries, empty_key}
use pollnet.Efvitcp.Core.{write_at}

abbrev pub segment : (ℕ → ℕ) → ℕ → ℕ → List ℕ
segment f i zero = []
segment f i (suc k) = f i ∷ segment f (i + 1) k

-- An entry of the table has the identifier.
abbrev pub HasId : Entries → ℕ → Type 0
HasId tbl y = (p : ℕ) × ((tbl p).key ≢ empty_key) × ((tbl p).conn_id ≡ y)

-- Of the `n` identifiers, which the table knows from `off` on, each is free once, or else in use
-- once, and those in use are those that the table has.
pub record IsPool (off n : ℕ) (ids : ℕ → ℕ) (cnt : ℕ) (tbl : Entries) : Type 0 where
  pub used : List ℕ
  pub free : ℕ
  pub size : length used ≡ cnt
  pub room : cnt + free ≡ n
  pub once : (x : ℕ) → x < n → count x used + count x (segment ids cnt free) ≡ 1
  pub inside : (x : ℕ) → n ≤ x → count x used + count x (segment ids cnt free) ≡ 0
  pub has : (x : ℕ) → 0 < count x used → HasId tbl (off + x)
  pub used_of : (x : ℕ) → x < n → HasId tbl (off + x) → 0 < count x used

-- One `x` less.
abbrev drop_one : ℕ → List ℕ → List ℕ
drop_one x [] = []
drop_one x (y ∷ ys) = if y == x then ys else y ∷ drop_one x ys

count-drop_one :
    (x y : ℕ) (ys : List ℕ) → 0 < count x ys → count y (drop_one x ys) + one y x ≡ count y ys
count-drop_one x y [] h = absurd (omega arith)
count-drop_one x y (z ∷ zs) h = elim (Bool-cases (z == x)) [
  | inl e ↦ rw e (ground arith)
  | inr e ↦ let rest = count-drop_one x y zs (ground arith) in rw e (omega (arith, rest))
]

length-drop_one : (x : ℕ) (ys : List ℕ) → 0 < count x ys → length (drop_one x ys) + 1 ≡ length ys
length-drop_one x [] h = absurd (omega arith)
length-drop_one x (z ∷ zs) h = elim (Bool-cases (z == x)) [
  | inl e ↦ rw e (omega arith)
  | inr e ↦ let rest = length-drop_one x zs (ground arith) in rw e (omega (arith, rest))
]

segment-write_at : (f : ℕ → ℕ) (i j x k : ℕ) → i < j → segment (write_at f i x) j k ≡ segment f j k
segment-write_at f i j x zero l = refl
segment-write_at f i j x (suc k) l =
    ap (λ y. y ∷ segment (write_at f i x) (j + 1) k) (ground arith)
    ∙ ap (λ ys. f j ∷ ys) (segment-write_at f i (j + 1) x k (omega arith))

count-segment-write_at :
    (f : ℕ → ℕ) (cnt x y k : ℕ)
    → 0 < cnt
    → count y (segment (write_at f (cnt - 1) x) (cnt - 1) (suc k))
      ≡ one y x + count y (segment f cnt k)
count-segment-write_at f cnt x y k h =
    let back : cnt - 1 + 1 ≡ cnt = omega arith in
    let same : cnt - 1 ≡ cnt - 1 = refl in
    let e : segment (write_at f (cnt - 1) x) (cnt - 1 + 1) k ≡ segment f cnt k =
      subst (λ j. segment (write_at f (cnt - 1) x) j k ≡ segment f cnt k) (sym back)
        (segment-write_at f (cnt - 1) cnt x k (omega arith)) in
    let top : write_at f (cnt - 1) x (cnt - 1) ≡ x = ground arith in
    ap (λ ys. one y (write_at f (cnt - 1) x (cnt - 1)) + count y ys) e
    ∙ ap (λ z. one y z + count y (segment f cnt k)) top

used_lt :
    {off n : ℕ} {ids : ℕ → ℕ} {cnt : ℕ} {tbl : Entries}
    → (v : IsPool off n ids cnt tbl) → (x : ℕ) → 0 < count x v.used
    → x < n
used_lt {n} v x m = elim (Bool-cases (ltb x n)) [
  | inl e ↦ ground arith
  | inr e ↦ absurd (ground (arith, v.inside x))
]

next_lem :
    (ids : ℕ → ℕ) (cnt y free : ℕ)
    → 0 < free
    → count y (segment ids cnt free) ≡ one y (ids cnt) + count y (segment ids (cnt + 1) (free - 1))
next_lem ids cnt y zero h = absurd (omega arith)
next_lem ids cnt y (suc free) h =
    let e : suc free - 1 ≡ free = omega arith in
    ap (λ k. one y (ids cnt) + count y (segment ids (cnt + 1) k)) (sym e)

-- The next one is one of the `n`.
pub taken_lt :
    {off : ℕ} (ids : ℕ → ℕ) (cnt n : ℕ) (tbl : Entries)
    → (v : IsPool off n ids cnt tbl) → cnt < n
    → (y : ℕ) → y ≡ ids cnt
    → y < n
taken_lt ids cnt n tbl v m y e = elim (Bool-cases (ltb y n)) [
  | inl a ↦ ground arith
  | inr a ↦
      let seg = next_lem ids cnt y v.free (omega (arith, v.room)) in
      absurd (ground (arith, v.inside y, seg))
]

-- And no entry has it.
pub fresh_lem :
    {off : ℕ} (ids : ℕ → ℕ) (cnt n : ℕ) (tbl : Entries)
    → IsPool off n ids cnt tbl
    → cnt < n
    → (id : ℕ) → id ≡ off + ids cnt
    → HasId tbl id
    → ⊥
fresh_lem ids cnt n tbl v m id e h =
    let x = ids cnt in
    let l = taken_lt ids cnt n tbl v m x refl in
    let used = v.used_of x l (subst (HasId tbl) e h) in
    absurd (ground (arith, v.once x l, next_lem ids cnt x v.free (omega (arith, v.room))))

module _ (off n : ℕ) (ids : ℕ → ℕ) (cnt : ℕ) (tbl tbl' : Entries) where
  -- The table has the same ones.
  pub keep-IsPool :
      ((x : ℕ) → x < n → HasId tbl' (off + x) ↔ HasId tbl (off + x))
      → IsPool off n ids cnt tbl
      → IsPool off n ids cnt tbl'
  keep-IsPool h v = record {
    used = v.used;
    free = v.free;
    size = v.size;
    room = v.room;
    once = v.once;
    inside = v.inside;
    has = λ x m. (h x (used_lt v x m)).1 (v.has x m);
    used_of = λ x l m. v.used_of x l ((h x l).0 m);
  }

  -- The table has `x` no more, and it is free.
  pub free-IsPool :
      (x id : ℕ)
      → x < n
      → id ≡ off + x
      → HasId tbl id
      → ((y : ℕ) → y < n → HasId tbl' (off + y) ↔ (HasId tbl (off + y) × (off + y ≢ id)))
      → IsPool off n ids cnt tbl
      → IsPool off n (write_at ids (cnt - 1) x) (cnt - 1) tbl'
  free-IsPool x id l t m h v =
      let c = v.used_of x l (subst (HasId tbl) t m) in
      let ids' = write_at ids (cnt - 1) x in
      let k = length-drop_one x v.used c in
      let seg = λ (y : ℕ). count-segment-write_at ids cnt x y v.free (omega (arith, v.size, k)) in
      record {
        used = drop_one x v.used;
        free = suc v.free;
        size = omega (arith, k, v.size);
        room = omega (arith, k, v.size, v.room);
        once = λ y a. omega (arith, seg y, count-drop_one x y v.used c, v.once y a);
        inside = λ y a. omega (arith, seg y, count-drop_one x y v.used c, v.inside y a);
        has = λ y a.
            let b = count-drop_one x y v.used c in
            let d : y ≢ x = λ e. absurd (ground (arith, v.once x l)) in
            let a' : 0 < count y v.used = omega (arith, b) in
            (h y (used_lt v y a')).1 (v.has y a', λ e. d (omega (arith, e, t)));
        used_of = λ y a b.
            let (e, d') = (h y a).0 b in
            let d : y ≢ x = λ g. d' (omega (arith, g, t)) in
            ground (arith, v.used_of y a e, count-drop_one x y v.used c);
      }

  -- The first free one is in use now, and the table has it too.
  pub take-IsPool :
      (id : ℕ)
      → cnt < n
      → id ≡ off + ids cnt
      → ((y : ℕ) → y < n → HasId tbl' (off + y) ↔ (HasId tbl (off + y) ⊎ (off + y ≡ id)))
      → IsPool off n ids cnt tbl
      → IsPool off n ids (cnt + 1) tbl'
  take-IsPool id m t h v =
      let x = ids cnt in
      let seg = λ (y : ℕ). next_lem ids cnt y v.free (omega (arith, v.room)) in
      record {
        used = x ∷ v.used;
        free = v.free - 1;
        size = omega (arith, v.size);
        room = omega (arith, v.room);
        once = λ y a. omega (arith, seg y, v.once y a);
        inside = λ y a. omega (arith, seg y, v.inside y a);
        has = λ y a. elim (Bool-cases (x == y)) [
          | inl e ↦
              let g : y ≡ x = ground arith in
              (h y (taken_lt ids cnt n tbl v m y g)).1 (inr (omega (arith, g, t)))
          | inr e ↦
              let b : 0 < count y v.used = ground arith in (h y (used_lt v y b)).1 (inl (v.has y b))
        ];
        used_of = λ y a b. elim ((h y a).0 b) [
          | inl c ↦ omega (arith, v.used_of y a c)
          | inr c ↦ let g : y ≡ x = omega (arith, c, t) in ground arith
        ];
      }
