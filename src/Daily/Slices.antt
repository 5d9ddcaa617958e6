-- ===== src/Daily/Slices.antt =====
-- Duplicates that are counted hour by hour.
use crypto_cdc_pipeline.Base.{
  ℕ, zero, suc, ◌+◌, ◌-◌, ◌*◌, ◌/◌, ◌≤◌, ◌≡◌, ◌∙◌, refl, sym, ap, ap₂, subst, inl, inr, ◌&&◌, ◌||◌,
  Bool, true, false, min, List, [], ◌∷◌, ltb, leb, length, keep_if, All, arith, Bool-cases,
  if◌then◌else◌,
}
use crypto_cdc_pipeline.Daily.{
  kst_day_bounds_ms, Row, same_key, has_key, uniq_exact, dup_rows, sum_slices, check_duplicates,
}

-- The rows of one key are of one trade, which was traded at one time.
abbrev pub Once : List Row → Type 0
Once [] = Unit
Once (r ∷ rs) =
    All (λ (s : Row). same_key s r ≡ true → s.upbit_timestamp ≡ r.upbit_timestamp) rs × Once rs

abbrev at : (ℕ → Bool) → List Row → List Row
at p = keep_if (λ r. p r.upbit_timestamp)

-- The rows that a later row repeats.
abbrev repeats : List Row → ℕ
repeats [] = 0
repeats (r ∷ rs) = if has_key r rs then suc (repeats rs) else repeats rs

repeats_split : (rs : List Row) → repeats rs + uniq_exact rs ≡ length rs
repeats_split [] = refl
repeats_split (r ∷ rs) = elim (Bool-cases (has_key r rs)) [
  | inl h ↦ rw h (omega (arith, repeats_split rs))
  | inr h ↦ rw h (omega (arith, repeats_split rs))
]

-- A time that a test of times lets pass keeps all the rows of a key of that time.
has_key-at :
    (p : ℕ → Bool) (r : Row) (rs : List Row)
    → p r.upbit_timestamp ≡ true
    → All (λ (s : Row). same_key s r ≡ true → s.upbit_timestamp ≡ r.upbit_timestamp) rs
    → has_key r (at p rs) ≡ has_key r rs
has_key-at p r [] h once = refl
has_key-at p r (s ∷ ss) h once =
    let ih = has_key-at p r ss h once.1 in
    elim (Bool-cases (same_key s r)) [
      | inl e ↦ let q : p s.upbit_timestamp ≡ true = ap p (once.0 e) ∙ h in rw (q, e) refl
      | inr e ↦ elim (Bool-cases (p s.upbit_timestamp)) [
        | inl q ↦ rw (q, e) ih
        | inr q ↦ rw (q, e) ih
      ]
    ]

-- Two tests that exclude each other, against the test for either.
repeats-at :
    (p q : ℕ → Bool) (rs : List Row)
    → ((t : ℕ) → p t && q t ≡ false)
    → Once rs
    → repeats (at (λ t. p t || q t) rs) ≡ repeats (at p rs) + repeats (at q rs)
repeats-at p q [] apart once = refl
repeats-at p q (r ∷ rs) apart once =
    let ih = repeats-at p q rs apart once.1 in
    let t = r.upbit_timestamp in
    let all = has_key-at (λ x. p x || q x) r rs in
    elim (Bool-cases (p t)) [
      | inl a ↦
          let b : q t ≡ false = subst (λ (x : Bool). x && q t ≡ false) a (apart t) in
          let either = all (rw a refl) once.0 in
          let one = has_key-at p r rs a once.0 in
          elim (Bool-cases (has_key r rs)) [
            | inl k ↦ rw (a, b, either, one, k) (omega (arith, ih))
            | inr k ↦ rw (a, b, either, one, k) ih
          ]
      | inr a ↦ elim (Bool-cases (q t)) [
        | inl b ↦
            let either = all (rw (a, b) refl) once.0 in
            let one = has_key-at q r rs b once.0 in
            elim (Bool-cases (has_key r rs)) [
              | inl k ↦ rw (a, b, either, one, k) (omega (arith, ih))
              | inr k ↦ rw (a, b, either, one, k) ih
            ]
        | inr b ↦ rw (a, b) ih
      ]
    ]

abbrev span : ℕ → ℕ → ℕ → Bool
span h0 h1 t = leb h0 t && ltb t h1

dup_rows-repeats : (a b : ℕ) (rs : List Row) → dup_rows a b rs ≡ repeats (at (span a b) rs)
unfolding dup_rows
dup_rows-repeats a b rs = omega (arith, repeats_split (at (span a b) rs))

at_same : (p q : ℕ → Bool) (rs : List Row) → ((t : ℕ) → p t ≡ q t) → at p rs ≡ at q rs
at_same p q [] same = refl
at_same p q (r ∷ rs) same = rw (same r.upbit_timestamp, at_same p q rs same) refl

at_none : (p : ℕ → Bool) (rs : List Row) → ((t : ℕ) → p t ≡ false) → at p rs ≡ []
at_none p [] off = refl
at_none p (r ∷ rs) off = rw (off r.upbit_timestamp) (at_none p rs off)

dup_rows-empty : (a b : ℕ) (rs : List Row) → b ≤ a → dup_rows a b rs ≡ 0
dup_rows-empty a b rs le =
    dup_rows-repeats a b rs ∙ ap repeats (at_none (span a b) rs (λ t. ground (arith, le)))

dup_rows-split :
    (a m b : ℕ) (rs : List Row)
    → a ≤ m
    → m ≤ b
    → Once rs
    → dup_rows a b rs ≡ dup_rows a m rs + dup_rows m b rs
dup_rows-split a m b rs le le' once =
    dup_rows-repeats a b rs
    ∙ ap repeats
        (at_same (span a b) (λ t. span a m t || span m b t) rs (λ t. ground (arith, le, le')))
    ∙ repeats-at (span a m) (span m b) rs (λ t. ground arith) once
    ∙ ap₂ (λ x y. x + y) (sym (dup_rows-repeats a m rs)) (sym (dup_rows-repeats m b rs))

sum_slices-past : (n a b : ℕ) (rs : List Row) → b ≤ a → sum_slices n a b rs ≡ 0
sum_slices-past zero a b rs le = refl
sum_slices-past (suc n) a b rs le = omega (
  arith,
  dup_rows-empty a (min (a + 3600000) b) rs (omega (arith, le)),
  sum_slices-past n (a + 3600000) b rs (omega (arith, le)),
)

sum_slices-whole :
    (n a b : ℕ) (rs : List Row)
    → a ≤ b
    → b ≤ a + n * 3600000
    → Once rs
    → sum_slices n a b rs ≡ dup_rows a b rs
sum_slices-whole zero a b rs le enough once = sym (dup_rows-empty a b rs (omega (arith, enough)))
sum_slices-whole (suc n) a b rs le enough once = elim (Bool-cases (leb (a + 3600000) b)) [
  | inl more ↦
      let more_le : a + 3600000 ≤ b = ground (arith, more) in
      let m : min (a + 3600000) b ≡ a + 3600000 = omega (arith, more_le) in
      rw (m, sum_slices-whole n (a + 3600000) b rs more_le (omega (arith, enough)) once)
        (sym (dup_rows-split a (a + 3600000) b rs (omega arith) more_le once))
  | inr last ↦
      let past : b ≤ a + 3600000 = ground (arith, last) in
      let m : min (a + 3600000) b ≡ b = omega (arith, past) in
      rw (m, sum_slices-past n (a + 3600000) b rs past) (omega arith)
]

-- Where the rows of one key were traded at one time, the duplicates counted in the slices of
-- an hour are in sum those of the whole day.
pub check_duplicates-whole :
    (day : ℕ) (rows : List Row)
    → Once rows
    → check_duplicates day rows ≡ dup_rows (kst_day_bounds_ms day).0 (kst_day_bounds_ms day).1 rows
unfolding check_duplicates kst_day_bounds_ms
check_duplicates-whole day rows once =
    let ms0 = day * 86400000 - 32400000 in
    let count : (ms0 + 86400000 - ms0 + 3599999) / 3600000 ≡ 24 = omega arith in
    rw count (sum_slices-whole 24 ms0 (ms0 + 86400000) rows (omega arith) (omega arith) once)
