-- ===== src/Producer/GapFill/Pages.antt =====
-- The pages that the API gives for the requests of the gap-fill, and the rows that come of them.
use crypto_cdc_pipeline.Base.{
  ℕ, zero, suc, ◌+◌, ◌*◌, ◌/◌, ◌%◌, ◌-◌, ◌≤◌, ◌<◌, ◌≡◌, inl, inr, refl, sym, ap, ap₂, subst, ◌∙◌,
  ◌&&◌, ◌==◌, Bool, true, false, Option, none, some, List, [], ◌∷◌, ◌++◌, append_assoc, String,
  arith, ltb, length, min, take, drop, take-append-drop, length-take, length-drop, All, keep_if,
  Bool-cases,
}
use crypto_cdc_pipeline.Base.Int.{ℤ, pos, ◌-ℤ◌, ◌+ℤ◌, +ℤ_parts, ◌≤ℤ◌, leb_ℤ}
use crypto_cdc_pipeline.Producer.GapFill.{
  Tick, Api, truthy, query, last_id, gap_row, fetch_gap_rows,
}
use crypto_cdc_pipeline.Producer.GapFill.Complete.{
  Answers, reaches, NewestFirst, Serves, wanted, all_wanted, all_rows_lem,
}
use crypto_cdc_pipeline.Producer.GapFill.Ordered.{
  in_order, is_below, is_given, Documents, since, Falls, in_order-Falls, Falls-keep,
  Falls-NewestFirst, keep_both, keep_after, last_positive, Falls-after, since_page,
}

-- The window ends on a day of UTC that is at most seven days ago and not to come, at most `slack`
-- after its second; and it does not begin more than `back` before that day.
abbrev pub Fits : ℕ → ℕ → ℕ → ℤ → ℕ → Type 0
Fits slack back now lo hi =
    (hi / 86400000 ≤ now / 86400000)
    × (now / 86400000 ≤ hi / 86400000 + 7)
    × (hi ≤ hi / 1000 * 1000 + slack)
    × (pos (hi / 86400000 * 86400000) ≤ℤ lo +ℤ pos back)

days_between : (a b : ℕ) → b ≤ a → pos a -ℤ pos b ≡ pos (a - b)
unfolding ◌-ℤ◌
days_between a b h = ground arith

short_page : (r a b : ℕ) → ltb r 500 ≡ true → a ≡ min 500 r → b ≡ r - 500 → (a < 500) × (b ≡ 0)
short_page r a b h e f = (ground arith, ground arith)

full_page : (r a : ℕ) → ltb r 500 ≡ false → a ≡ min 500 r → a ≡ 500
full_page r a h e = ground arith

module _ {F : Type 0} (api : Api F) (slack back now : ℕ) (lo : ℤ) (hi : ℕ) (market : String) where
  abbrev asked : Tick F → Bool
  asked t = is_given slack back now (now / 86400000 - hi / 86400000) (hi / 1000 % 86400) t

  query-Documents :
      (trades : String → List (Tick F)) (cursor : Option ℕ)
      → Documents api slack back now trades
      → Fits slack back now lo hi
      → Answers api
          (query now hi market cursor)
          5
          0
          (take 500 (keep_if (λ t. asked t && is_below (truthy cursor) t) (trades market)))
  query-Documents trades cursor doc (past, near, second, begins) =
      let e = days_between (now / 86400000) (hi / 86400000) past in
      let page = take 500 (keep_if (λ t. asked t && is_below (truthy cursor) t) (trades market)) in
      subst
        (λ (d : ℤ).
          Answers api
            (record {
              market = market;
              to = hi / 1000 % 86400;
              count = 500;
              days_ago = d;
              cursor = truthy cursor;
            })
            5 0 page)
        (sym e)
        (doc market (now / 86400000 - hi / 86400000) (hi / 1000 % 86400) 500 (truthy cursor)
          (omega (arith, near)) (omega arith) (omega arith))

  -- A trade of the window is one that the requests are given.
  asked_in_window :
      (t : Tick F)
      → Fits slack back now lo hi
      → leb_ℤ lo (pos t.timestamp) && ltb t.timestamp hi ≡ true
      → asked t ≡ true
  asked_in_window t (past, near, second, begins) h =
      let start : (now / 86400000 - (now / 86400000 - hi / 86400000)) * 86400000
          ≡ hi / 86400000 * 86400000 =
        ap (λ (n : ℕ). n * 86400000) (omega (arith, past)) in
      let ends : hi ≤ hi / 86400000 * 86400000 + hi / 1000 % 86400 * 1000 + slack =
        omega (arith, second) in
      let parts = +ℤ_parts lo (pos back) in rw start (ground (arith, begins, parts, h, ends))

  wanted-asked :
      (times : F → F → F) (ts : List (Tick F))
      → Fits slack back now lo hi
      → wanted times market lo hi (keep_if asked ts) ≡ wanted times market lo hi ts
  wanted-asked times [] fits = refl
  wanted-asked times (t ∷ ts) fits =
      let rest = wanted-asked times ts fits in
      elim (Bool-cases (leb_ℤ lo (pos t.timestamp) && ltb t.timestamp hi)) [
        | inl inside ↦
            rw (asked_in_window t fits inside, inside) (ap (λ l. gap_row times market t ∷ l) rest)
        | inr outside ↦ elim (Bool-cases (asked t)) [
          | inl e ↦ rw (e, outside) rest
          | inr e ↦ rw (e, outside) rest
        ]
      ]

  next_page :
      (pre p older ts : List (Tick F))
      → Falls (keep_if asked ts)
      → keep_if asked ts ≡ pre ++ (p ++ older)
      → length p ≡ 500
      → keep_if (λ u. asked u && is_below (truthy (some (last_id p))) u) ts ≡ older
  next_page pre [] older ts falls e full = absurd (omega (arith, full))
  next_page pre (t ∷ p) older ts falls e full =
      let falls' : Falls (pre ++ ((t ∷ p) ++ older)) = subst Falls e falls in
      let positive = last_positive t p older (Falls-after pre ((t ∷ p) ++ older) falls') in
      let not_zero : (last_id (t ∷ p) == 0) ≡ false = ground (arith, positive) in
      let below = λ (u : Tick F). ltb u.sequential_id (last_id (t ∷ p)) in
      rw not_zero
        (keep_both asked below ts ∙ ap (keep_if below) e ∙ keep_after pre t p older falls')

  -- From a cursor that leaves the trades `r`, of which fewer than 500 n are not older than the window.
  serve :
      (trades : String → List (Tick F))
      → Documents api slack back now trades
      → Fits slack back now lo hi
      → Falls (keep_if asked (trades market))
      → (n : ℕ) (cursor : Option ℕ) (pre r : List (Tick F))
      → keep_if asked (trades market) ≡ pre ++ r
      → keep_if (λ t. asked t && is_below (truthy cursor) t) (trades market) ≡ r
      → since lo r < 500 * n
      → Serves api now lo hi market n cursor r
  serve trades doc fits falls zero cursor pre r e left few = absurd (omega (arith, few))
  serve trades doc fits falls (suc n) cursor pre r e left few =
      let p = take 500 r in
      let older = drop 500 r in
      let whole : p ++ older ≡ r = take-append-drop 500 r in
      let answer : Answers api (query now hi market cursor) 5 0 p =
        subst (λ l. Answers api (query now hi market cursor) 5 0 (take 500 l)) left
          (query-Documents trades cursor doc fits) in
      let long = length-take 500 r in
      let remains = length-drop 500 r in
      (
        p,
        older,
        sym whole,
        answer,
        elim (Bool-cases (ltb (length r) 500)) [
          | inl short ↦
              let (shorter, gone) =
                short_page (length r) (length p) (length older) short long remains in
              inl (shorter, none_left older gone)
          | inr full ↦ elim (Bool-cases (reaches lo p)) [
            | inl old ↦ inr (inl old)
            | inr new ↦
                let size : length p ≡ 500 = full_page (length r) (length p) full long in
                let e' : keep_if asked (trades market) ≡ pre ++ (p ++ older) =
                  e ∙ ap (λ l. pre ++ l) (sym whole) in
                let counted : since lo r ≡ length p + since lo older =
                  ap (since lo) (sym whole) ∙ since_page lo p older new in
                inr (
                  inr (
                    size,
                    serve trades doc fits falls n (some (last_id p)) (pre ++ p) older
                        (e' ∙ sym (append_assoc pre p older))
                        (next_page pre p older (trades market) falls e' size)
                        (omega (arith, few, counted, size)),
                  ))
          ]
        ],
      )
    where
      none_left : (l : List (Tick F)) → length l ≡ 0 → l ≡ []
      none_left [] h = refl
      none_left (x ∷ xs) h = absurd (omega (arith, h))

-- The trades of each market in the order of the API, of which fewer than 25,000 that the requests are
-- given are not older than the window.
abbrev pub Listed : {F : Type 0} → ℕ → ℕ → ℕ → ℤ → ℕ → (String → List (Tick F)) → String → Type 0
Listed slack back now lo hi trades m =
    (in_order (trades m) ≡ true)
    × (ltb
          (since lo (
            keep_if (is_given slack back now (now / 86400000 - hi / 86400000) (hi / 1000 % 86400))
              (trades m)))
          25000
        ≡ true)

all_asked :
    {F : Type 0} (times : F → F → F) (api : Api F) (slack back now : ℕ) (lo : ℤ) (hi : ℕ)
    (trades : String → List (Tick F)) (markets : List String)
    → Documents api slack back now trades
    → Fits slack back now lo hi
    → All (Listed slack back now lo hi trades) markets
    → let given = λ (m : String).
      keep_if
        (is_given slack back now (now / 86400000 - hi / 86400000) (hi / 1000 % 86400))
        (trades m) in
      All (λ (m : String). NewestFirst (given m) × Serves api now lo hi m 50 none (given m)) markets
      × (all_wanted times lo hi given markets ≡ all_wanted times lo hi trades markets)
all_asked times api slack back now lo hi trades [] doc fits h = (tt, refl)
all_asked times api slack back now lo hi trades (m ∷ ms) doc fits ((ordered, few), h) =
    let rest = all_asked times api slack back now lo hi trades ms doc fits h in
    let g = asked api slack back now lo hi m in
    let falls = Falls-keep g (trades m) (in_order-Falls (trades m) ordered) in
    (
      (
        (
          Falls-NewestFirst (keep_if g (trades m)) falls,
          serve api slack back now lo hi m trades doc fits falls 50 none [] (keep_if g (trades m))
              refl (keep_both g (λ t. true) (trades m) ∙ keep_true (keep_if g (trades m)))
              (ground (arith, few)),
        ),
        rest.0,
      ),
      ap₂ ◌++◌ (wanted-asked api slack back now lo hi m times (trades m) fits) rest.1,
    )
  where
    keep_true : {A : Type 0} → (l : List A) → keep_if (λ t. true) l ≡ l
    keep_true [] = refl
    keep_true (x ∷ xs) = ap (λ l. x ∷ l) (keep_true xs)

-- Where the API gives what it documents for `to`, `daysAgo`, `count` and `cursor`, with at most four
-- 429s or exceptions before each page, the window ends at most seven days ago and fits what `to`
-- and `daysAgo` can name, and a market has fewer than 25,000 trades that the requests are given
-- and that are not older than the window: the rows are those of exactly the trades in the window [lo, hi) of
-- the markets, in order, and `rest_n` is their number.
pub fetch_gap_rows_complete :
    {F : Type 0} (times : F → F → F) (api : Api F) (slack back now : ℕ) (lo : ℤ) (hi : ℕ)
    (trades : String → List (Tick F)) (markets : List String)
    → Documents api slack back now trades
    → Fits slack back now lo hi
    → All (Listed slack back now lo hi trades) markets
    → fetch_gap_rows times api now lo hi markets
      ≡ (all_wanted times lo hi trades markets, length (all_wanted times lo hi trades markets))
unfolding fetch_gap_rows
fetch_gap_rows_complete times api slack back now lo hi trades markets doc fits h =
    let (served, same) = all_asked times api slack back now lo hi trades markets doc fits h in
    ap (λ rows. (rows, length rows)) (all_rows_lem times api now lo hi _ markets served ∙ same)
