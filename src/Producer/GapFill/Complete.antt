-- ===== src/Producer/GapFill/Complete.antt =====
-- The rows of the pages that the API serves.
use crypto_cdc_pipeline.Base.{
  ℕ, zero, suc, ◌≤◌, ◌<◌, ◌≡◌, ◌⊎◌, inl, inr, refl, ap₂, sym, ap, subst, ◌∙◌, ◌&&◌, ◌||◌, Bool,
  true, false, Option, none, some, List, [], ◌∷◌, ◌++◌, map, append-nil, String, arith, ltb, length,
  All, keep_if, Bool-cases, if◌then◌else◌,
}
use crypto_cdc_pipeline.Base.Int.{ℤ, pos, ltb_ℤ, leb_ℤ}
use crypto_cdc_pipeline.Producer.GapFill.{
  Tick, GapRow, Query, ticks, too_many, http_error, exception, Api, query, attempt, last_id,
  gap_row, scan_page, fetch_pages, all_rows, fetch_gap_rows,
}

module _ {F : Type 0} where
  -- The API answers q with this page within so many attempts, after 429s and exceptions only.
  abbrev pub Answers : Api F → Query → ℕ → ℕ → List (Tick F) → Type 0
  Answers api q zero k p = true ≡ false
  Answers api q (suc left) k p =
      (api q k ≡ ticks p)
      ⊎ ((api q k ≡ too_many) ⊎ (api q k ≡ exception)) × Answers api q left (suc k) p

  attempt-Answers :
      (api : Api F) (q : Query) (left k : ℕ) (p : List (Tick F))
      → Answers api q left k p
      → attempt api q left k ≡ some p
  unfolding attempt
  attempt-Answers api q zero k p h = cc
  attempt-Answers api q (suc left) k p (inl h) = rw (h, attempt) refl
  attempt-Answers api q (suc left) k p (inr (inl h, rest)) =
      rw (h, attempt) (attempt-Answers api q left (suc k) p rest)
  attempt-Answers api q (suc left) k p (inr (inr h, rest)) =
      rw (h, attempt) (attempt-Answers api q left (suc k) p rest)

  -- A page reaches back beyond the window.
  abbrev pub reaches : ℤ → List (Tick F) → Bool
  reaches lo [] = false
  reaches lo (t ∷ ts) = ltb_ℤ (pos t.timestamp) lo || reaches lo ts

  abbrev pub NewestFirst : List (Tick F) → Type 0
  NewestFirst [] = Unit
  NewestFirst (t ∷ ts) = All (λ (u : Tick F). u.timestamp ≤ t.timestamp) ts × NewestFirst ts

  NewestFirst-tail : (xs ys : List (Tick F)) → NewestFirst (xs ++ ys) → NewestFirst ys
  NewestFirst-tail [] ys h = h
  NewestFirst-tail (x ∷ xs) ys h = NewestFirst-tail xs ys h.1

  -- The API pages through the trades `ts` of a market, at most n pages from `cursor`: a page that is
  -- not full is the last one, and after a page that reaches back beyond the window it is not asked.
  abbrev pub Serves : Api F → ℕ → ℤ → ℕ → String → ℕ → Option ℕ → List (Tick F) → Type 0
  Serves api now lo hi market zero cursor ts = ts ≡ []
  Serves api now lo hi market (suc n) cursor ts =
      (p : List (Tick F)) × (older : List (Tick F)) × (ts ≡ p ++ older)
      × Answers api (query now hi market cursor) 5 0 p
      × (((length p < 500) × (older ≡ []))
          ⊎ (reaches lo p ≡ true)
          ⊎ ((length p ≡ 500) × Serves api now lo hi market n (some (last_id p)) older))

module _ {F : Type 0} (times : F → F → F) (market : String) where
  abbrev pub in_window : ℤ → ℕ → Tick F → Bool
  in_window lo hi t = leb_ℤ lo (pos t.timestamp) && ltb t.timestamp hi

  -- The rows that the window should have.
  abbrev pub wanted : ℤ → ℕ → List (Tick F) → List (GapRow F)
  wanted lo hi ts = map (gap_row times market) (keep_if (in_window lo hi) ts)

  wanted_old :
      (lo : ℤ) (hi v : ℕ) (ts : List (Tick F))
      → ltb_ℤ (pos v) lo ≡ true
      → All (λ (u : Tick F). u.timestamp ≤ v) ts
      → wanted lo hi ts ≡ []
  wanted_old lo hi v [] old h = refl
  wanted_old lo hi v (t ∷ ts) old h =
      let out : leb_ℤ lo (pos t.timestamp) ≡ false = ground (arith, old, h.0) in
      rw out (wanted_old lo hi v ts old h.1)

  scan_page_lem :
      (lo : ℤ) (hi : ℕ) (ts older : List (Tick F))
      → NewestFirst (ts ++ older)
      → let page = scan_page times market lo hi ts in
        page.0 ++ (if page.1 then [] else wanted lo hi older) ≡ wanted lo hi (ts ++ older)
  unfolding scan_page
  scan_page_lem lo hi [] older h = refl
  scan_page_lem lo hi (t ∷ ts) older h =
      let ih = scan_page_lem lo hi ts older h.1 in
      elim (Bool-cases (ltb_ℤ (pos t.timestamp) lo)) [
        | inl old ↦
            let out : leb_ℤ lo (pos t.timestamp) ≡ false = ground (arith, old) in
            rw (old, out) (sym (wanted_old lo hi t.timestamp (ts ++ older) old h.0))
        | inr new ↦
            let fits : leb_ℤ lo (pos t.timestamp) ≡ true = ground (arith, new) in
            elim (Bool-cases (ltb t.timestamp hi)) [
              | inl inside ↦ rw (new, fits, inside) (ap (λ l. gap_row times market t ∷ l) ih)
              | inr outside ↦ rw (new, fits, outside) ih
            ]
      ]

  reaches_stops :
      (lo : ℤ) (hi : ℕ) (ts : List (Tick F))
      → reaches lo ts ≡ true
      → (scan_page times market lo hi ts).1 ≡ true
  unfolding scan_page
  reaches_stops lo hi [] h = h
  reaches_stops lo hi (t ∷ ts) h = elim (Bool-cases (ltb_ℤ (pos t.timestamp) lo)) [
    | inl old ↦ rw old refl
    | inr new ↦
        let later : reaches lo ts ≡ true = ground (arith, new) in
        let ih = reaches_stops lo hi ts later in rw new (ground (arith, ih))
  ]

  -- How the rows of a page and of the later ones join.
  finish :
      (rows later full rest : List (GapRow F)) (stop short : Bool)
      → rows ++ (if stop then [] else later) ≡ full
      → (stop ≡ true) ⊎ ((short ≡ true) × (later ≡ [])) ⊎ ((short ≡ false) × (rest ≡ later))
      → elim (stop || short) [ true ↦ rows | false ↦ rows ++ rest ] ≡ full
  finish rows later full rest true short h k = sym (append-nil rows) ∙ h
  finish rows later full rest false true h (inr (inl (_, z))) =
      sym (append-nil rows) ∙ ap (λ l. rows ++ l) (sym z) ∙ h
  finish rows later full rest false false h (inr (inr (_, e))) = ap (λ l. rows ++ l) e ∙ h
  finish rows later full rest false short h (inl e) = cc
  finish rows later full rest false true h (inr (inr (e, _))) = cc
  finish rows later full rest false false h (inr (inl (e, _))) = cc

  fetch_pages-Serves :
      (api : Api F) (now : ℕ) (lo : ℤ) (hi n : ℕ) (cursor : Option ℕ) (ts : List (Tick F))
      → NewestFirst ts
      → Serves api now lo hi market n cursor ts
      → fetch_pages times market api now lo hi n cursor ≡ wanted lo hi ts
  unfolding fetch_pages
  fetch_pages-Serves api now lo hi zero cursor ts sorted h = rw h refl
  fetch_pages-Serves api now lo hi (suc n) cursor ts sorted ([], older, e, a, inl (_, z)) =
      rw (attempt-Answers api (query now hi market cursor) 5 0 [] a, fetch_pages, e, z) refl
  fetch_pages-Serves api now lo hi (suc n) cursor ts sorted ([], older, e, a, inr (inl r)) = cc
  fetch_pages-Serves api now lo hi (suc n) cursor ts sorted ([], older, e, a, inr (inr (l, _))) =
      absurd (omega (arith, l))
  fetch_pages-Serves api now lo hi (suc n) cursor ts sorted (t ∷ p, older, e, a, kind) =
      rw (attempt-Answers api (query now hi market cursor) 5 0 (t ∷ p) a, fetch_pages, e)
        (finish _ (wanted lo hi older) _ _ _ _
          (scan_page_lem lo hi (t ∷ p) older (subst NewestFirst e sorted))
          (elim kind [
            | inl (l, z) ↦ inr (inl (ground (arith, l), rw z refl))
            | inr (inl r) ↦ inl (reaches_stops lo hi (t ∷ p) r)
            | inr (inr (l, rest)) ↦
                let tail : NewestFirst older =
                  NewestFirst-tail (t ∷ p) older (subst NewestFirst e sorted) in
                inr (
                  inr (
                    ground (arith, l),
                    fetch_pages-Serves api now lo hi n (some (last_id (t ∷ p))) older tail rest,
                  ))
          ]))

abbrev pub all_wanted :
    {F : Type 0} → (F → F → F) → ℤ → ℕ → (String → List (Tick F)) → List String → List (GapRow F)
all_wanted times lo hi trades [] = []
all_wanted times lo hi trades (m ∷ ms) =
    wanted times m lo hi (trades m) ++ all_wanted times lo hi trades ms

pub all_rows_lem :
    {F : Type 0} (times : F → F → F) (api : Api F) (now : ℕ) (lo : ℤ) (hi : ℕ)
    (trades : String → List (Tick F)) (markets : List String)
    → All
        (λ (m : String). NewestFirst (trades m) × Serves api now lo hi m 50 none (trades m))
        markets
    → all_rows times api now lo hi markets ≡ all_wanted times lo hi trades markets
all_rows_lem times api now lo hi trades [] h = refl
all_rows_lem times api now lo hi trades (m ∷ ms) h =
    ap₂ ◌++◌ (fetch_pages-Serves times m api now lo hi 50 none (trades m) h.0.0 h.0.1)
      (all_rows_lem times api now lo hi trades ms h.1)

fetch_pages-refused :
    {F : Type 0} (times : F → F → F) (api : Api F) (now : ℕ) (lo : ℤ) (hi : ℕ) (market : String)
    → api (query now hi market none) 0 ≡ http_error
    → fetch_pages times market api now lo hi 50 none ≡ []
unfolding fetch_pages attempt
fetch_pages-refused times api now lo hi market h = rw (h, fetch_pages, attempt) refl

-- A market whose first request meets an HTTP error other than 429 is left out: the result is the
-- one without that market, and nothing in it tells them apart.
pub fetch_gap_rows-skips :
    {F : Type 0} (times : F → F → F) (api : Api F) (now : ℕ) (lo : ℤ) (hi : ℕ) (market : String)
    (markets : List String)
    → api (query now hi market none) 0 ≡ http_error
    → fetch_gap_rows times api now lo hi (market ∷ markets)
      ≡ fetch_gap_rows times api now lo hi markets
unfolding fetch_gap_rows
fetch_gap_rows-skips times api now lo hi market markets h =
    ap (λ l. let rows = l ++ all_rows times api now lo hi markets in (rows, length rows))
      (fetch_pages-refused times api now lo hi market h)
