-- ===== src/Producer/Fill/Whole.antt =====
-- A gap-fill brings the window into the table.
use crypto_cdc_pipeline.Base.{
  ℕ, zero, suc, ◌≤◌, ◌<◌, ◌≡◌, refl, sym, ap, ◌∙◌, subst, Bool, true, false, String, Option, none,
  some, some-eq, Option-cases, List, [], ◌∷◌, ◌++◌, append-nil, map, ltb, length, is_some, is_empty,
  str_eq, ◌&&◌, All, arith, inl, inr, Bool-cases, if◌then◌else◌,
}
use crypto_cdc_pipeline.Base.Int.{ℤ}
use crypto_cdc_pipeline.Producer.Writer.{Env, Writer, insert_direct}
use crypto_cdc_pipeline.Producer.Writer.Counts.{AllCommitted, insert_direct-committed}
use crypto_cdc_pipeline.Producer.GapFill.{Tick, GapRow, Api}
use crypto_cdc_pipeline.Producer.GapFill.Complete.{all_wanted}
use crypto_cdc_pipeline.Producer.GapFill.Ordered.{Documents}
use crypto_cdc_pipeline.Producer.GapFill.Pages.{Fits, Listed, fetch_gap_rows_complete}
use crypto_cdc_pipeline.Producer.Fill.{
  Repair, repair_of, gap_fill, insert_sorted, krw_sorted, markets_or, fetch_krw_markets,
}

abbrev pub rest_of : Option Repair → Option ℕ
rest_of none = none
rest_of (some r) = some r.rest_rows

module _ {F Row : Type 0} (tuple : GapRow F → Row) (env : Env Row) where
  fill_rows :
      AllCommitted env
      → 0 < env.batch_size
      → (reason : String) (lo : ℤ) (hi : ℕ) (markets : List String) (rows : List (GapRow F)) (n : ℕ)
        (w : Writer Row)
      → let (inserted, w') : Option ℕ × Writer Row =
          if is_empty rows then (some 0, w) else insert_direct env (map tuple rows) w in
        (rest_of (repair_of reason lo hi markets n inserted) ≡ some n)
        × (w'.log ≡ w.log ++ map tuple rows)
        × (w'.buffer ≡ w.buffer)
  fill_rows all size reason lo hi markets [] n w = (refl, sym (append-nil w.log), refl)
  fill_rows all size reason lo hi markets (x ∷ xs) n w =
      let (a, b, c) = insert_direct-committed env all size (map tuple (x ∷ xs)) w in
      (told (insert_direct env (map tuple (x ∷ xs)) w).0 a, b, c)
    where
      told :
          (o : Option ℕ) → is_some o ≡ true → rest_of (repair_of reason lo hi markets n o) ≡ some n
      told none h = cc
      told (some m) h = refl

  -- Where the API gives what it documents for `to`, `daysAgo`, `count` and `cursor`, with at most
  -- four 429s or exceptions before each page, the window ends at most seven days ago and fits what
  -- `to` and `daysAgo` can name, a market has fewer than 25,000 trades that the requests are given
  -- and that are not older than the window, and MySQL commits every batch: a gap-fill writes the
  -- rows of exactly the trades in the window [lo, hi) of the markets, in order, past the buffer,
  -- and its record has their number.
  pub gap_fill_whole :
      (times : F → F → F) (api : Api F) (slack back now : ℕ) (reason : String) (lo : ℤ) (hi : ℕ)
      (trades : String → List (Tick F)) (markets : List String) (w : Writer Row)
      → Documents api slack back now trades
      → Fits slack back now lo hi
      → All (Listed slack back now lo hi trades) markets
      → AllCommitted env
      → 0 < env.batch_size
      → let rows = all_wanted times lo hi trades markets in
        let (r, w') = gap_fill times tuple env api now reason lo hi markets w in
        (rest_of r ≡ some (length rows))
        × (w'.log ≡ w.log ++ map tuple rows)
        × (w'.buffer ≡ w.buffer)
  unfolding gap_fill
  gap_fill_whole times api slack back now reason lo hi trades markets w doc fits listed all size =
      let rows = all_wanted times lo hi trades markets in
      rw (fetch_gap_rows_complete times api slack back now lo hi trades markets doc fits listed)
        (fill_rows all size reason lo hi markets rows (length rows) w)

abbrev pub count_text : String → List String → ℕ
count_text n [] = 0
count_text n (x ∷ xs) = if str_eq x n then suc (count_text n xs) else count_text n xs

abbrev pub count_krw : String → List (String × Bool) → ℕ
count_krw n [] = 0
count_krw n ((m, krw) ∷ ms) = if krw && str_eq m n then suc (count_krw n ms) else count_krw n ms

insert_sorted_count :
    (n m : String) (xs : List String) → count_text n (insert_sorted m xs) ≡ count_text n (m ∷ xs)
insert_sorted_count n m [] = refl
insert_sorted_count n m (x ∷ xs) = ground (arith, insert_sorted_count n m xs)

krw_sorted_count :
    (n : String) (ms : List (String × Bool)) → count_text n (krw_sorted ms) ≡ count_krw n ms
krw_sorted_count n [] = refl
krw_sorted_count n ((m, true) ∷ ms) =
    insert_sorted_count n m (krw_sorted ms) ∙ ground (arith, krw_sorted_count n ms)
krw_sorted_count n ((m, false) ∷ ms) = krw_sorted_count n ms

-- A list that the request gives has at least 100 markets, and is one of the answers: each market
-- that starts with `KRW-` as often as the answer has it, and no other.
pub fetch_krw_markets-answered :
    (answer : ℕ → Option (List (String × Bool))) (k left : ℕ) (found : List String)
    → fetch_krw_markets answer k left ≡ some found
    → (100 ≤ length found)
      × (i : ℕ) × (ms : List (String × Bool)) × (answer i ≡ some ms)
      × ((n : String) → count_text n found ≡ count_krw n ms)
unfolding fetch_krw_markets
fetch_krw_markets-answered answer k zero found h = cc
fetch_krw_markets-answered answer k (suc left) found h =
    let later = fetch_krw_markets answer (suc k) left in
    let found_of : (o : Option (List (String × Bool)))
        → answer k ≡ o
        → markets_or later o ≡ some found =
      λ o e. subst (λ o. markets_or later o ≡ some found) e h in
    elim (Option-cases (answer k)) [
      | inl e ↦ fetch_krw_markets-answered answer (suc k) left found (found_of none e)
      | inr (ms, e) ↦ elim (Bool-cases (ltb (length (krw_sorted ms)) 100)) [
        | inl b ↦ cc (
            subst (λ (x : Bool). (if x then none else some (krw_sorted ms)) ≡ some found) b
              (found_of (some ms) e))
        | inr b ↦
            let this : krw_sorted ms ≡ found = some-eq (
              subst (λ (x : Bool). (if x then none else some (krw_sorted ms)) ≡ some found) b
                (found_of (some ms) e)) in
            (
              subst (λ (l : List String). 100 ≤ length l) this (ground (arith, b)),
              k,
              ms,
              e,
              λ n. ap (count_text n) (sym this) ∙ krw_sorted_count n ms,
            )
      ]
    ]
