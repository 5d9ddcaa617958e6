-- ===== src/Producer/Fill.antt =====
-- producer/producer.py, `gap_fill` and `record_repair`, which join the requests of a window to the
-- writer, and `fetch_krw_markets`.
pub mod Whole
use Prim.Native.String.{compare}
use Prim.Native.Nat.{Ordering}
use crypto_cdc_pipeline.Base.{
  ℕ, zero, suc, ◌+◌, Bool, true, false, String, Option, none, some, List, [], ◌∷◌, ◌++◌, map, ltb,
  length, is_empty, if◌then◌else◌,
}
use crypto_cdc_pipeline.Base.Int.{ℤ}
use crypto_cdc_pipeline.Producer.Writer.{Env, Writer, insert_direct}
use crypto_cdc_pipeline.Producer.GapFill.{GapRow, Api, fetch_gap_rows}

-- A row of ingest_repairs, without the time it took; a failure to write it has no effect.
pub record Repair : Type 0 where
  pub reason : String
  pub window_start : ℤ
  pub window_end : ℕ
  pub markets : ℕ
  pub rest_rows : ℕ
  pub inserted_rows : ℕ

abbrev pub repair_of : String → ℤ → ℕ → List String → ℕ → Option ℕ → Option Repair
repair_of reason lo hi markets rest_n none = none
repair_of reason lo hi markets rest_n (some n) = some (record {
  reason = reason;
  window_start = lo;
  window_end = hi;
  markets = length markets;
  rest_rows = rest_n;
  inserted_rows = n;
})

-- The rows are written past the buffer; an exception of the writer leaves no repair. `tuple` is
-- the row as the writer has it.
unfoldable pub gap_fill :
    {F Row : Type 0}
    → (F → F → F)
    → (GapRow F → Row)
    → Env Row
    → Api F
    → ℕ
    → String
    → ℤ
    → ℕ
    → List String
    → Writer Row
    → Option Repair × Writer Row
gap_fill times tuple env api now reason lo hi markets w =
    let (rows, rest_n) = fetch_gap_rows times api now lo hi markets in
    let (inserted, w') =
      if is_empty rows then (some 0, w) else insert_direct env (map tuple rows) w in
    (repair_of reason lo hi markets rest_n inserted, w')

-- `sorted` on texts.
abbrev pub insert_sorted : String → List String → List String
insert_sorted m [] = m ∷ []
insert_sorted m (x ∷ xs) =
    let rest = insert_sorted m xs in elim (compare x m) [ Ordering.gt ↦ m ∷ x ∷ xs | _ ↦ x ∷ rest ]

-- The markets of an answer whose flag says that they start with `KRW-`.
abbrev pub krw_sorted : List (String × Bool) → List String
krw_sorted [] = []
krw_sorted ((m, krw) ∷ ms) = let rest = krw_sorted ms in if krw then insert_sorted m rest else rest

abbrev pub markets_or : Option (List String) → Option (List (String × Bool)) → Option (List String)
markets_or later none = later
markets_or later (some ms) = if ltb (length (krw_sorted ms)) 100 then none else some (krw_sorted ms)

-- The attempts from a number on; an answer is nothing where the request raises. A short answer
-- ends them.
unfoldable pub fetch_krw_markets :
    (ℕ → Option (List (String × Bool))) → ℕ → ℕ → Option (List String)
fetch_krw_markets answer k zero = none
fetch_krw_markets answer k (suc left) =
    let later = fetch_krw_markets answer (suc k) left in markets_or later (answer k)
