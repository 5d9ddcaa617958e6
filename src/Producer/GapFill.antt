-- ===== src/Producer/GapFill.antt =====
-- producer/producer.py, `fetch_gap_rows`: the trades of a window, read from the exchange's REST API.
-- `F` stands for the floats of Python and `times` for their product. The API is a parameter:
-- `api q k` is the outcome of the k-th attempt at the request q. Times are epoch milliseconds.
pub mod Complete
pub mod Ordered
pub mod Pages
use crypto_cdc_pipeline.Base.{
  ℕ, zero, suc, ◌+◌, ◌*◌, ◌/◌, ◌%◌, ◌||◌, ◌==◌, Bool, true, false, Option, none, some, List, [],
  ◌∷◌, ◌++◌, String, ltb, length, if◌then◌else◌,
}
use crypto_cdc_pipeline.Base.Int.{ℤ, pos, ◌-ℤ◌, ltb_ℤ}

-- A trade as the API gives it.
pub record Tick (F : Type 0) : Type 0 where
  pub timestamp : ℕ
  pub trade_price : F
  pub trade_volume : F
  pub ask_bid : String
  pub sequential_id : ℕ

-- The tuple for INSERT; the four quotes and `recv_ms` are NULL here.
pub record GapRow (F : Type 0) : Type 0 where
  pub market : String
  pub price : F
  pub volume : F
  pub amount : F
  pub ask_bid : String
  pub upbit_timestamp : ℕ
  pub sequential_id : ℕ
  pub ingest_source : String
  pub stream_type : String

pub record Query : Type 0 where
  pub market : String
  pub to : ℕ
  pub count : ℕ
  pub days_ago : ℤ
  pub cursor : Option ℕ

-- The JSON of a page, HTTP 429, another HTTP error, or any other exception.
pub data Response (F : Type 0) : Type 0 where
  ticks : List (Tick F) → Response F
  too_many : Response F
  http_error : Response F
  exception : Response F

abbrev pub Api : Type 0 → Type 0
Api F = Query → ℕ → Response F

-- `if cursor:`, which a cursor of 0 does not pass.
abbrev pub truthy : Option ℕ → Option ℕ
truthy none = none
truthy (some c) = if c == 0 then none else some c

-- `hi.strftime('%H:%M:%S')`, as seconds of the day, and the days since `hi`, in UTC.
abbrev pub query : ℕ → ℕ → String → Option ℕ → Query
query now_ms hi_ms market cursor = record {
  market = market;
  to = hi_ms / 1000 % 86400;
  count = 500;
  days_ago = pos (now_ms / 86400000) -ℤ pos (hi_ms / 86400000);
  cursor = truthy cursor;
}

module _ {F : Type 0} where
  -- The attempts at one request: 429 and exceptions are tried again.
  unfoldable pub attempt : Api F → Query → ℕ → ℕ → Option (List (Tick F))
  attempt api q zero k = none
  attempt api q (suc left) k = elim (api q k) [
    | ticks page ↦ some page
    | too_many ↦ attempt api q left (suc k)
    | http_error ↦ none
    | exception ↦ attempt api q left (suc k)
  ]

  abbrev pub last_id : List (Tick F) → ℕ
  last_id [] = 0
  last_id (t ∷ []) = t.sequential_id
  last_id (t ∷ u ∷ ts) = last_id (u ∷ ts)

module _ {F : Type 0} (times : F → F → F) (market : String) where
  abbrev pub gap_row : Tick F → GapRow F
  gap_row t = record {
    market = market;
    price = t.trade_price;
    volume = t.trade_volume;
    amount = times t.trade_price t.trade_volume;
    ask_bid = t.ask_bid;
    upbit_timestamp = t.timestamp;
    sequential_id = t.sequential_id;
    ingest_source = "gapfill";
    stream_type = "REALTIME";
  }

  -- The rows of one page, and whether a trade older than the window ended it.
  unfoldable pub scan_page : ℤ → ℕ → List (Tick F) → List (GapRow F) × Bool
  scan_page lo hi [] = ([], false)
  scan_page lo hi (t ∷ ts) =
      let rest = scan_page lo hi ts in
      if ltb_ℤ (pos t.timestamp) lo
      then ([], true)
      else if ltb t.timestamp hi
      then (gap_row t ∷ rest.0, rest.1)
      else rest

  -- The pages of one market, at most as many as the fuel.
  unfoldable pub fetch_pages : Api F → ℕ → ℤ → ℕ → ℕ → Option ℕ → List (GapRow F)
  fetch_pages api now lo hi zero cursor = []
  fetch_pages api now lo hi (suc n) cursor = elim (attempt api (query now hi market cursor) 5 0) [
    | none ↦ []
    | some [] ↦ []
    | some (t ∷ ts) ↦
        let page = scan_page lo hi (t ∷ ts) in
        elim (page.1 || ltb (length (t ∷ ts)) 500) [
          | true ↦ page.0
          | false ↦ page.0 ++ fetch_pages api now lo hi n (some (last_id (t ∷ ts)))
        ]
  ]

module _ {F : Type 0} (times : F → F → F) where
  abbrev pub all_rows : Api F → ℕ → ℤ → ℕ → List String → List (GapRow F)
  all_rows api now lo hi [] = []
  all_rows api now lo hi (m ∷ markets) =
      fetch_pages times m api now lo hi 50 none ++ all_rows api now lo hi markets

  -- `rest_n` counts the rows.
  unfoldable pub fetch_gap_rows : Api F → ℕ → ℤ → ℕ → List String → List (GapRow F) × ℕ
  fetch_gap_rows api now lo hi markets =
      let rows = all_rows api now lo hi markets in (rows, length rows)
