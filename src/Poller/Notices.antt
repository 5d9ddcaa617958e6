-- ===== src/Poller/Notices.antt =====
-- scripts/labels/poll_exchange_notices.py, `main`: the notices of the exchange, every hour. The
-- answers of the exchange and of ClickHouse are arguments; a notice is its id.
pub mod Fresh
use crypto_cdc_pipeline.Base.{
  ℕ, zero, suc, Bool, true, false, not, ◌&&◌, ◌||◌, ◌==◌, Option, none, some, List, [], ◌∷◌, ◌++◌,
  ltb, leb, min, take, length, is_empty, if◌then◌else◌,
}

abbrev pub mem : ℕ → List ℕ → Bool
mem n [] = false
mem n (x ∷ xs) = x == n || mem n xs

-- `sorted(known, reverse=True)`, each once.
abbrev pub insert_down : ℕ → List ℕ → List ℕ
insert_down n [] = n ∷ []
insert_down n (x ∷ xs) =
    let rest = insert_down n xs in
    if ltb x n then n ∷ x ∷ xs else if x == n then x ∷ xs else x ∷ rest

abbrev pub sorted_down : List ℕ → List ℕ
sorted_down [] = []
sorted_down (x ∷ xs) = insert_down x (sorted_down xs)

abbrev pub refresh_recent : ℕ
refresh_recent = 15

abbrev pub refresh_of : List ℕ → List ℕ
refresh_of known = take refresh_recent (sorted_down known)

abbrev pub max_pages : Bool → List ℕ → ℕ
max_pages full known = if full || is_empty known then 40 else 3

-- `min`, of an empty list 0.
abbrev pub least : List ℕ → ℕ
least [] = 0
least (x ∷ []) = x
least (x ∷ y ∷ ys) = min x (least (y ∷ ys))

abbrev pub all_known : List ℕ → List ℕ → Bool
all_known [] known = true
all_known (n ∷ ns) known = mem n known && all_known ns known

-- The ids of a page whose bodies are asked for; `detail` is whether the exchange gives one.
abbrev pub fetch_page : (ℕ → Bool) → List ℕ → List ℕ → List ℕ → List ℕ
fetch_page detail known refresh [] = []
fetch_page detail known refresh (n ∷ ns) =
    let rest = fetch_page detail known refresh ns in
    if mem n known && not (mem n refresh) then rest else if detail n then n ∷ rest else rest

abbrev pub caught_up : List ℕ → List ℕ → List ℕ → Bool
caught_up known refresh ns =
    not (is_empty known) && all_known ns known && ltb (least ns) (least refresh)

-- The rows from a page on: the loop ends at a page that fails or is empty, and after one where
-- it has caught up.
abbrev pub page_rows : (ℕ → Bool) → List ℕ → List ℕ → Option (List ℕ) → List ℕ → List ℕ
page_rows detail known refresh none rest = []
page_rows detail known refresh (some ns) rest =
    let rows = fetch_page detail known refresh ns in
    if is_empty ns then [] else if caught_up known refresh ns then rows else rows ++ rest

-- The pages from a number on; `page` gives a list, or nothing where the request fails.
abbrev pub fetch_pages : (ℕ → Option (List ℕ)) → (ℕ → Bool) → List ℕ → List ℕ → ℕ → ℕ → List ℕ
fetch_pages page detail known refresh p zero = []
fetch_pages page detail known refresh p (suc left) =
    page_rows detail known refresh (page p) (fetch_pages page detail known refresh (suc p) left)

-- The ids in the table after a run; `full` is --full, with which nothing counts as known. An id
-- that is there already gets its new body.
unfoldable pub poll_notices : (ℕ → Option (List ℕ)) → (ℕ → Bool) → Bool → Bool → List ℕ → List ℕ
poll_notices page detail full stores table =
    let known = if full then [] else table in
    let rows = fetch_pages page detail known (refresh_of known) 1 (max_pages full known) in
    if stores then rows ++ table else table
