-- ===== src/Reconcile/Fetch.antt =====
-- Which candles are fetched, and when the fetch is given up.
use crypto_cdc_pipeline.Base.{
  ℕ, zero, suc, none, ◌∙◌, refl, Bool, not, ◌&&◌, Option, ◌+◌, ◌≤◌, ◌<◌, ◌≡◌, sym, ap, subst, inl,
  inr, ◌==◌, true, false, String, some, List, [], ◌∷◌, ◌++◌, All, arith, Bool-cases,
}
use crypto_cdc_pipeline.Reconcile.{
  Reply, no_reply, reply, is_busy, is_aborted, turn_of, fetched, aborts, no_rows, Candle, Exchange,
  last_reply, fetch_market, rows_of, fetch_rows, fetch_hourly_candles,
}

-- A place of a list.
pub data In {ℓ} {A : Type ℓ} (x : A) : List A → Type ℓ where
  first : {xs : List A} → In x (x ∷ xs)
  later : {y : A} {xs : List A} → In x xs → In x (y ∷ xs)

In-left {ℓ} : {A : Type ℓ} {x : A} {xs : List A} (ys : List A) → In x xs → In x (xs ++ ys)
In-left ys first = first
In-left ys (later i) = later (In-left ys i)

In-right {ℓ} : {A : Type ℓ} {x : A} (xs : List A) {ys : List A} → In x ys → In x (xs ++ ys)
In-right [] i = i
In-right (y ∷ xs) i = later (In-right xs i)

In-All {ℓ} : {A : Type ℓ} (P : A → Type 0) {x : A} {xs : List A} → In x xs → All P xs → P x
In-All P first h = h.0
In-All P (later i) h = In-All P i h.1

-- The first attempt of the four that is not refused as one too many is answered.
abbrev pub Gives : Exchange → String → List Candle → Type 0
Gives api m cs =
    (k : ℕ) × (k < 4)
    × ((j : ℕ) → j < k → (body : Option (List Candle)) × (api m j ≡ reply 429 body))
    × (api m k ≡ reply 200 (some cs))

last_reply-at :
    (api : Exchange) (m : String) (a left k : ℕ)
    → a ≤ k
    → k ≤ a + left
    → ((j : ℕ) → a ≤ j → j < k → is_busy (api m j) ≡ true)
    → is_busy (api m k) ≡ false
    → last_reply api m a left ≡ api m k
last_reply-at api m a zero k le le' busy good = ap (api m) (omega (arith, le, le'))
last_reply-at api m a (suc left) k le le' busy good = elim (Bool-cases (a == k)) [
  | inl e ↦
      let same : a ≡ k = ground (arith, e) in
      let free : is_busy (api m a) ≡ false = ap (λ x. is_busy (api m x)) same ∙ good in
      rw free (ap (api m) same)
  | inr e ↦
      let lt : a < k = ground (arith, e, le) in
      rw (busy a (omega arith) lt) (
        last_reply-at api m (suc a) left k (omega (arith, lt)) (omega (arith, le'))
          (λ j above. busy j (omega (arith, above))) good)
]

fetch_market-Gives :
    (api : Exchange) (m : String) (cs : List Candle)
    → Gives api m cs
    → fetch_market api m ≡ fetched cs
unfolding fetch_market
fetch_market-Gives api m cs (k, lt, busy, good) =
    let is_429 : (j : ℕ) → 0 ≤ j → j < k → is_busy (api m j) ≡ true =
      λ j above below. ap is_busy (busy j below).1 in
    let e = last_reply-at api m 0 3 k (omega arith) (omega (arith, lt)) is_429 (ap is_busy good) in
    ap turn_of (e ∙ good)

-- What holds of every inserted row of some candles holds of each of them of the day.
rows_of-All :
    (Q : String × Candle → Type 0) (day : ℕ) (m : String) (cs : List Candle)
    → ((x : String × Candle) → In x (rows_of day m (fetched cs)) → Q x)
    → All (λ (c : Candle). c.day ≡ day → Q (m, c)) cs
rows_of-All Q day m [] h = tt
rows_of-All Q day m (c ∷ cs) h = elim (Bool-cases (c.day == day)) [
  | inl e ↦
      let k : (x : String × Candle) → In x ((m, c) ∷ rows_of day m (fetched cs)) → Q x =
        λ x there. h x (rw e there) in
      (λ today. k (m, c) first, rows_of-All Q day m cs (λ x there. k x (later there)))
  | inr e ↦
      let k : (x : String × Candle) → In x (rows_of day m (fetched cs)) → Q x =
        λ x there. h x (rw e there) in
      (λ today. absurd (ground (arith, e, today)), rows_of-All Q day m cs k)
]

fetch_rows-All :
    (Q : String × Candle → Type 0) (api : Exchange) (day : ℕ) (ms : List String)
    → ((x : String × Candle) → In x (fetch_rows api day ms) → Q x)
    → All
        (λ m. (cs : List Candle) → Gives api m cs → All (λ (c : Candle). c.day ≡ day → Q (m, c)) cs)
        ms
fetch_rows-All Q api day [] h = tt
fetch_rows-All Q api day (m ∷ ms) h = (
  λ cs gives.
      let e = fetch_market-Gives api m cs gives in
      rows_of-All Q day m cs (λ x there.
        h x (In-left (fetch_rows api day ms) (subst (λ o. In x (rows_of day m o)) (sym e) there))),
  fetch_rows-All Q api day ms
      (λ x there. h x (In-right (rows_of day m (fetch_market api m)) there)),
)

-- A request that does not raise, with a body that can be read where it is needed.
abbrev pub is_readable : Reply → Bool
is_readable no_reply = false
is_readable (reply status none) = not (status == 200)
is_readable (reply status (some cs)) = true

-- The exchange's answers at a market, over the four attempts.
abbrev pub Readable : Exchange → String → Type 0
Readable api m = (k : ℕ) → k < 4 → is_readable (api m k) ≡ true

last_reply-Readable :
    (api : Exchange) (m : String) (a left : ℕ)
    → a + left < 4
    → Readable api m
    → is_readable (last_reply api m a left) ≡ true
last_reply-Readable api m a zero lt h = h a (omega (arith, lt))
last_reply-Readable api m a (suc left) lt h = elim (Bool-cases (is_busy (api m a))) [
  | inl e ↦ rw e (last_reply-Readable api m (suc a) left (omega (arith, lt)) h)
  | inr e ↦ rw e (h a (omega (arith, lt)))
]

turn_of-is_readable : (r : Reply) → is_readable r ≡ true → is_aborted (turn_of r) ≡ false
turn_of-is_readable no_reply h = cc
turn_of-is_readable (reply status none) h = ground (arith, h)
turn_of-is_readable (reply status (some cs)) h = ground arith

aborts-Readable :
    (api : Exchange) (ms : List String) → All (Readable api) ms → aborts api ms ≡ false
unfolding fetch_market
aborts-Readable api [] h = refl
aborts-Readable api (m ∷ ms) h =
    let one =
      turn_of-is_readable (last_reply api m 0 3)
        (last_reply-Readable api m 0 3 (omega arith) h.0) in
    rw one (aborts-Readable api ms h.1)

-- Where no request for candles raises, no body that is needed is unreadable, and the INSERT
-- succeeds: for every market for which the exchange gives candles, at the first of the four attempts
-- that it does not refuse as one too many, each of these candles that is of the day is inserted,
-- also where the task then raises because too many other markets failed.
pub fetch_hourly_candles-complete :
    (api : Exchange) (stores : Bool) (day : ℕ) (markets : List String) (m : String)
    (cs : List Candle) (c : Candle)
    → All (Readable api) markets
    → stores ≡ true
    → In m markets
    → Gives api m cs
    → In c cs
    → c.day ≡ day
    → In (m, c) (fetch_hourly_candles api stores day markets).0
unfolding fetch_hourly_candles
fetch_hourly_candles-complete api stores day markets m cs c up taken market gives there today =
    let Q : String × Candle → Type 0 = λ x. In x (fetch_rows api day markets) in
    let all = fetch_rows-All Q api day markets (λ x k. k) in
    let of_market =
      In-All
        (λ n. (ds : List Candle) → Gives api n ds → All (λ (d : Candle). d.day ≡ day → Q (n, d)) ds)
        market all in
    let found = In-All (λ (d : Candle). d.day ≡ day → Q (m, d)) there (of_market cs gives) today in
    let unhindered : (not (no_rows (fetch_rows api day markets)) && not stores) ≡ false =
      rw taken (ground arith) in
    rw (aborts-Readable api markets up, unhindered) found
