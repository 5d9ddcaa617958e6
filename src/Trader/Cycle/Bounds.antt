-- ===== src/Trader/Cycle/Bounds.antt =====
-- How many orders a cycle places.
use crypto_cdc_pipeline.Base.{
  ℕ, ◌+◌, ◌*◌, ◌≤◌, ◌≡◌, refl, ap, Option, none, some, String, str_eq, eq_iff, List, [], ◌∷◌, ◌++◌,
  arith, Bool-cases, Option-cases, inl, inr, ltb, leb, length, length-append, max, if◌then◌else◌,
  >>=-eq-some, some-eq, ◌||◌,
}
use crypto_cdc_pipeline.Base.Int.{ℤ, pos, pos_part, ltb_ℤ, leb_ℤ, ◌-ℤ◌}
use crypto_cdc_pipeline.Trader.Plan.{
  SymbolFilters, Plan, maker_plans, unwind_plans, plan_orders, quantize, taker_order,
}
use crypto_cdc_pipeline.Trader.Cycle.{
  Config, Request, Cycle, Market, place, place_all, trade_symbol, cycle_symbol, cycle, plans_for,
}

length-maker_plans :
    (one : ℕ) (f : SymbolFilters) (qty : ℕ) (px : ℤ) → length (maker_plans one f qty px) ≤ 1
unfolding maker_plans
length-maker_plans one f qty px = ground arith

length-unwind_plans :
    (one : ℕ) (f : SymbolFilters) (bid : ℕ) (amount : ℤ)
    → length (unwind_plans one f bid amount) ≤ 1
unfolding unwind_plans
length-unwind_plans one f bid amount = ground arith

pub length-plan_orders :
    (one : ℕ) (f : SymbolFilters) (bid ask : ℕ) (net_qty : ℤ) (notional ticks : ℕ)
    (plans : List Plan)
    → plan_orders one f bid ask net_qty notional ticks ≡ some plans
    → length plans ≤ 3
unfolding plan_orders
length-plan_orders one f bid ask net_qty notional ticks plans h =
    let (qty, e₁, h₁) = >>=-eq-some (quantize (pos (notional * one)) ask f.step_size) _ h in
    let small = leb_ℤ qty (pos 0) || ltb (pos_part qty * ask) (f.min_notional * one) in
    elim (Bool-cases small) [
      | inl nothing ↦ let e : [] ≡ plans = some-eq (rw nothing at h₁) in omega (arith, ap length e)
      | inr planned ↦
          let (maker_px, e₂, h₂) =
            >>=-eq-some (quantize (pos bid -ℤ pos (f.tick_size * ticks)) 1 f.tick_size) _
              (rw planned at h₁) in
          let (amount, e₃, h₃) =
            >>=-eq-some
              (if ltb_ℤ (pos 0) net_qty then quantize net_qty 1 f.step_size else some (pos 0)) _
              h₂ in
          let makers = maker_plans one f (pos_part qty) maker_px in
          let rest = taker_order ask (pos_part qty) ∷ unwind_plans one f bid amount in
          let e : makers ++ rest ≡ plans = some-eq h₃ in
          omega (
            arith,
            ap length e,
            length-append makers rest,
            length-maker_plans one f (pos_part qty) maker_px,
            length-unwind_plans one f bid amount,
          )
    ]

-- How many of the requests are for the symbol.
unfoldable pub placed : String → List Request → ℕ
placed symbol [] = 0
placed symbol (r ∷ rs) = if str_eq r.symbol symbol then placed symbol rs + 1 else placed symbol rs

placed-append :
    (symbol : String) (rs : List Request) (r : Request)
    → placed symbol (rs ++ r ∷ []) ≡ placed symbol rs + (if str_eq r.symbol symbol then 1 else 0)
unfolding placed
placed-append symbol [] r = ground arith
placed-append symbol (q ∷ rs) r = ground (arith, placed-append symbol rs r)

placed-place :
    (symbol : String) (r : Request) (answer : Option ℕ) (c : Cycle)
    → placed symbol (place r answer c).requests
      ≡ placed symbol c.requests + (if str_eq r.symbol symbol then 1 else 0)
unfolding place
placed-place symbol r none c = placed-append symbol c.requests r
placed-place symbol r (some id) c = placed-append symbol c.requests r

placed-none : (symbol : String) → placed symbol [] ≡ 0
unfolding placed
placed-none symbol = refl

at_most_once : (n r : ℕ) → n ≤ 1 → n * r ≤ r
at_most_once n r h = grind arith

module _ (config : Config) (market : Market) where
  placed-place_all :
      (symbol other : String) (n : ℕ) (plans : List Plan) (c : Cycle)
      → placed other (place_all config market symbol n plans c).requests
        ≡ placed other c.requests + (if str_eq symbol other then length plans else 0)
  unfolding place_all
  placed-place_all symbol other n [] c = ground arith
  placed-place_all symbol other n (p ∷ plans) c =
      let r : Request = record { symbol = symbol; plan = p; number = n + 1 } in
      ground (
        arith,
        placed-place_all symbol other (n + 1) plans (place r (market.answer r) c),
        placed-place other r (market.answer r) c,
      )

  -- What one symbol of the cycle may add: three orders, if the day's limit is not reached.
  abbrev room : String → ℕ
  room symbol = if ltb (market.orders_today symbol) config.max_orders then 3 else 0

  trade_symbol_bound :
      (symbol other : String) (f : SymbolFilters) (book : Option (ℕ × ℕ)) (c c' : Cycle)
      → trade_symbol config market symbol f book c ≡ some c'
      → placed other c'.requests ≤ placed other c.requests + (if str_eq symbol other then 3 else 0)
  unfolding trade_symbol
  trade_symbol_bound symbol other f none c c' h =
      let e : record c { errors = c.errors + 1 } ≡ c' = some-eq h in
      omega (arith, ap (λ x. placed other x.requests) e)
  trade_symbol_bound symbol other f (some (bid, ask)) c c' h =
      go (plans_for config market f bid ask (market.net_qty symbol)) refl h
    where
      go :
          (planned : Option (List Plan))
          → plans_for config market f bid ask (market.net_qty symbol) ≡ planned
          → (let out : Option Cycle = elim planned [
            | none ↦ none
            | some plans ↦
                some (place_all config market symbol (market.orders_today symbol) plans c)
          ] in
              out)
            ≡ some c'
          → placed other c'.requests
            ≤ placed other c.requests + (if str_eq symbol other then 3 else 0)
      go none e h = cc
      go (some plans) e h =
          let e' : place_all config market symbol (market.orders_today symbol) plans c ≡ c' =
            some-eq h in
          ground (
            arith,
            ap (λ (x : Cycle). placed other x.requests) e',
            placed-place_all symbol other (market.orders_today symbol) plans c,
            length-plan_orders config.one f bid ask (market.net_qty symbol) config.notional
                config.maker_ticks plans e,
          )

  cycle_symbol_bound :
      (symbol other : String) (filters : Option SymbolFilters) (c c' : Cycle)
      → cycle_symbol config market symbol filters c ≡ some c'
      → placed other c'.requests
        ≤ placed other c.requests + (if str_eq symbol other then room symbol else 0)
  unfolding cycle_symbol
  cycle_symbol_bound symbol other none c c' h =
      omega (arith, ap (λ x. placed other x.requests) (some-eq h))
  cycle_symbol_bound symbol other (some f) c c' h =
      elim (Bool-cases (leb config.max_orders (market.orders_today symbol))) [
        | inl full ↦
            omega
              (arith, ap (λ x. placed other x.requests) (some-eq {a = c} {b = c'} (rw full at h)))
        | inr free ↦ ground (
          arith,
          trade_symbol_bound symbol other f (market.book_ticker symbol) c c' (rw free at h),
          free,
        )
      ]

  abbrev pub occurrences : String → List String → ℕ
  occurrences s [] = 0
  occurrences s (t ∷ ts) = if str_eq t s then occurrences s ts + 1 else occurrences s ts

  cycle_added :
      (symbols : List String) (s : String) (c c' : Cycle)
      → cycle config market symbols c ≡ some c'
      → placed s c'.requests ≤ placed s c.requests + occurrences s symbols * room s
  unfolding cycle
  cycle_added [] s c c' h = omega (arith, ap (λ x. placed s x.requests) (some-eq h))
  cycle_added (symbol ∷ symbols) s c c' h =
      elim (Option-cases (cycle_symbol config market symbol (market.filters symbol) c)) [
        | inl stopped ↦ cc
        | inr (c₁, e) ↦
            let ih = cycle_added symbols s c₁ c' (rw (e, cycle) at h) in
            let step = cycle_symbol_bound symbol s (market.filters symbol) c c₁ e in
            elim (Bool-cases (str_eq symbol s)) [
              | inl same ↦
                  rw same (ground (arith, ih, rw same at step, ap room ((eq_iff symbol s).0 same)))
              | inr differ ↦ rw differ (omega (arith, ih, rw differ at step))
            ]
      ]

  -- A cycle that runs to its end places at most three orders for a symbol that it lists once, and
  -- none if the day's limit is reached: the day's count never passes the limit by more than two
  -- (the limit is tested before the orders of a cycle, not before each order).
  pub cycle_bound :
      (symbols : List String) (s : String) (c c' : Cycle)
      → cycle config market symbols c ≡ some c'
      → occurrences s symbols ≤ 1
      → c.requests ≡ []
      → market.orders_today s + placed s c'.requests
        ≤ max (market.orders_today s) (config.max_orders + 2)
  cycle_bound symbols s c c' h once fresh = ground (
    arith,
    cycle_added symbols s c c' h,
    at_most_once (occurrences s symbols) (room s) once,
    ap (placed s) fresh,
    placed-none s,
  )
