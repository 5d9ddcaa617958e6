-- ===== src/Trader/Plan/Sound.antt =====
-- What holds of every planned order.
use native.Mathlib.Nat.{mul-mod_left, div-mul-le_self}
use crypto_cdc_pipeline.Base.{
  ℕ, zero, suc, ◌+◌, ◌*◌, ◌/◌, ◌%◌, ◌≤◌, ◌<◌, ◌≡◌, refl, ap, ◌==◌, true, false, some, List, [], ◌∷◌,
  All, All-append, All-if, &&_split, ||_split, leb→le, ◌&&◌, >>=-eq-some, some-eq, subst, arith,
  Bool-cases, inl, inr, ltb, leb, if◌then◌else◌, ◌||◌,
}
use crypto_cdc_pipeline.Base.Int.{ℤ, pos, negsuc, pos_part, ◌≤ℤ◌, ◌-ℤ◌, sub-pos_part, ltb_ℤ, leb_ℤ}
use crypto_cdc_pipeline.Trader.Plan.{
  SymbolFilters, Strategy, maker_probe, taker_ioc, unwind, neg, buy, sell, gtc, ioc, Plan, quantize,
  maker_order, unwind_order, maker_plans, unwind_plans, plan_orders,
}

not_pos_neg : (n : ℕ) → ltb_ℤ (pos 0) (neg n) ≡ false
not_pos_neg zero = refl
not_pos_neg (suc n) = ground arith

quantize_bound : (n den step : ℕ) → n / (den * step) * step * den ≤ n
quantize_bound n den step = omega (arith, div-mul-le_self n (den * step))

-- A positive quantized amount is a multiple of the step, and at most the amount.
pub quantize_pos :
    (v : ℤ) (den step : ℕ) (q : ℤ)
    → quantize v den step ≡ some q
    → ltb_ℤ (pos 0) q ≡ true
    → (0 < pos_part q) × (pos_part q % step ≡ 0) × (pos_part q * den ≤ pos_part v)
unfolding quantize
quantize_pos (pos n) den step q h p = elim (Bool-cases (den * step == 0)) [
  | inl z ↦ ground arith
  | inr z ↦
      let e : q ≡ pos (n / (den * step) * step) = ground arith in
      (ground arith, rw e (mul-mod_left (n / (den * step)) step), rw e (quantize_bound n den step))
]
quantize_pos (negsuc n) den step q h p = elim (Bool-cases (den * step == 0)) [
  | inl z ↦ ground arith
  | inr z ↦
      let e : q ≡ neg (suc n / (den * step) * step) = ground arith in
      absurd (
        ground
          (arith, not_pos_neg (suc n / (den * step) * step), ap (λ (x : ℤ). ltb_ℤ (pos 0) x) e))
]

module _ (one : ℕ) (f : SymbolFilters) (bid ask : ℕ) (net_qty : ℤ) (notional maker_ticks : ℕ) where
  -- What each rule promises of its order.
  abbrev pub FollowsRule : Strategy → Plan → Type 0
  FollowsRule maker_probe p =
      (p.side ≡ buy)
      × (p.tif ≡ gtc)
      × (p.price + f.tick_size * maker_ticks ≤ bid)
      × (p.qty * ask ≤ notional * one)
  FollowsRule taker_ioc p =
      (p.side ≡ buy) × (p.tif ≡ ioc) × (p.price ≡ ask) × (p.qty * ask ≤ notional * one)
  FollowsRule unwind p = (p.side ≡ sell) × (p.tif ≡ ioc) × (p.price ≡ bid) × (pos p.qty ≤ℤ net_qty)

  -- An order within LOT_SIZE, PRICE_FILTER's tick and NOTIONAL that follows the rule of its strategy.
  pub record IsSound (p : Plan) : Type 0 where
    pub positive : 0 < p.qty
    pub in_lots : p.qty % f.step_size ≡ 0
    pub worth : f.min_notional * one ≤ p.qty * p.price
    pub on_tick : p.price % f.tick_size ≡ 0
    pub rule : FollowsRule p.strategy p

  maker_plans-IsSound :
      (qty : ℕ) (maker_px : ℤ)
      → 0 < qty
      → qty % f.step_size ≡ 0
      → qty * ask ≤ notional * one
      → quantize (pos bid -ℤ pos (f.tick_size * maker_ticks)) 1 f.tick_size ≡ some maker_px
      → All IsSound (maker_plans one f qty maker_px)
  unfolding maker_plans
  maker_plans-IsSound qty maker_px p l b q =
      let worthy = leb (f.min_notional * one) (qty * pos_part maker_px) in
      All-if IsSound (ltb_ℤ (pos 0) maker_px && worthy) (maker_order (pos_part maker_px) qty ∷ [])
        λ t.
          let (positive, worth) = &&_split (ltb_ℤ (pos 0) maker_px) worthy t in
          let (up, on_tick, below) = quantize_pos _ 1 f.tick_size maker_px q positive in
          (
            record {
              positive = p;
              in_lots = l;
              worth = leb→le _ _ worth;
              on_tick = on_tick;
              rule = (
                refl,
                refl,
                sub-pos_part bid (f.tick_size * maker_ticks) (pos_part maker_px) up
                    (omega (arith, below)),
                b,
              );
            },
            tt,
          )

  unwind_plans-IsSound :
      (amount : ℤ)
      → bid % f.tick_size ≡ 0
      → (ltb_ℤ (pos 0) amount ≡ true
          → (pos_part amount % f.step_size ≡ 0) × (pos (pos_part amount) ≤ℤ net_qty))
      → All IsSound (unwind_plans one f bid amount)
  unfolding unwind_plans
  unwind_plans-IsSound amount quoted h =
      let worthy = leb (f.min_notional * one) (pos_part amount * bid) in
      All-if IsSound (ltb_ℤ (pos 0) amount && worthy) (unwind_order bid (pos_part amount) ∷ []) λ t.
        let (positive, worth) = &&_split (ltb_ℤ (pos 0) amount) worthy t in
        let (in_lots, within) = h positive in
        (
          record {
            positive = ground (arith, positive);
            in_lots = in_lots;
            worth = leb→le _ _ worth;
            on_tick = quoted;
            rule = (refl, refl, refl, within);
          },
          tt,
        )

  unwind_amount :
      (amount : ℤ)
      → (if ltb_ℤ (pos 0) net_qty then quantize net_qty 1 f.step_size else some (pos 0))
        ≡ some amount
      → ltb_ℤ (pos 0) amount ≡ true
      → (pos_part amount % f.step_size ≡ 0) × (pos (pos_part amount) ≤ℤ net_qty)
  unwind_amount amount h t = elim (Bool-cases (ltb_ℤ (pos 0) net_qty)) [
    | inl long ↦
        let (up, l, below) = quantize_pos net_qty 1 f.step_size amount (rw long at h) t in
        (l, ground (arith, below, long))
    | inr short ↦ let e : pos 0 ≡ amount = some-eq (rw short at h) in absurd (ground (arith, e, t))
  ]

  -- Where the bid and the ask are quoted on the symbol's tick, every planned order has a positive
  -- quantity in whole lots, a price on the tick and the minimum notional, and follows the rule of its
  -- strategy: a maker probe buys at least `maker_ticks` ticks below the bid, a taker buys at the ask, an unwinding
  -- order sells at the bid at most what was bought; and no buy costs more at the ask than the notional amount.
  pub plan_orders-IsSound :
      (plans : List Plan)
      → bid % f.tick_size ≡ 0
      → ask % f.tick_size ≡ 0
      → plan_orders one f bid ask net_qty notional maker_ticks ≡ some plans
      → All IsSound plans
  unfolding plan_orders
  plan_orders-IsSound plans bid_quoted ask_quoted h =
      let (qty, e₁, h₁) = >>=-eq-some (quantize (pos (notional * one)) ask f.step_size) _ h in
      let small = leb_ℤ qty (pos 0) || ltb (pos_part qty * ask) (f.min_notional * one) in
      elim (Bool-cases small) [
        | inl none_planned ↦
            let e : [] ≡ plans = some-eq (rw none_planned at h₁) in subst (All IsSound) e tt
        | inr planned ↦
            let (maker_px, e₂, h₂) =
              >>=-eq-some (quantize (pos bid -ℤ pos (f.tick_size * maker_ticks)) 1 f.tick_size) _
                (rw planned at h₁) in
            let (amount, e₃, h₃) =
              >>=-eq-some
                (if ltb_ℤ (pos 0) net_qty then quantize net_qty 1 f.step_size else some (pos 0)) _
                h₂ in
            let (some_qty, worth) = ||_split (leb_ℤ qty (pos 0)) _ planned in
            let (up, in_lots, below) = quantize_pos _ ask f.step_size qty e₁ (ground arith) in
            subst (All IsSound) (some-eq h₃) (
              All-append IsSound _ _
                (maker_plans-IsSound (pos_part qty) maker_px up in_lots below e₂)
                (
                  record {
                    positive = up;
                    in_lots = in_lots;
                    worth = ground (arith, worth);
                    on_tick = ask_quoted;
                    rule = (refl, refl, refl, below);
                  },
                  unwind_plans-IsSound amount bid_quoted (unwind_amount amount e₃),
                ))
      ]
