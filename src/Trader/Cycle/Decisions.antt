-- ===== src/Trader/Cycle/Decisions.antt =====
-- When an order is amended, when it is cancelled, and when a reset of the test network is assumed.
use crypto_cdc_pipeline.Base.{
  ℕ, ◌*◌, ◌%◌, ◌≤◌, ◌<◌, ◌≡◌, ◌⊎◌, refl, sym, subst, ◌&&◌, ◌==◌, Bool, true, false, Option, none,
  some, some-eq, List, [], ◌∷◌, String, str_eq, eq_iff, arith, Bool-cases, Option-cases, inl, inr,
  ltb, leb, &&_split, All,
}
use crypto_cdc_pipeline.Base.Int.{pos, pos_part, ltb_ℤ}
use crypto_cdc_pipeline.Trader.Plan.{SymbolFilters, quantize}
use crypto_cdc_pipeline.Trader.Plan.Sound.{quantize_pos}
use crypto_cdc_pipeline.Trader.Ledger.{Order, Orders, Ledger, apply_reset}
use crypto_cdc_pipeline.Trader.Cycle.{
  Change, amend_keep_priority, cancel, then_cancel, amend_then_cancel, StatusReply, is_absent,
  is_working, first_open, later_filled, last_filled, check_reset,
}

abbrev pub cancels : List Change → Bool
cancels [] = false
cancels (cancel ∷ cs) = true
cancels (amend_keep_priority h ∷ cs) = cancels cs

-- An amendment that the exchange's filters take, to at most half of the quantity.
abbrev pub IsFair : ℕ → SymbolFilters → ℕ → ℕ → Change → Type 0
IsFair one f qty price cancel = Unit {0}
IsFair one f qty price (amend_keep_priority half) =
    (f.amend_allowed ≡ true)
    × (0 < half)
    × (half * 2 ≤ qty)
    × (half % f.step_size ≡ 0)
    × (f.min_notional * one ≤ half * price)

-- Every amendment is fair; there is a cancel exactly if both looks found the order open; and nothing
-- at all if the first did not.
abbrev pub Treated : ℕ → SymbolFilters → Bool → Bool → ℕ → ℕ → List Change → Type 0
Treated one f first last qty price changes =
    All (IsFair one f qty price) changes
    × (cancels changes ≡ first && last)
    × ((first ≡ true) ⊎ (changes ≡ []))

cancels-then_cancel : (last : Bool) → cancels (then_cancel last) ≡ last
cancels-then_cancel true = refl
cancels-then_cancel false = refl

All-then_cancel :
    (one : ℕ) (f : SymbolFilters) (qty price : ℕ) (last : Bool)
    → All (IsFair one f qty price) (then_cancel last)
All-then_cancel one f qty price true = (tt, tt)
All-then_cancel one f qty price false = tt

-- An order that is not open in the ledger at the first look is left alone; one that is is
-- amended only within the filters, to at most half, and cancelled exactly if it is still open at the second look.
pub amend_then_cancel-IsFair :
    (one : ℕ) (f : SymbolFilters) (first last : Bool) (qty price : ℕ) (changes : List Change)
    → amend_then_cancel one (some f) first last qty price ≡ some changes
    → Treated one f first last qty price changes
unfolding amend_then_cancel
amend_then_cancel-IsFair one f false last qty price changes h =
    let e : [] ≡ changes = some-eq h in (ground (arith, e), ground (arith, e), inr (sym e))
amend_then_cancel-IsFair one f true last qty price changes h =
    elim (Option-cases (quantize (pos qty) 2 f.step_size)) [
      | inl raised ↦ cc
      | inr (half, e) ↦
          let small =
            f.amend_allowed
            && ltb_ℤ (pos 0) half
            && leb (f.min_notional * one) (pos_part half * price) in
          elim (Bool-cases small) [
            | inl t ↦
                let (up, in_lots, below) =
                  quantize_pos (pos qty) 2 f.step_size half e (ground (arith, t)) in
                let e' : amend_keep_priority (pos_part half) ∷ then_cancel last ≡ changes =
                  some-eq (rw t at rw (e, amend_then_cancel) at h) in
                subst (Treated one f true last qty price) e' (
                  (
                    (ground (arith, t), up, below, in_lots, ground (arith, t)),
                    All-then_cancel one f qty price last,
                  ),
                  cancels-then_cancel last,
                  inl refl,
                )
            | inr t ↦
                let e' : then_cancel last ≡ changes =
                  some-eq (rw t at rw (e, amend_then_cancel) at h) in
                subst (Treated one f true last qty price) e'
                  (All-then_cancel one f qty price last, cancels-then_cancel last, inl refl)
          ]
    ]

-- The order stands in the table.
abbrev pub Listed : Order → Orders → Type 0
Listed o [] = ⊥
Listed o (p ∷ os) = (o ≡ p) ⊎ Listed o os

first_open-Listed :
    (epoch : ℕ) (os : Orders) (o : Order)
    → first_open epoch os ≡ some o
    → Listed o os × (is_working o.live.status ≡ true) × (o.reset_epoch ≡ epoch)
unfolding first_open
first_open-Listed epoch [] o h = cc
first_open-Listed epoch (p ∷ os) o h =
    elim (Bool-cases (is_working p.live.status && p.reset_epoch == epoch)) [
      | inl t ↦
          let (working, now) = &&_split (is_working p.live.status) _ t in
          let e : p ≡ o = some-eq (rw t at h) in
          (inl (sym e), ground (arith, working, e), ground (arith, now, e))
      | inr t ↦ let (l, w, n) = first_open-Listed epoch os o (rw t at h) in (inr l, w, n)
    ]

-- A filled order of the symbol in this epoch.
abbrev pub IsFilled : String → ℕ → Order → Type 0
IsFilled symbol epoch o =
    (o.fixed.symbol ≡ symbol) × (o.live.status ≡ "FILLED") × (o.reset_epoch ≡ epoch)

later_filled-Listed :
    (symbol : String) (epoch : ℕ) (os : Orders) (o p : Order)
    → IsFilled symbol epoch p
    → (rest : Option Order) → ((q : Order) → rest ≡ some q → Listed q os × IsFilled symbol epoch q)
    → later_filled p rest ≡ some o
    → Listed o (p ∷ os) × IsFilled symbol epoch o
later_filled-Listed symbol epoch os o p filled none ih h =
    let e : p ≡ o = some-eq h in (inl (sym e), subst (IsFilled symbol epoch) e filled)
later_filled-Listed symbol epoch os o p filled (some q) ih h =
    elim (Bool-cases (ltb p.live.updated_ms q.live.updated_ms)) [
      | inl newer ↦
          let e : q ≡ o = some-eq (rw newer at h) in
          let (l, f) = ih q refl in
          (inr (subst (λ x. Listed x os) e l), subst (IsFilled symbol epoch) e f)
      | inr older ↦
          let e : p ≡ o = some-eq (rw older at h) in
          (inl (sym e), subst (IsFilled symbol epoch) e filled)
    ]

last_filled-Listed :
    (symbol : String) (epoch : ℕ) (os : Orders) (o : Order)
    → last_filled symbol epoch os ≡ some o
    → Listed o os × IsFilled symbol epoch o
unfolding last_filled
last_filled-Listed symbol epoch [] o h = cc
last_filled-Listed symbol epoch (p ∷ os) o h =
    elim (Bool-cases
      (str_eq p.fixed.symbol symbol && str_eq p.live.status "FILLED" && p.reset_epoch == epoch)) [
        | inr t ↦ let (l, w) = last_filled-Listed symbol epoch os o (rw t at h) in (inr l, w)
        | inl t ↦
            let filled : IsFilled symbol epoch p = (
              (eq_iff p.fixed.symbol symbol).0 (ground (arith, t)),
              (eq_iff p.live.status "FILLED").0 (ground (arith, t)),
              ground (arith, t),
            ) in
            later_filled-Listed symbol epoch os o p filled (last_filled symbol epoch os)
              (last_filled-Listed symbol epoch os) (rw t at h)
      ]

-- The ledger is reset only if the exchange does not know two orders of it: one that is open and
-- one of the same symbol that is filled, both of the current epoch; otherwise the ledger is left as it is.
pub check_reset-needs_two :
    (reply : ℕ → StatusReply) (l : Ledger)
    → (check_reset reply l ≡ l)
      ⊎ ((check_reset reply l ≡ apply_reset l)
          × ((o : Order) × (p : Order) × Listed o l.orders
              × Listed p l.orders
              × (is_working o.live.status ≡ true)
              × (o.reset_epoch ≡ l.epoch)
              × IsFilled o.fixed.symbol l.epoch p
              × (is_absent (reply o.order_id) ≡ true)
              × (is_absent (reply p.order_id) ≡ true)))
unfolding check_reset
check_reset-needs_two reply l = elim (Option-cases (first_open l.epoch l.orders)) [
  | inl idle ↦ inl (rw (idle, check_reset))
  | inr (o, e) ↦ elim (Bool-cases (is_absent (reply o.order_id))) [
    | inr known ↦ inl (rw (e, check_reset) (rw known))
    | inl gone ↦ elim (Option-cases (last_filled o.fixed.symbol l.epoch l.orders)) [
      | inl none_filled ↦ inl (rw (e, check_reset) (rw (gone, none_filled)))
      | inr (p, e') ↦ elim (Bool-cases (is_absent (reply p.order_id))) [
        | inr known ↦ inl (rw (e, check_reset) (rw (gone, e', known)))
        | inl gone' ↦
            let (listed, working, now) = first_open-Listed l.epoch l.orders o e in
            let (listed', filled) = last_filled-Listed o.fixed.symbol l.epoch l.orders p e' in
            inr (
              rw (e, check_reset) (rw (gone, e', gone')),
              (o, p, listed, listed', working, now, filled, gone, gone'),
            )
      ]
    ]
  ]
]
