-- ===== src/Trader/Reconcile/Agrees.antt =====
-- A ledger that has what the exchange has.
use mathlib.Core.List.{Perm, Permᴰ}
use mathlib.Core.Logic.{∥∥₁_elim}
use crypto_cdc_pipeline.Base.{
  ℕ, ◌+◌, ◌≡◌, refl, sym, ap, ap₂, ◌∙◌, subst, Bool, true, false, String, List, [], ◌∷◌, ◌==◌,
  length, suc, not, ◌&&◌, ltb, leb, str_eq, map, keep_if, Bool-cases, inl, inr, arith,
  if◌then◌else◌,
}
use crypto_cdc_pipeline.Trader.Ledger.{Order, Orders, Fill}
use crypto_cdc_pipeline.Trader.Reconcile.{
  ExOrder, Summary, count_if, sum_of, is_filled, is_canceled, is_opened, summarize, orders_of,
  fills_of, status_in, sum_status, my_summary, diffs, some_diff, compare_ledger,
}

sum_of-rearranged {ℓ} :
    {A : Type ℓ} (f : A → ℕ) {xs ys : List A} → Permᴰ xs ys → sum_of f xs ≡ sum_of f ys
sum_of-rearranged f Permᴰ.nil = refl
sum_of-rearranged f (Permᴰ.cons e d) = ap₂ (λ a b. a + b) (ap f e) (sum_of-rearranged f d)
sum_of-rearranged f (Permᴰ.swap e k) = omega (arith, ap f e, ap f k)
sum_of-rearranged f (Permᴰ.trans d k) = sum_of-rearranged f d ∙ sum_of-rearranged f k

-- A sum does not depend on the order of its parts.
sum_of-Perm {ℓ} : {A : Type ℓ} (f : A → ℕ) {xs ys : List A} → Perm xs ys → sum_of f xs ≡ sum_of f ys
sum_of-Perm f {xs} {ys} p = ∥∥₁_elim p (hlevel) (λ d. sum_of-rearranged f d)

abbrev one : Bool → ℕ
one b = if b then 1 else 0

count_if-sum_of {ℓ} :
    {A : Type ℓ} (p : A → Bool) (xs : List A) → count_if p xs ≡ sum_of (λ x. one (p x)) xs
count_if-sum_of p [] = refl
count_if-sum_of p (x ∷ xs) = elim (Bool-cases (p x)) [
  | inl e ↦ rw e (omega (arith, count_if-sum_of p xs))
  | inr e ↦ rw e (omega (arith, count_if-sum_of p xs))
]

count_if-Perm {ℓ} :
    {A : Type ℓ} (p : A → Bool) {xs ys : List A} → Perm xs ys → count_if p xs ≡ count_if p ys
count_if-Perm p {xs} {ys} h =
    count_if-sum_of p xs ∙ sum_of-Perm (λ x. one (p x)) h ∙ sym (count_if-sum_of p ys)

length-sum_of {ℓ} : {A : Type ℓ} (xs : List A) → length xs ≡ sum_of (λ x. 1) xs
length-sum_of [] = refl
length-sum_of (x ∷ xs) = omega (arith, length-sum_of xs)

length-Perm {ℓ} : {A : Type ℓ} {xs ys : List A} → Perm xs ys → length xs ≡ length ys
length-Perm {xs = xs} {ys = ys} h =
    length-sum_of xs ∙ sum_of-Perm (λ x. 1) h ∙ sym (length-sum_of ys)

diffs_self : (s : Summary) → diffs s s ≡ []
diffs_self s =
    rw
      (
        eq s.orders,
        eq s.filled,
        eq s.canceled,
        eq s.opened,
        eq s.exec_qty,
        eq s.trades,
        eq s.trade_qty,
      )
      refl
  where
    eq : (n : ℕ) → (n == n) ≡ true
    eq n = ground arith

module _ (decimal : String → ℕ) where
  -- The summary forgets the order of the orders and of the trades.
  summarize-Perm :
      {os ps : List ExOrder} {qs rs : List String}
      → Perm os ps
      → Perm qs rs
      → summarize decimal os qs ≡ summarize decimal ps rs
  summarize-Perm h k =
      let p1 = length-Perm h in
      let p2 = count_if-Perm (λ (o : ExOrder). is_filled o.status) h in
      let p3 = count_if-Perm (λ (o : ExOrder). is_canceled o.status) h in
      let p4 = count_if-Perm (λ (o : ExOrder). is_opened o.status) h in
      let p5 = sum_of-Perm (λ (o : ExOrder). decimal o.executed_qty) h in
      let p6 = length-Perm k in
      let p7 = sum_of-Perm decimal k in
      λ i. record {
        orders = p1 i;
        filled = p2 i;
        canceled = p3 i;
        opened = p4 i;
        exec_qty = p5 i;
        trades = p6 i;
        trade_qty = p7 i;
      }

  -- What the exchange would tell of a row.
  abbrev pub told_order : Order → ExOrder
  told_order o = record { status = o.live.status; executed_qty = o.live.executed_qty }

  -- A row of a symbol since the start of the day and since the last reset.
  abbrev pub is_current : String → ℕ → ℕ → Order → Bool
  is_current symbol day_start epoch o =
      if o.reset_epoch == epoch
      then str_eq o.fixed.symbol symbol && not (ltb o.fixed.created_ms day_start)
      else false

  abbrev pub is_today : String → ℕ → Fill → Bool
  is_today symbol day_start f = str_eq f.symbol symbol && not (ltb f.filled_ms day_start)

  keep_same {ℓ} :
      {A : Type ℓ} (p q : A → Bool)
      → ((x : A) → p x ≡ q x)
      → (xs : List A) → keep_if p xs ≡ keep_if q xs
  keep_same p q h [] = refl
  keep_same p q h (x ∷ xs) = elim (Bool-cases (q x)) [
    | inl e ↦ rw (h x, e) (ap (λ l. x ∷ l) (keep_same p q h xs))
    | inr e ↦ rw (h x, e) (keep_same p q h xs)
  ]

  current_same :
      (symbol : String) (day_start epoch : ℕ) (o : Order)
      → is_current symbol day_start epoch o ≡ (
          str_eq o.fixed.symbol symbol
          && leb day_start o.fixed.created_ms
          && o.reset_epoch == epoch)
  current_same symbol day_start epoch o = ground arith

  today_same :
      (symbol : String) (day_start : ℕ) (f : Fill)
      → is_today symbol day_start f ≡ (str_eq f.symbol symbol && leb day_start f.filled_ms)
  today_same symbol day_start f = ground arith

  sum_status-count :
      (names : List String) (p : String → Bool)
      → ((s : String) → status_in names s ≡ p s)
      → (os : Orders)
      → count_if (λ (o : ExOrder). p o.status) (map told_order os) ≡ sum_status names os
  sum_status-count names p h [] = refl
  sum_status-count names p h (o ∷ os) = elim (Bool-cases (p o.live.status)) [
    | inl e ↦ rw (h o.live.status, e) (omega (arith, sum_status-count names p h os))
    | inr e ↦ rw (h o.live.status, e) (omega (arith, sum_status-count names p h os))
  ]

  sum_of-map {ℓ κ} :
      {A : Type ℓ} {B : Type κ} (f : B → ℕ) (g : A → B) (xs : List A)
      → sum_of f (map g xs) ≡ sum_of (λ x. f (g x)) xs
  sum_of-map f g [] = refl
  sum_of-map f g (x ∷ xs) = ap (λ n. f (g x) + n) (sum_of-map f g xs)

  length-map {ℓ κ} :
      {A : Type ℓ} {B : Type κ} (g : A → B) (xs : List A) → length (map g xs) ≡ length xs
  length-map g [] = refl
  length-map g (x ∷ xs) = ap suc (length-map g xs)

  -- Both sides count the same statuses: the summary of what the exchange would tell of the rows.
  summarize-my :
      (symbol : String) (day_start epoch : ℕ) (orders : Orders) (fills : List Fill)
      → summarize decimal
          (map told_order (keep_if (is_current symbol day_start epoch) orders))
          (map (λ (f : Fill). f.qty) (keep_if (is_today symbol day_start) fills))
        ≡ my_summary decimal symbol day_start epoch orders fills
  unfolding my_summary
  summarize-my symbol day_start epoch orders fills =
      let os = orders_of symbol day_start epoch orders in
      let fs = fills_of symbol day_start fills in
      let e = keep_same _ _ (current_same symbol day_start epoch) orders in
      let e' = keep_same _ _ (today_same symbol day_start) fills in
      let p1 = length-map told_order os in
      let p2 = sum_status-count ("FILLED" ∷ []) is_filled (λ s. ground arith) os in
      let p3 =
        sum_status-count ("CANCELED" ∷ "EXPIRED" ∷ "EXPIRED_IN_MATCH" ∷ "REJECTED" ∷ []) is_canceled
          (λ s. ground arith) os in
      let p4 =
        sum_status-count ("NEW" ∷ "PARTIALLY_FILLED" ∷ "PENDING_NEW" ∷ []) is_opened
          (λ s. ground arith) os in
      let p5 = sum_of-map (λ (o : ExOrder). decimal o.executed_qty) told_order os in
      let p6 = length-map (λ (f : Fill). f.qty) fs in
      let p7 = sum_of-map decimal (λ (f : Fill). f.qty) fs in
      ap₂
        (λ (xs : Orders) (ys : List Fill).
          summarize decimal (map told_order xs) (map (λ (f : Fill). f.qty) ys))
        e e'
      ∙ λ i. record {
        orders = p1 i;
        filled = p2 i;
        canceled = p3 i;
        opened = p4 i;
        exec_qty = p5 i;
        trades = p6 i;
        trade_qty = p7 i;
      }

  -- Where the exchange tells, in any order, the status and the executed quantity of exactly the rows
  -- of the ledger that are of the symbol, not created before the day and of the current epoch, and
  -- the quantity of exactly the fills of the symbol that are not before the day: the comparison
  -- finds no mismatch, though each side counts the statuses by lists of its own.
  pub compare_ledger-agrees :
      (symbol : String) (day_start epoch : ℕ) (orders : Orders) (fills : List Fill)
      (ex_orders : List ExOrder) (ex_trades : List String)
      → Perm ex_orders (map told_order (keep_if (is_current symbol day_start epoch) orders))
      → Perm ex_trades (map (λ (f : Fill). f.qty) (keep_if (is_today symbol day_start) fills))
      → compare_ledger decimal ex_orders ex_trades
          (my_summary decimal symbol day_start epoch orders fills)
        ≡ (false, [])
  unfolding compare_ledger
  compare_ledger-agrees symbol day_start epoch orders fills ex_orders ex_trades h k =
      let my = my_summary decimal symbol day_start epoch orders fills in
      let verdict : Summary → Bool × List String = λ s. (some_diff (diffs s my), diffs s my) in
      let same = summarize-Perm h k ∙ summarize-my symbol day_start epoch orders fills in
      subst (λ s. verdict s ≡ (false, [])) (sym same)
        (ap (λ (ds : List String). let v : Bool × List String = (some_diff ds, ds) in v)
          (diffs_self my))
