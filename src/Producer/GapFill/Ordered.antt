-- ===== src/Producer/GapFill/Ordered.antt =====
-- What Upbit's API documents of `to`, `daysAgo`, `count` and `cursor` in the requests of the gap-fill
-- of producer/producer.py, and the order of its trades.
use crypto_cdc_pipeline.Base.{
  ℕ, suc, ◌+◌, ◌*◌, ◌/◌, ◌-◌, ◌≤◌, ◌<◌, ◌≡◌, inl, inr, refl, ap, ◌&&◌, Bool, true, false, Option,
  none, some, List, [], ◌∷◌, ◌++◌, String, arith, leb, ltb, length, take, All, keep_if, Bool-cases,
  if◌then◌else◌,
}
use crypto_cdc_pipeline.Base.Int.{ℤ, pos, leb_ℤ}
use crypto_cdc_pipeline.Producer.GapFill.{Tick, Query, Api, last_id}
use crypto_cdc_pipeline.Producer.GapFill.Complete.{Answers, reaches, NewestFirst}

module _ {F : Type 0} where
  -- Trades in the order of the API: the newest first, with ids that fall and are not zero.
  abbrev pub in_order : List (Tick F) → Bool
  in_order [] = true
  in_order (t ∷ []) = ltb 0 t.sequential_id
  in_order (t ∷ u ∷ ts) =
      leb u.timestamp t.timestamp && ltb u.sequential_id t.sequential_id && in_order (u ∷ ts)

  -- What a cursor lets through.
  abbrev pub is_below : Option ℕ → Tick F → Bool
  is_below none t = true
  is_below (some c) t = ltb t.sequential_id c

  -- A trade that is given for `daysAgo=d` and `to`, s seconds into that day of UTC: before that
  -- second and `slack` ms, and no more than `back` ms before the day.
  abbrev pub is_given : ℕ → ℕ → ℕ → ℕ → ℕ → Tick F → Bool
  is_given slack back now d s t =
      let start = (now / 86400000 - d) * 86400000 in
      leb start (t.timestamp + back) && ltb t.timestamp (start + s * 1000 + slack)

  -- The documented API: for up to 500 trades, up to seven days ago, it gives the newest trades that
  -- are given for the time and have ids below the cursor, after at most four 429s or exceptions.
  abbrev pub Documents : Api F → ℕ → ℕ → ℕ → (String → List (Tick F)) → Type 0
  Documents api slack back now trades =
      (m : String) (d s n : ℕ) (cursor : Option ℕ)
      → d ≤ 7
      → s < 86400
      → n ≤ 500
      → let q : Query = record {
        market = m;
        to = s;
        count = n;
        days_ago = pos d;
        cursor = cursor;
      } in
        let given =
          keep_if (λ (t : Tick F). is_given slack back now d s t && is_below cursor t) (trades m) in
        Answers api q 5 0 (take n given)

  -- How many trades are not older than the window.
  abbrev pub since : ℤ → List (Tick F) → ℕ
  since lo [] = 0
  since lo (t ∷ ts) = let n = since lo ts in if leb_ℤ lo (pos t.timestamp) then suc n else n

  -- Each trade is newer than those after it, and has an id that is not zero.
  abbrev pub Falls : List (Tick F) → Type 0
  Falls [] = Unit
  Falls (t ∷ ts) =
      All (λ (u : Tick F). (u.timestamp ≤ t.timestamp) × (u.sequential_id < t.sequential_id)) ts
      × (0 < t.sequential_id)
      × Falls ts

  below_all :
      (a b : ℕ) (t : Tick F) (ts : List (Tick F))
      → in_order (t ∷ ts) ≡ true
      → t.timestamp ≤ a
      → t.sequential_id < b
      → All (λ (u : Tick F). (u.timestamp ≤ a) × (u.sequential_id < b)) (t ∷ ts)
  below_all a b t [] h p q = ((p, q), tt)
  below_all a b t (u ∷ ts) h p q =
      let rest : in_order (u ∷ ts) ≡ true = ground arith in
      ((p, q), below_all a b u ts rest (ground arith) (ground arith))

  pub in_order-Falls : (ts : List (Tick F)) → in_order ts ≡ true → Falls ts
  in_order-Falls [] h = tt
  in_order-Falls (t ∷ []) h = (tt, ground arith, tt)
  in_order-Falls (t ∷ u ∷ ts) h =
      let rest : in_order (u ∷ ts) ≡ true = ground arith in
      (
        below_all t.timestamp t.sequential_id u ts rest (ground arith) (ground arith),
        ground arith,
        in_order-Falls (u ∷ ts) rest,
      )

  All-keep :
      (P : Tick F → Type 0) (g : Tick F → Bool) (ts : List (Tick F))
      → All P ts
      → All P (keep_if g ts)
  All-keep P g [] h = tt
  All-keep P g (t ∷ ts) h = elim (Bool-cases (g t)) [
    | inl e ↦ rw e (h.0, All-keep P g ts h.1)
    | inr e ↦ rw e (All-keep P g ts h.1)
  ]

  pub Falls-keep : (g : Tick F → Bool) (ts : List (Tick F)) → Falls ts → Falls (keep_if g ts)
  Falls-keep g [] h = tt
  Falls-keep g (t ∷ ts) h = elim (Bool-cases (g t)) [
    | inl e ↦ rw e (All-keep _ g ts h.0, h.1, Falls-keep g ts h.2)
    | inr e ↦ rw e (Falls-keep g ts h.2)
  ]

  All-first :
      (a b : ℕ) (ts : List (Tick F))
      → All (λ (u : Tick F). (u.timestamp ≤ a) × (u.sequential_id < b)) ts
      → All (λ (u : Tick F). u.timestamp ≤ a) ts
  All-first a b [] h = tt
  All-first a b (t ∷ ts) h = (h.0.0, All-first a b ts h.1)

  pub Falls-NewestFirst : (ts : List (Tick F)) → Falls ts → NewestFirst ts
  Falls-NewestFirst [] h = tt
  Falls-NewestFirst (t ∷ ts) h = (All-first _ _ ts h.0, Falls-NewestFirst ts h.2)

  pub keep_both :
      (g b : Tick F → Bool) (ts : List (Tick F))
      → keep_if (λ t. g t && b t) ts ≡ keep_if b (keep_if g ts)
  keep_both g b [] = refl
  keep_both g b (t ∷ ts) = elim (Bool-cases (g t)) [
    | inl e ↦ elim (Bool-cases (b t)) [
      | inl e' ↦ rw (e, e') (ap (λ l. t ∷ l) (keep_both g b ts))
      | inr e' ↦ rw (e, e') (keep_both g b ts)
    ]
    | inr e ↦ rw e (keep_both g b ts)
  ]

  keep_all :
      (a b : ℕ) (ts : List (Tick F))
      → All (λ (u : Tick F). (u.timestamp ≤ a) × (u.sequential_id < b)) ts
      → keep_if (λ t. ltb t.sequential_id b) ts ≡ ts
  keep_all a b [] h = refl
  keep_all a b (t ∷ ts) h =
      let e : ltb t.sequential_id b ≡ true = ground (arith, h.0.1) in
      rw e (ap (λ l. t ∷ l) (keep_all a b ts h.1))

  last_below :
      (a b : ℕ) (t : Tick F) (ts older : List (Tick F))
      → All (λ (u : Tick F). (u.timestamp ≤ a) × (u.sequential_id < b)) (t ∷ ts ++ older)
      → last_id (t ∷ ts) < b
  last_below a b t [] older h = h.0.1
  last_below a b t (u ∷ ts) older h = last_below a b u ts older h.1

  -- The cursor of a page leaves what comes after the page.
  keep_below :
      (t : Tick F) (ts older : List (Tick F))
      → Falls (t ∷ ts ++ older)
      → keep_if (λ u. ltb u.sequential_id (last_id (t ∷ ts))) (t ∷ ts ++ older) ≡ older
  keep_below t [] older h =
      let e : ltb t.sequential_id t.sequential_id ≡ false = ground arith in
      rw e (keep_all t.timestamp t.sequential_id older h.0)
  keep_below t (u ∷ ts) older h =
      let lower = last_below t.timestamp t.sequential_id u ts older h.0 in
      let e : ltb t.sequential_id (last_id (u ∷ ts)) ≡ false = ground (arith, lower) in
      rw e (keep_below u ts older h.2)

  last_below_after :
      (a b : ℕ) (pre : List (Tick F)) (t : Tick F) (ts older : List (Tick F))
      → All (λ (u : Tick F). (u.timestamp ≤ a) × (u.sequential_id < b)) (pre ++ ((t ∷ ts) ++ older))
      → last_id (t ∷ ts) < b
  last_below_after a b [] t ts older h = last_below a b t ts older h
  last_below_after a b (x ∷ pre) t ts older h = last_below_after a b pre t ts older h.1

  -- Also where there are trades before the page.
  pub keep_after :
      (pre : List (Tick F)) (t : Tick F) (ts older : List (Tick F))
      → Falls (pre ++ ((t ∷ ts) ++ older))
      → keep_if (λ u. ltb u.sequential_id (last_id (t ∷ ts))) (pre ++ ((t ∷ ts) ++ older)) ≡ older
  keep_after [] t ts older h = keep_below t ts older h
  keep_after (x ∷ pre) t ts older h =
      let lower = last_below_after x.timestamp x.sequential_id pre t ts older h.0 in
      let e : ltb x.sequential_id (last_id (t ∷ ts)) ≡ false = ground (arith, lower) in
      rw e (keep_after pre t ts older h.2)

  pub last_positive :
      (t : Tick F) (ts older : List (Tick F)) → Falls (t ∷ ts ++ older) → 0 < last_id (t ∷ ts)
  last_positive t [] older h = h.1
  last_positive t (u ∷ ts) older h = last_positive u ts older h.2

  pub Falls-after : (pre ts : List (Tick F)) → Falls (pre ++ ts) → Falls ts
  Falls-after [] ts h = h
  Falls-after (x ∷ pre) ts h = Falls-after pre ts h.2

  pub since_page :
      (lo : ℤ) (p older : List (Tick F))
      → reaches lo p ≡ false
      → since lo (p ++ older) ≡ length p + since lo older
  since_page lo [] older h = omega arith
  since_page lo (t ∷ p) older h =
      let new : leb_ℤ lo (pos t.timestamp) ≡ true = ground arith in
      let rest : reaches lo p ≡ false = ground arith in
      rw new (omega (arith, since_page lo p older rest))
