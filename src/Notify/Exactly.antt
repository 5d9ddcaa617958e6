-- ===== src/Notify/Exactly.antt =====
-- How often a rise is told.
use crypto_cdc_pipeline.Base.{
  ℕ, suc, ◌+◌, ◌≡◌, refl, ap, sym, ◌∙◌, take, drop, take-append-drop, Bool, eq_iff, ◌&&◌, true,
  false, not, inl, inr, List, [], ◌∷◌, ◌++◌, ltb, length, Option, some, is_empty, All, arith,
  Bool-cases, if◌then◌else◌,
}
use crypto_cdc_pipeline.Notify.{Rise, same, count, fired_of, Outcome, Run, notify}

same_rise : (a b : Rise) → same a b ≡ true → a ≡ b
same_rise a b h =
    let m = (eq_iff a.market b.market).0 (ground (arith, h)) in
    let t = (eq_iff a.alert_type b.alert_type).0 (ground (arith, h)) in
    let l : a.level ≡ b.level = ground (arith, h) in
    let o : a.hour ≡ b.hour = ground (arith, h) in
    λ i. record { market = m i; alert_type = t i; level = l i; hour = o i }

count-append : (k : Rise) (xs ys : List Rise) → count k (xs ++ ys) ≡ count k xs + count k ys
count-append k [] ys = omega arith
count-append k (x ∷ xs) ys = elim (Bool-cases (same x k)) [
  | inl e ↦ rw e (omega (arith, count-append k xs ys))
  | inr e ↦ rw e (count-append k xs ys)
]

-- 1 where the key is among the rows and is neither seen nor in the table.
abbrev told : ℕ → ℕ → ℕ → ℕ
told rows seen table = if ltb 0 rows && not (ltb 0 seen) && not (ltb 0 table) then 1 else 0

count-fired_of :
    (k : Rise) (rs seen table : List Rise)
    → count k (fired_of rs seen table) ≡ told (count k rs) (count k seen) (count k table)
count-fired_of k [] seen table = refl
count-fired_of k (r ∷ rs) seen table = elim (Bool-cases (same r k)) [
  | inl e ↦
      let name = same_rise r k e in
      let here : count r seen ≡ count k seen = ap (λ (x : Rise). count x seen) name in
      let there : count r table ≡ count k table = ap (λ (x : Rise). count x table) name in
      elim (Bool-cases (ltb 0 (count r seen))) [
        | inl s ↦ rw (s, e) (ground (arith, s, here, count-fired_of k rs seen table))
        | inr s ↦ elim (Bool-cases (ltb 0 (count r table))) [
          | inl t ↦ rw (s, t, e) (ground (arith, t, there, count-fired_of k rs seen table))
          | inr t ↦
              let after = count-fired_of k rs (r ∷ seen) table in
              let marked : count k (r ∷ seen) ≡ suc (count k seen) = rw e refl in
              rw (s, t, e) (ground (arith, s, t, here, there, after, marked))
        ]
      ]
  | inr e ↦ elim (Bool-cases (ltb 0 (count r seen))) [
    | inl s ↦ rw (s, e) (count-fired_of k rs seen table)
    | inr s ↦ elim (Bool-cases (ltb 0 (count r table))) [
      | inl t ↦ rw (s, t, e) (count-fired_of k rs seen table)
      | inr t ↦
          let after = count-fired_of k rs (r ∷ seen) table in
          let unmarked : count k (r ∷ seen) ≡ count k seen = rw e refl in
          rw (s, t, e) (ground (arith, after, unmarked))
    ]
  ]
]

-- What the fired of a run hold that no message tells: the fields after the tenth, or all.
abbrev pub missed_of : Run → List Rise → List Rise
missed_of r table =
    let fired = fired_of r.rows [] table in
    if r.answers then (if r.delivered then drop 10 fired else fired) else []

-- Over some runs: what was sent, what was fired and not sent, and alert_events at the end.
abbrev pub all_sent : List Run → List Rise → List Rise
all_sent [] table = []
all_sent (r ∷ rs) table = (notify r table).sent ++ all_sent rs (notify r table).table

abbrev pub all_missed : List Run → List Rise → List Rise
all_missed [] table = []
all_missed (r ∷ rs) table = missed_of r table ++ all_missed rs (notify r table).table

abbrev pub table_after : List Run → List Rise → List Rise
table_after [] table = table
table_after (r ∷ rs) table = table_after rs (notify r table).table

-- How often a run that gets its answers has a row of the key.
abbrev pub candidates : Rise → List Run → ℕ
candidates k [] = 0
candidates k (r ∷ rs) = (if r.answers then count k r.rows else 0) + candidates k rs

count_sent :
    (k : Rise) (delivered : Bool) (fired : List Rise)
    → count k (if delivered then take 10 fired else [])
        + count k (if delivered then drop 10 fired else fired)
      ≡ count k fired
count_sent k true fired =
    sym (count-append k (take 10 fired) (drop 10 fired))
    ∙ ap (λ (l : List Rise). count k l) (take-append-drop 10 fired)
count_sent k false fired = omega arith

notify_tells :
    (k : Rise) (r : Run) (table : List Rise)
    → r.stores ≡ true
    → (count k (notify r table).sent + count k (missed_of r table)
        ≡ (if r.answers then told (count k r.rows) 0 (count k table) else 0))
      × (count k (notify r table).table
          ≡ count k (notify r table).sent + count k (missed_of r table) + count k table)
unfolding notify
notify_tells k r table s = elim (Bool-cases r.answers) [
  | inl a ↦ rw (a, s) (pick (fired_of r.rows [] table) (count-fired_of k r.rows [] table))
  | inr a ↦ rw a (refl, omega arith)
]
  where
    result : List Rise → Option (ℕ × ℕ)
    result fired = some (length r.rows, length fired)

    none_lost : (b : Bool) → count k (if b then drop 10 [] else []) ≡ 0
    none_lost true = refl
    none_lost false = refl

    pick :
        (fired : List Rise)
        → count k fired ≡ told (count k r.rows) 0 (count k table)
        → let o : Outcome =
            if is_empty fired
            then record { returned = result fired; sent = []; table = table }
            else record {
              returned = result fired;
              sent = if r.delivered then take 10 fired else [];
              table = fired ++ table;
            } in
          let missed = if r.delivered then drop 10 fired else fired in
          (count k o.sent + count k missed ≡ told (count k r.rows) 0 (count k table))
          × (count k o.table ≡ count k o.sent + count k missed + count k table)
    pick [] h = let lost = none_lost r.delivered in (omega (arith, h, lost), omega (arith, h, lost))
    pick (x ∷ xs) h =
        let both = count_sent k r.delivered (x ∷ xs) in
        (both ∙ h, count-append k (x ∷ xs) table ∙ ap (λ n. n + count k table) (sym both))

runs_tell :
    (k : Rise) (rs : List Run) (table : List Rise)
    → All (λ (r : Run). r.stores ≡ true) rs
    → (count k (all_sent rs table) + count k (all_missed rs table)
        ≡ told (candidates k rs) 0 (count k table))
      × (count k (table_after rs table) ≡ count k table + told (candidates k rs) 0 (count k table))
runs_tell k [] table s = (refl, omega arith)
runs_tell k (r ∷ rs) table s =
    let one = notify_tells k r table s.0 in
    let rest = runs_tell k rs (notify r table).table s.1 in
    let sent = count-append k (notify r table).sent (all_sent rs (notify r table).table) in
    let missed = count-append k (missed_of r table) (all_missed rs (notify r table).table) in
    (ground (arith, one.0, one.1, rest.0, sent, missed), ground (arith, one.0, one.1, rest.1))

-- Over any runs whose INSERT succeeds, from an empty table: a rise that some run with answers has
-- among its rows is in alert_events exactly once at the end, and it is exactly once either sent or
-- missed, that is fired but past the ten fields of the message or in a message that Slack did not
-- take; another rise is in alert_events, sent and missed never. So none is sent twice.
pub told-once :
    (rs : List Run)
    → All (λ (r : Run). r.stores ≡ true) rs
    → (k : Rise)
    → let once : ℕ = if ltb 0 (candidates k rs) then 1 else 0 in
      (count k (table_after rs []) ≡ once)
      × (count k (all_sent rs []) + count k (all_missed rs []) ≡ once)
told-once rs s k =
    let both = runs_tell k rs [] s in (ground (arith, both.1), ground (arith, both.0))
