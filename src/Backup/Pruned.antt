-- ===== src/Backup/Pruned.antt =====
-- What the pruning of the local directory leaves.
use crypto_cdc_pipeline.Base.{
  ℕ, ◌-◌, ◌<◌, ◌≡◌, inl, inr, refl, sym, ap, ◌∙◌, subst, ◌&&◌, ◌||◌, ◌==◌, Bool, true, false, not,
  some, List, [], ◌∷◌, ◌++◌, arith, ltb, leb, length, length-append, drop, All, Bool-cases,
  if◌then◌else◌,
}
use crypto_cdc_pipeline.Backup.{
  Copy, is_full, full_days, keep_fulls, keep_incrs, insert_day, sort_days, tail_days, has_day,
}
use crypto_cdc_pipeline.Backup.Chain.{
  IsBefore, NewestFirst, IsChain, segment, chain_day, chain_day-below, full_days-All,
}

pub full_days-chain :
    (cs : List Copy)
    → NewestFirst cs
    → IsChain cs
    → (rest : List ℕ) × (full_days cs ≡ chain_day cs ∷ rest)
      × All (λ (d : ℕ). d < chain_day cs) rest
full_days-chain [] order h = cc
full_days-chain (c ∷ cs) order (inl (f, _)) =
    (full_days cs, rw f refl, rw f (full_days-All c.name.day cs order.0))
full_days-chain (c ∷ cs) order (inr (f, _, h)) =
    let (rest, e, below) = full_days-chain cs order.1 h in (rest, rw f e, rw f below)

pub insert_day-last :
    (d : ℕ) (es : List ℕ) → All (λ (e : ℕ). e < d) es → insert_day d es ≡ es ++ (d ∷ [])
insert_day-last d [] h = refl
insert_day-last d (e ∷ es) h =
    let a : ltb d e ≡ false = ground (arith, h.0) in
    let b : (d == e) ≡ false = ground (arith, h.0) in
    rw (a, b) (ap (λ l. e ∷ l) (insert_day-last d es h.1))

pub insert_day-All :
    (P : ℕ → Type 0) (d : ℕ) (es : List ℕ) → P d → All P es → All P (insert_day d es)
insert_day-All P d [] p h = (p, tt)
insert_day-All P d (e ∷ es) p h = elim (Bool-cases (ltb d e)) [
  | inl a ↦ rw a (p, h)
  | inr a ↦ elim (Bool-cases (d == e)) [
    | inl b ↦ rw (a, b) h
    | inr b ↦ rw (a, b) (h.0, insert_day-All P d es p h.1)
  ]
]

sort_days-All : (P : ℕ → Type 0) (ds : List ℕ) → All P ds → All P (sort_days ds)
sort_days-All P [] h = tt
sort_days-All P (d ∷ ds) h = insert_day-All P d (sort_days ds) h.0 (sort_days-All P ds h.1)

pub drop-last : (d : ℕ) (es : List ℕ) → drop (length es) (es ++ (d ∷ [])) ≡ d ∷ []
drop-last d [] = refl
drop-last d (e ∷ es) = drop-last d es

pub tail_days-greatest :
    (d : ℕ) (ds : List ℕ) → All (λ (e : ℕ). e < d) ds → tail_days 1 (sort_days (d ∷ ds)) ≡ d ∷ []
tail_days-greatest d ds h =
    let es = sort_days ds in
    let put = insert_day-last d es (sort_days-All (λ e. e < d) ds h) in
    let len : length (es ++ (d ∷ [])) - 1 ≡ length es = omega (arith, length-append es (d ∷ [])) in
    rw put (subst (λ n. drop n (es ++ (d ∷ [])) ≡ d ∷ []) (sym len) (drop-last d es))

abbrev pruned : ℕ → List Copy → List Copy
pruned latest cs = keep_incrs (some latest) (keep_fulls (latest ∷ []) cs)

abbrev stays : ℕ → Copy → Bool
stays latest c =
    (not (is_full c.name) || has_day c.name.day (latest ∷ []))
    && (is_full c.name || leb latest c.name.day)

pruned-cons :
    (latest : ℕ) (c : Copy) (cs : List Copy)
    → pruned latest (c ∷ cs) ≡ (if stays latest c then c ∷ pruned latest cs else pruned latest cs)
pruned-cons latest c cs =
    let one = not (is_full c.name) || has_day c.name.day (latest ∷ []) in
    let two = is_full c.name || leb latest c.name.day in
    elim (Bool-cases one) [
      | inl a ↦ elim (Bool-cases two) [ inl b ↦ rw (a, b) refl | inr b ↦ rw (a, b) refl ]
      | inr a ↦ rw a refl
    ]

pruned-older : (latest : ℕ) (cs : List Copy) → IsBefore latest cs → pruned latest cs ≡ []
pruned-older latest [] h = refl
pruned-older latest (c ∷ cs) h =
    let gone : stays latest c ≡ false = ground (arith, h.0) in
    pruned-cons latest c cs ∙ rw gone (pruned-older latest cs h.1)

pub pruned-segment :
    (cs : List Copy) → NewestFirst cs → IsChain cs → pruned (chain_day cs) cs ≡ segment cs
pruned-segment [] order h = cc
pruned-segment (c ∷ cs) order (inl (f, _)) =
    let day : chain_day (c ∷ cs) ≡ c.name.day = rw f refl in
    let here : stays c.name.day c ≡ true = rw f (ground arith) in
    subst (λ d. pruned d (c ∷ cs) ≡ segment (c ∷ cs)) (sym day)
      (pruned-cons c.name.day c cs
        ∙ rw (here, f) (ap (λ l. c ∷ l) (pruned-older c.name.day cs order.0)))
pruned-segment (c ∷ cs) order (inr (f, _, h)) =
    let lt = chain_day-below c.name.day cs order.0 h in
    let day : chain_day (c ∷ cs) ≡ chain_day cs = rw f refl in
    let here : stays (chain_day cs) c ≡ true = rw f (ground (arith, lt)) in
    subst (λ d. pruned d (c ∷ cs) ≡ segment (c ∷ cs)) (sym day)
      (pruned-cons (chain_day cs) c cs
        ∙ rw (here, f) (ap (λ l. c ∷ l) (pruned-segment cs order.1 h)))
