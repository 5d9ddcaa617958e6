-- ===== src/Backup/Remote.antt =====
-- Both sides after a day: the remote one has all that the local one still has.
use crypto_cdc_pipeline.Base.{
  ℕ, ◌-◌, ◌≡◌, inl, inr, refl, sym, ap, subst, ◌&&◌, ◌||◌, ◌==◌, Bool, true, not, some, List, [],
  ◌∷◌, ◌++◌, arith, leb, length, length-append, drop, keep_if, Bool-cases, if◌then◌else◌,
}
use crypto_cdc_pipeline.Backup.{
  Name, Copy, is_full, same_name, has, full_days, latest_full, keep_fulls, prune_local, sort_days,
  tail_days, has_day, free_remote_space, sync_to_oracle, apply_remote_retention, verify_remote,
}
use crypto_cdc_pipeline.Backup.Chain.{same_name_refl}
use crypto_cdc_pipeline.Backup.Pruned.{drop-last}
use crypto_cdc_pipeline.Backup.Days.{
  AtMost, EndsIn, full_days_of, tail_days-EndsIn, has_day-EndsIn, latest_day-EndsIn, latest_day-has,
  sort_days-greatest,
}

full_days-append : (xs bs : List Copy) → full_days (xs ++ bs) ≡ full_days xs ++ full_days bs
full_days-append [] bs = refl
full_days-append (c ∷ xs) bs = elim (Bool-cases (is_full c.name)) [
  | inl f ↦ rw (f, full_days-append xs bs) refl
  | inr f ↦ rw (f, full_days-append xs bs) refl
]

AtMost-append : (g : ℕ) (xs bs : List ℕ) → AtMost g xs → AtMost g bs → AtMost g (xs ++ bs)
AtMost-append g [] bs h k = k
AtMost-append g (d ∷ xs) bs h k = (h.0, AtMost-append g xs bs h.1 k)

has_day-append : (g : ℕ) (xs bs : List ℕ) → has_day g xs ≡ true → has_day g (xs ++ bs) ≡ true
has_day-append g [] bs h = cc
has_day-append g (d ∷ xs) bs h = elim (Bool-cases (d == g)) [
  | inl e ↦ rw e refl
  | inr e ↦
      let there : has_day g xs ≡ true = subst (λ (b : Bool). b || has_day g xs ≡ true) e h in
      rw (has_day-append g xs bs there) (ground arith)
]

full_days-keep_if :
    (g : ℕ) (p : Copy → Bool) (cs : List Copy)
    → AtMost g (full_days cs)
    → AtMost g (full_days (keep_if p cs))
full_days-keep_if g p [] h = tt
full_days-keep_if g p (c ∷ cs) h = elim (Bool-cases (is_full c.name)) [
  | inl f ↦
      let k : AtMost g (c.name.day ∷ full_days cs) =
        subst (λ (b : Bool). AtMost g (if b then c.name.day ∷ full_days cs else full_days cs)) f
          h in
      let ih = full_days-keep_if g p cs k.1 in
      elim (Bool-cases (p c)) [ inl q ↦ rw (q, f) (k.0, ih) | inr q ↦ rw q ih ]
  | inr f ↦
      let k : AtMost g (full_days cs) =
        subst (λ (b : Bool). AtMost g (if b then c.name.day ∷ full_days cs else full_days cs)) f
          h in
      let ih = full_days-keep_if g p cs k in
      elim (Bool-cases (p c)) [ inl q ↦ rw (q, f) ih | inr q ↦ rw q ih ]
]

has-append : (n : Name) (xs ys : List Copy) → has n xs ≡ true → has n (xs ++ ys) ≡ true
has-append n [] ys h = cc
has-append n (c ∷ xs) ys h = elim (Bool-cases (same_name c.name n)) [
  | inl e ↦ rw e refl
  | inr e ↦
      let there : has n xs ≡ true = subst (λ (b : Bool). b || has n xs ≡ true) e h in
      rw (has-append n xs ys there) (ground arith)
]

verify_remote-more :
    (c : Copy) (xs ys : List Copy) → verify_remote xs ys ≡ true → verify_remote xs (c ∷ ys) ≡ true
unfolding verify_remote
verify_remote-more c [] ys h = refl
verify_remote-more c (x ∷ xs) ys h =
    let here : has x.name ys ≡ true = ground (arith, h) in
    let rest : verify_remote xs ys ≡ true = ground (arith, h) in
    rw (here, verify_remote-more c xs ys rest) (ground arith)

-- What a narrower test leaves of some directories is in what a wider test leaves of more.
verify_remote-keep_if :
    (p q : Copy → Bool) (xs ys : List Copy)
    → ((c : Copy) → p c ≡ true → q c ≡ true)
    → verify_remote (keep_if p xs) (keep_if q (xs ++ ys)) ≡ true
unfolding verify_remote
verify_remote-keep_if p q [] ys wider = refl
verify_remote-keep_if p q (x ∷ xs) ys wider =
    let ih = verify_remote-keep_if p q xs ys wider in
    elim (Bool-cases (p x)) [
      | inl a ↦
          rw (a, wider x a, same_name_refl x.name)
            (verify_remote-more x (keep_if p xs) (keep_if q (xs ++ ys)) ih)
      | inr a ↦ elim (Bool-cases (q x)) [
        | inl b ↦ rw (a, b) (verify_remote-more x (keep_if p xs) (keep_if q (xs ++ ys)) ih)
        | inr b ↦ rw (a, b) ih
      ]
    ]

keep_if-keep_if :
    (p q : Copy → Bool) (cs : List Copy) → keep_if p (keep_if q cs) ≡ keep_if (λ c. q c && p c) cs
keep_if-keep_if p q [] = refl
keep_if-keep_if p q (c ∷ cs) = elim (Bool-cases (q c)) [
  | inl a ↦ elim (Bool-cases (p c)) [
    | inl b ↦ rw (a, b) (ap (λ l. c ∷ l) (keep_if-keep_if p q cs))
    | inr b ↦ rw (a, b) (keep_if-keep_if p q cs)
  ]
  | inr a ↦ rw a (keep_if-keep_if p q cs)
]

-- A directory that the retention of these days of full backups keeps.
abbrev kept : List ℕ → ℕ → Copy → Bool
kept days g c =
    (not (is_full c.name) || has_day c.name.day days) && (is_full c.name || leb g c.name.day)

kept_wider :
    (g : ℕ) (days : List ℕ) (c : Copy)
    → has_day g days ≡ true
    → kept (g ∷ []) g c ≡ true
    → kept days g c ≡ true
kept_wider g days c there h = elim (Bool-cases (is_full c.name)) [
  | inr f ↦ let k : leb g c.name.day ≡ true = ground (arith, h, f) in rw (f, k) refl
  | inl f ↦
      let same : g ≡ c.name.day = ground (arith, h, f) in
      let k : has_day c.name.day days ≡ true = subst (λ d. has_day d days ≡ true) same there in
      rw (f, k) refl
]

tail_days_one : (g : ℕ) (ds : List ℕ) → EndsIn g ds → tail_days 1 ds ≡ g ∷ []
tail_days_one g ds (es, e, _) =
    let len : length ds - 1 ≡ length es = omega (arith, ap length e, length-append es (g ∷ [])) in
    subst (λ n. drop n ds ≡ g ∷ []) (sym len) (rw e (drop-last g es))

prune_local-kept :
    (g : ℕ) (local : List Copy)
    → latest_full local ≡ some g
    → prune_local local ≡ some (keep_if (kept (g ∷ []) g) local)
unfolding prune_local
prune_local-kept g local h =
    let (there, most) = latest_day-has (full_days local) g (full_days_of local g h) in
    let one =
      tail_days_one g (sort_days (full_days local))
        (sort_days-greatest g (full_days local) there most) in
    rw (h, prune_local, one)
      (ap some (
        keep_if-keep_if (λ c. is_full c.name || leb g c.name.day)
          (λ c. not (is_full c.name) || has_day c.name.day (g ∷ [])) local))

apply_remote_retention-kept :
    (g : ℕ) (remote : List Copy)
    → has_day g (full_days remote) ≡ true
    → AtMost g (full_days remote)
    → (days : List ℕ) × (has_day g days ≡ true)
      × (apply_remote_retention remote ≡ keep_if (kept days g) remote)
unfolding apply_remote_retention
apply_remote_retention-kept g remote there most =
    let days = tail_days 2 (sort_days (full_days remote)) in
    let ends =
      tail_days-EndsIn 2 g (sort_days (full_days remote)) (omega arith)
        (sort_days-greatest g (full_days remote) there most) in
    (
      days,
      has_day-EndsIn g days ends,
      rw (latest_day-EndsIn g days ends) (
          keep_if-keep_if (λ c. is_full c.name || leb g c.name.day)
            (λ c. not (is_full c.name) || has_day c.name.day days) remote),
    )

-- Where some full backup is local and the remote side has no full one of a later day than the
-- latest of them, then none of the tasks of the retention fails, and after freeing, uploading,
-- the remote retention and the local pruning, the remote side has every directory that the
-- local one still has.
pub verify_remote_daily :
    (local remote : List Copy) (g : ℕ)
    → latest_full local ≡ some g
    → AtMost g (full_days remote)
    → (freed left : List Copy) × (free_remote_space local remote ≡ some freed)
      × (prune_local local ≡ some left)
      × (verify_remote left (apply_remote_retention (sync_to_oracle local freed)) ≡ true)
unfolding free_remote_space sync_to_oracle
verify_remote_daily local remote g h most =
    let (there, top) = latest_day-has (full_days local) g (full_days_of local g h) in
    let freed = keep_fulls (tail_days 2 (sort_days (full_days remote ++ full_days local))) remote in
    let extra = keep_if (λ c. not (has c.name local)) freed in
    let bound : AtMost g (full_days extra) =
      full_days-keep_if g (λ c. not (has c.name local)) freed
        (full_days-keep_if g
          (λ c.
            not (is_full c.name)
            || has_day c.name.day (tail_days 2 (sort_days (full_days remote ++ full_days local))))
          remote most) in
    let split = full_days-append local extra in
    let (days, found, e) =
      apply_remote_retention-kept g (local ++ extra)
        (subst (λ ds. has_day g ds ≡ true) (sym split)
          (has_day-append g (full_days local) (full_days extra) there))
        (subst (AtMost g) (sym split)
          (AtMost-append g (full_days local) (full_days extra) top bound)) in
    (
      freed,
      keep_if (kept (g ∷ []) g) local,
      rw (h, free_remote_space) refl,
      prune_local-kept g local h,
      rw e (
          verify_remote-keep_if (kept (g ∷ []) g) (kept days g) local extra
            (λ c. kept_wider g days c found)),
    )
