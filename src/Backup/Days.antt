-- ===== src/Backup/Days.antt =====
-- The days of the full backups, sorted, of which the last ones are kept.
use crypto_cdc_pipeline.Base.{
  ℕ, zero, suc, ◌+◌, ◌-◌, ◌≤◌, ◌<◌, ◌≡◌, ◌⊎◌, inl, inr, refl, ap, ◌∙◌, subst, ◌==◌, Bool, true,
  false, Option, none, some, List, [], ◌∷◌, ◌++◌, arith, ltb, leb, length, length-append, drop, All,
  Bool-cases, if◌then◌else◌,
}
use crypto_cdc_pipeline.Backup.{
  Copy, full_days, latest_day, latest_full, insert_day, sort_days, tail_days, has_day,
}
use crypto_cdc_pipeline.Backup.Pruned.{insert_day-last, insert_day-All}

abbrev pub AtMost : ℕ → List ℕ → Type 0
AtMost g = All (λ (d : ℕ). d ≤ g)

abbrev Under : ℕ → List ℕ → Type 0
Under g = All (λ (d : ℕ). d < g)

-- A list of days that ends in the greatest of them.
abbrev pub EndsIn : ℕ → List ℕ → Type 0
EndsIn g ds = (es : List ℕ) × (ds ≡ es ++ (g ∷ [])) × Under g es

pub full_days_of :
    (local : List Copy) (g : ℕ) → latest_full local ≡ some g → latest_day (full_days local) ≡ some g
unfolding latest_full
full_days_of local g h = h

insert_day-append :
    (d g : ℕ) (es : List ℕ) → d < g → insert_day d (es ++ (g ∷ [])) ≡ insert_day d es ++ (g ∷ [])
insert_day-append d g [] lt = let a : ltb d g ≡ true = ground (arith, lt) in rw a refl
insert_day-append d g (e ∷ es) lt = elim (Bool-cases (ltb d e)) [
  | inl a ↦ rw a refl
  | inr a ↦ elim (Bool-cases (d == e)) [
    | inl b ↦ rw (a, b) refl
    | inr b ↦ rw (a, b) (ap (λ l. e ∷ l) (insert_day-append d g es lt))
  ]
]

insert_day-same :
    (g : ℕ) (es : List ℕ) → Under g es → insert_day g (es ++ (g ∷ [])) ≡ es ++ (g ∷ [])
insert_day-same g [] h =
    let a : ltb g g ≡ false = ground arith in
    let b : (g == g) ≡ true = ground arith in rw (a, b) refl
insert_day-same g (e ∷ es) h =
    let a : ltb g e ≡ false = ground (arith, h.0) in
    let b : (g == e) ≡ false = ground (arith, h.0) in
    rw (a, b) (ap (λ l. e ∷ l) (insert_day-same g es h.1))

insert_day-EndsIn : (d g : ℕ) (ds : List ℕ) → d ≤ g → EndsIn g ds → EndsIn g (insert_day d ds)
insert_day-EndsIn d g ds le (es, e, under) = elim (Bool-cases (ltb d g)) [
  | inl a ↦
      let lt : d < g = ground (arith, a) in
      (
        insert_day d es,
        rw e (insert_day-append d g es lt),
        insert_day-All (λ x. x < g) d es lt under,
      )
  | inr a ↦
      let same : d ≡ g = ground (arith, a, le) in
      (es, rw (same, e) (insert_day-same g es under), under)
]

-- Sorted days end in the greatest of them, or all are under what none of them is.
sort_days-EndsIn :
    (g : ℕ) (ds : List ℕ)
    → AtMost g ds
    → ((has_day g ds ≡ true) × EndsIn g (sort_days ds))
      ⊎ (has_day g ds ≡ false) × Under g (sort_days ds)
sort_days-EndsIn g [] h = inr (refl, tt)
sort_days-EndsIn g (d ∷ ds) h = elim (sort_days-EndsIn g ds h.1) [
  | inl k ↦ inl (rw k.0 (ground arith), insert_day-EndsIn d g (sort_days ds) h.0 k.1)
  | inr k ↦ elim (Bool-cases (d == g)) [
    | inl e ↦
        let same : d ≡ g = ground (arith, e) in
        inl (rw e refl, (sort_days ds, rw same (insert_day-last g (sort_days ds) k.1), k.1))
    | inr e ↦
        let lt : d < g = ground (arith, e, h.0) in
        inr (rw (e, k.0) refl, insert_day-All (λ x. x < g) d (sort_days ds) lt k.1)
  ]
]

drop-EndsIn : (n g : ℕ) (ds : List ℕ) → n < length ds → EndsIn g ds → EndsIn g (drop n ds)
drop-EndsIn zero g ds lt k = k
drop-EndsIn (suc n) g [] lt k = absurd (omega (arith, lt))
drop-EndsIn (suc n) g (d ∷ ds) lt ([], e, under) =
    let len : length (d ∷ ds) ≡ 1 = ap length e in absurd (omega (arith, lt, len))
drop-EndsIn (suc n) g (d ∷ ds) lt (x ∷ es, e, under) =
    drop-EndsIn n g ds (omega (arith, lt)) (es, ap (drop 1) e, under.1)

pub tail_days-EndsIn : (n g : ℕ) (ds : List ℕ) → 0 < n → EndsIn g ds → EndsIn g (tail_days n ds)
tail_days-EndsIn n g ds pos (es, e, under) =
    let len : length ds ≡ length es + 1 = ap length e ∙ length-append es (g ∷ []) in
    drop-EndsIn (length ds - n) g ds (omega (arith, len, pos)) (es, e, under)

pub has_day-EndsIn : (g : ℕ) (ds : List ℕ) → EndsIn g ds → has_day g ds ≡ true
has_day-EndsIn g ds (es, e, under) = rw e (in_append es)
  where
    in_append : (xs : List ℕ) → has_day g (xs ++ (g ∷ [])) ≡ true
    in_append [] = ground arith
    in_append (x ∷ xs) = rw (in_append xs) (ground arith)

pub latest_day-EndsIn : (g : ℕ) (ds : List ℕ) → EndsIn g ds → latest_day ds ≡ some g
latest_day-EndsIn g ds (es, e, under) = rw e (in_append es under)
  where
    in_append : (xs : List ℕ) → Under g xs → latest_day (xs ++ (g ∷ [])) ≡ some g
    in_append [] h = refl
    in_append (x ∷ xs) h =
        let a : leb x g ≡ true = ground (arith, h.0) in rw (in_append xs h.1, a) refl

latest_day-none : (ds : List ℕ) → latest_day ds ≡ none → ds ≡ []
latest_day-none [] h = refl
latest_day-none (d ∷ ds) h = pick (latest_day ds) h
  where
    pick :
        (o : Option ℕ)
        → elim o [ none ↦ some d | some e ↦ if leb d e then some e else some d ] ≡ none
        → d ∷ ds ≡ []
    pick none k = cc
    pick (some m) k = elim (Bool-cases (leb d m)) [
      | inl a ↦
          let bad : some m ≡ none =
            subst (λ (b : Bool). (if b then some m else some d) ≡ none) a k in
          cc
      | inr a ↦
          let bad : some d ≡ none =
            subst (λ (b : Bool). (if b then some m else some d) ≡ none) a k in
          cc
    ]

AtMost-trans : (a b : ℕ) (ds : List ℕ) → a ≤ b → AtMost a ds → AtMost b ds
AtMost-trans a b [] le h = tt
AtMost-trans a b (d ∷ ds) le h = (omega (arith, le, h.0), AtMost-trans a b ds le h.1)

pub latest_day-has :
    (ds : List ℕ) (g : ℕ) → latest_day ds ≡ some g → (has_day g ds ≡ true) × AtMost g ds
latest_day-has [] g h = cc
latest_day-has (d ∷ ds) g h = pick (latest_day ds) refl h (latest_day-has ds)
  where
    pick :
        (o : Option ℕ)
        → latest_day ds ≡ o
        → elim o [ none ↦ some d | some e ↦ if leb d e then some e else some d ] ≡ some g
        → ((f : ℕ) → latest_day ds ≡ some f → (has_day f ds ≡ true) × AtMost f ds)
        → (has_day g (d ∷ ds) ≡ true) × AtMost g (d ∷ ds)
    pick none e k ih =
        let same : d ≡ g = cc in
        let empty = latest_day-none ds e in rw (empty, same) (ground arith, (omega arith, tt))
    pick (some m) e k ih =
        let (there, most) = ih m e in
        elim (Bool-cases (leb d m)) [
          | inl a ↦
              let taken : some m ≡ some g =
                subst (λ (b : Bool). (if b then some m else some d) ≡ some g) a k in
              let same : m ≡ g = cc in
              subst (λ x. (has_day x (d ∷ ds) ≡ true) × AtMost x (d ∷ ds)) same
                (rw there (ground arith), (ground (arith, a), most))
          | inr a ↦
              let taken : some d ≡ some g =
                subst (λ (b : Bool). (if b then some m else some d) ≡ some g) a k in
              let same : d ≡ g = cc in
              let lt : m ≤ d = ground (arith, a) in
              subst (λ x. (has_day x (d ∷ ds) ≡ true) × AtMost x (d ∷ ds)) same
                (ground arith, (omega arith, AtMost-trans m d ds lt most))
        ]

-- The greatest day of a list that has it, among days that are not greater.
pub sort_days-greatest :
    (g : ℕ) (ds : List ℕ) → has_day g ds ≡ true → AtMost g ds → EndsIn g (sort_days ds)
sort_days-greatest g ds there most = elim (sort_days-EndsIn g ds most) [ inl k ↦ k.1 | inr k ↦ cc ]
