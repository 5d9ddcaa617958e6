-- ===== src/Backup/Chain.antt =====
-- The chain of increments on the latest full backup.
use crypto_cdc_pipeline.Base.{
  ℕ, ◌<◌, ◌≡◌, ◌⊎◌, inl, inr, refl, sym, ap, subst, ◌==◌, Bool, true, false, Option, none, some,
  List, [], ◌∷◌, arith, leb, All, Bool-cases, if◌then◌else◌,
}
use crypto_cdc_pipeline.Base.Int.{pos, ◌-ℤ◌, leb_ℤ}
use crypto_cdc_pipeline.Backup.{
  Name, Copy, is_full, same_name, has, name_leb, last_name, full_days, latest_day, latest_full,
  names_since, latest_backup_since, choose_backup, clickhouse_backup,
}

-- Every directory is of an earlier day.
abbrev pub IsBefore : ℕ → List Copy → Type 0
IsBefore day = All (λ (c : Copy). c.name.day < day)

-- The newest directory stands first, and no two are of one day.
abbrev pub NewestFirst : List Copy → Type 0
NewestFirst [] = Unit
NewestFirst (c ∷ cs) = IsBefore c.name.day cs × NewestFirst cs

-- The directories up to the first full backup.
abbrev pub segment : List Copy → List Copy
segment [] = []
segment (c ∷ cs) = if is_full c.name then c ∷ [] else c ∷ segment cs

abbrev pub has_base : Option Name → List Copy → Bool
has_base none cs = false
has_base (some n) cs = has n cs

-- The segment ends in a full backup, and each increment has its base in the rest of the segment.
abbrev pub IsChain : List Copy → Type 0
IsChain [] = true ≡ false
IsChain (c ∷ cs) =
    ((is_full c.name ≡ true) × (c.base ≡ none))
    ⊎ (is_full c.name ≡ false) × (has_base c.base (segment cs) ≡ true) × IsChain cs

-- The latest full backup of a chain is the one that ends its segment.
abbrev pub chain_day : List Copy → ℕ
chain_day [] = 0
chain_day (c ∷ cs) = if is_full c.name then c.name.day else chain_day cs

-- An optional day before another.
abbrev IsBelow : ℕ → Option ℕ → Type 0
IsBelow d none = Unit
IsBelow d (some e) = e < d

latest_day-IsBelow : (d : ℕ) (ds : List ℕ) → All (λ (e : ℕ). e < d) ds → IsBelow d (latest_day ds)
latest_day-IsBelow d [] h = tt
latest_day-IsBelow d (e ∷ es) h = pick (latest_day es) (latest_day-IsBelow d es h.1)
  where
    pick :
        (o : Option ℕ)
        → IsBelow d o
        → IsBelow d (elim o [ none ↦ some e | some f ↦ if leb e f then some f else some e ])
    pick none k = h.0
    pick (some f) k = elim (Bool-cases (leb e f)) [ inl t ↦ rw t k | inr t ↦ rw t h.0 ]

pub full_days-All : (d : ℕ) (cs : List Copy) → IsBefore d cs → All (λ (e : ℕ). e < d) (full_days cs)
full_days-All d [] h = tt
full_days-All d (c ∷ cs) h = elim (Bool-cases (is_full c.name)) [
  | inl f ↦ rw f (h.0, full_days-All d cs h.1)
  | inr f ↦ rw f (full_days-All d cs h.1)
]

latest_day-first : (d : ℕ) (ds : List ℕ) → All (λ (e : ℕ). e < d) ds → latest_day (d ∷ ds) ≡ some d
latest_day-first d ds h = pick (latest_day ds) (latest_day-IsBelow d ds h)
  where
    pick :
        (o : Option ℕ)
        → IsBelow d o
        → elim o [ none ↦ some d | some f ↦ if leb d f then some f else some d ] ≡ some d
    pick none k = refl
    pick (some f) k = ground (arith, k)

pub latest_full-chain_day :
    (cs : List Copy) → NewestFirst cs → IsChain cs → latest_full cs ≡ some (chain_day cs)
unfolding latest_full
latest_full-chain_day (c ∷ cs) order (inl (f, _)) =
    rw f (latest_day-first c.name.day (full_days cs) (full_days-All c.name.day cs order.0))
latest_full-chain_day (c ∷ cs) order (inr (f, _, h)) = rw f (latest_full-chain_day cs order.1 h)
latest_full-chain_day [] order h = cc

pub chain_day-below : (d : ℕ) (cs : List Copy) → IsBefore d cs → IsChain cs → chain_day cs < d
chain_day-below d [] before h = cc
chain_day-below d (c ∷ cs) before (inl (f, _)) = rw f before.0
chain_day-below d (c ∷ cs) before (inr (f, _, h)) = rw f (chain_day-below d cs before.1 h)

abbrev names : List Copy → List Name
names [] = []
names (c ∷ cs) = c.name ∷ names cs

names_since-older : (d : ℕ) (cs : List Copy) → IsBefore d cs → names_since d cs ≡ []
names_since-older d [] h = refl
names_since-older d (c ∷ cs) h =
    let e : leb d c.name.day ≡ false = ground (arith, h.0) in rw e (names_since-older d cs h.1)

names_since-segment :
    (cs : List Copy)
    → NewestFirst cs
    → IsChain cs
    → names_since (chain_day cs) cs ≡ names (segment cs)
names_since-segment [] order h = refl
names_since-segment (c ∷ cs) order (inl (f, _)) =
    let e : leb c.name.day c.name.day ≡ true = ground arith in
    let day : chain_day (c ∷ cs) ≡ c.name.day = rw f refl in
    subst (λ d. names_since d (c ∷ cs) ≡ names (segment (c ∷ cs))) (sym day)
      (rw (f, e) (ap (λ l. c.name ∷ l) (names_since-older c.name.day cs order.0)))
names_since-segment (c ∷ cs) order (inr (f, _, h)) =
    let lt = chain_day-below c.name.day cs order.0 h in
    let e : leb (chain_day cs) c.name.day ≡ true = ground (arith, lt) in
    let day : chain_day (c ∷ cs) ≡ chain_day cs = rw f refl in
    subst (λ d. names_since d (c ∷ cs) ≡ names (segment (c ∷ cs))) (sym day)
      (rw (f, e) (ap (λ l. c.name ∷ l) (names_since-segment cs order.1 h)))

pub same_name_refl : (n : Name) → same_name n n ≡ true
same_name_refl n = ground arith

-- The last of the names of some directories is one of them.
last_name-has : (c : Copy) (cs : List Copy) → has_base (last_name (names (c ∷ cs))) (c ∷ cs) ≡ true
last_name-has c [] = rw (same_name_refl c.name) refl
last_name-has c (d ∷ ds) = pick (last_name (names (d ∷ ds))) (last_name-has d ds)
  where
    pick :
        (o : Option Name)
        → has_base o (d ∷ ds) ≡ true
        → has_base
            (elim o [
              | none ↦ some c.name
              | some m ↦ if name_leb c.name m then some m else some c.name
            ])
            (c ∷ d ∷ ds)
          ≡ true
    pick none k = rw (same_name_refl c.name) refl
    pick (some m) k = elim (Bool-cases (name_leb c.name m)) [
      | inl t ↦ rw (t, k) (ground arith)
      | inr t ↦ rw (t, same_name_refl c.name) refl
    ]

has-older : (n : Name) (cs : List Copy) → IsBefore n.day cs → has n cs ≡ false
has-older n [] h = refl
has-older n (c ∷ cs) h =
    let e : c.name.day == n.day ≡ false = ground (arith, h.0) in
    rw (e, has-older n cs h.1) (ground arith)

-- The segment of a chain is not empty, so the last of its names is one of its directories.
latest_backup_since-has :
    (cs : List Copy)
    → NewestFirst cs
    → IsChain cs
    → has_base (latest_backup_since (chain_day cs) cs) (segment cs) ≡ true
unfolding latest_backup_since
latest_backup_since-has cs order h = rw (names_since-segment cs order h) (from_segment cs h)
  where
    from_segment :
        (xs : List Copy)
        → IsChain xs
        → has_base (last_name (names (segment xs))) (segment xs) ≡ true
    from_segment [] k = cc
    from_segment (x ∷ xs) k = elim (Bool-cases (is_full x.name)) [
      | inl f ↦ rw f (last_name-has x [])
      | inr f ↦ rw f (last_name-has x (segment xs))
    ]

-- What is before the first backup, or a chain.
abbrev pub IsSound : List Copy → Type 0
IsSound cs = NewestFirst cs × ((cs ≡ []) ⊎ IsChain cs)

latest_full-empty : latest_full [] ≡ none
unfolding latest_full
latest_full-empty = refl

pub choose_backup-IsChain :
    (day : ℕ) (cs : List Copy)
    → IsBefore day cs
    → IsSound cs
    → ((choose_backup day cs).name.day ≡ day) × IsChain (choose_backup day cs ∷ cs)
unfolding choose_backup
choose_backup-IsChain day cs before (order, inl e) =
    let none_yet : latest_full cs ≡ none = rw e latest_full-empty in
    rw (none_yet, choose_backup) (refl, inl (refl, refl))
choose_backup-IsChain day cs before (order, inr h) =
    let base = latest_backup_since-has cs order h in
    elim (Bool-cases (leb_ℤ (pos 7) (pos day -ℤ pos (chain_day cs)))) [
      | inl old ↦ rw (latest_full-chain_day cs order h, choose_backup, old) (refl, inl (refl, refl))
      | inr young ↦
          rw (latest_full-chain_day cs order h, choose_backup, young) (refl, inr (refl, base, h))
    ]

-- A backup of a later day makes a sound directory a chain, and is its newest directory.
pub clickhouse_backup-IsChain :
    (day : ℕ) (cs : List Copy)
    → IsBefore day cs
    → IsSound cs
    → NewestFirst (clickhouse_backup day cs)
      × IsChain (clickhouse_backup day cs)
      × (clickhouse_backup day cs ≡ choose_backup day cs ∷ cs)
unfolding clickhouse_backup
clickhouse_backup-IsChain day cs before sound =
    let (d, chain) = choose_backup-IsChain day cs before sound in
    let new : has (choose_backup day cs).name cs ≡ false =
      has-older (choose_backup day cs).name cs (rw d before) in
    rw new ((rw d before, sound.0), chain, refl)
