-- ===== src/Backup/Restore.antt =====
-- What a restore needs is there: in the local directory after every day.
use crypto_cdc_pipeline.Base.{
  ℕ, ◌<◌, ◌≡◌, inl, inr, refl, sym, ap, ◌∙◌, subst, ◌||◌, Bool, true, false, none, some, List, [],
  ◌∷◌, arith, All, Bool-cases, Option-cases, if◌then◌else◌,
}
use crypto_cdc_pipeline.Backup.{
  Name, Copy, is_full, same_name, has, full_days, clickhouse_backup, choose_backup, prune_local,
  sort_days, tail_days,
}
use crypto_cdc_pipeline.Backup.Chain.{
  IsBefore, NewestFirst, IsChain, IsSound, segment, has_base, chain_day, latest_full-chain_day,
  clickhouse_backup-IsChain, choose_backup-IsChain, same_name_refl,
}
use crypto_cdc_pipeline.Backup.Pruned.{full_days-chain, tail_days-greatest, pruned-segment}

-- A backup can be restored from these directories: it is there, and so is its base, down to a full one.
pub data Restores (cs : List Copy) : Copy → Type 0 where
  from_full : {c : Copy} → has c.name cs ≡ true → is_full c.name ≡ true → Restores cs c
  from_base :
      {c : Copy} (b : Copy) (n : Name)
      → has c.name cs ≡ true
      → c.base ≡ some n
      → same_name b.name n ≡ true
      → Restores cs b
      → Restores cs c

-- Pruning leaves the latest full backup and what was made on it since, in the same order.
pub prune_local-segment :
    (cs : List Copy) → NewestFirst cs → IsChain cs → prune_local cs ≡ some (segment cs)
unfolding prune_local
prune_local-segment cs order h =
    let (rest, e, below) = full_days-chain cs order h in
    let kept : tail_days 1 (sort_days (full_days cs)) ≡ chain_day cs ∷ [] =
      rw e (tail_days-greatest (chain_day cs) rest below) in
    rw (latest_full-chain_day cs order h, prune_local, kept) (ap some (pruned-segment cs order h))

segment-IsChain :
    (cs : List Copy) → IsChain cs → IsChain (segment cs) × (segment (segment cs) ≡ segment cs)
segment-IsChain [] h = cc
segment-IsChain (c ∷ cs) (inl (f, b)) = rw f (inl (f, b), rw f refl)
segment-IsChain (c ∷ cs) (inr (f, b, h)) =
    let (chain, same) = segment-IsChain cs h in rw f (inr (f, rw same b, chain), rw (f, same) refl)

segment-IsBefore : (d : ℕ) (cs : List Copy) → IsBefore d cs → IsBefore d (segment cs)
segment-IsBefore d [] h = tt
segment-IsBefore d (c ∷ cs) h = elim (Bool-cases (is_full c.name)) [
  | inl f ↦ rw f (h.0, tt)
  | inr f ↦ rw f (h.0, segment-IsBefore d cs h.1)
]

segment-NewestFirst : (cs : List Copy) → NewestFirst cs → NewestFirst (segment cs)
segment-NewestFirst [] h = tt
segment-NewestFirst (c ∷ cs) h = elim (Bool-cases (is_full c.name)) [
  | inl f ↦ rw f (tt, tt)
  | inr f ↦ rw f (segment-IsBefore c.name.day cs h.0, segment-NewestFirst cs h.1)
]

-- A day of the two jobs: the backup, then the pruning where the upload before it went well.
abbrev pub day_run : ℕ → Bool → List Copy → List Copy
day_run day uploaded cs =
    let made = clickhouse_backup day cs in
    if uploaded then elim (prune_local made) [ none ↦ made | some left ↦ left ] else made

-- The days of a run with what became of the upload, the newest first.
abbrev pub run_days : List (ℕ × Bool) → List Copy
run_days [] = []
run_days (d ∷ ds) = day_run d.0 d.1 (run_days ds)

-- Each day is later than the days before it.
abbrev pub Later : List (ℕ × Bool) → Type 0
Later [] = Unit
Later (d ∷ ds) = All (λ (e : ℕ × Bool). e.0 < d.0) ds × Later ds

IsBefore-later : (a b : ℕ) (cs : List Copy) → a < b → IsBefore a cs → IsBefore b cs
IsBefore-later a b [] lt h = tt
IsBefore-later a b (c ∷ cs) lt h = (omega (arith, lt, h.0), IsBefore-later a b cs lt h.1)

Restores-more : (x : Copy) (cs : List Copy) (c : Copy) → Restores cs c → Restores (x ∷ cs) c
Restores-more x cs c (from_full h f) = from_full (rw h (ground arith)) f
Restores-more x cs c (from_base b n h e s r) =
    from_base b n (rw h (ground arith)) e s (Restores-more x cs b r)

-- Some directory of the name, from which it can be restored.
abbrev Restorable : Name → List Copy → Type 0
Restorable n cs = (b : Copy) × (same_name b.name n ≡ true) × Restores cs b

first-Restores :
    (c : Copy) (cs : List Copy)
    → ((n : Name) → has n (segment cs) ≡ true → Restorable n cs)
    → IsChain (c ∷ cs)
    → Restores (c ∷ cs) c
first-Restores c cs rest (inl (f, _)) = from_full (rw (same_name_refl c.name) refl) f
first-Restores c cs rest (inr (f, based, h)) = elim (Option-cases c.base) [
  | inl e ↦ let bad : false ≡ true = subst (λ o. has_base o (segment cs) ≡ true) e based in cc
  | inr (n, e) ↦
      let (b, same, r) = rest n (subst (λ o. has_base o (segment cs) ≡ true) e based) in
      from_base b n (rw (same_name_refl c.name) refl) e same (Restores-more c cs b r)
]

chain-Restores :
    (cs : List Copy) → IsChain cs → (n : Name) → has n (segment cs) ≡ true → Restorable n cs
chain-Restores [] h n found = cc
chain-Restores (c ∷ cs) (inl (f, b)) n found =
    let here : has n (c ∷ []) ≡ true =
      subst (λ (t : Bool). has n (if t then c ∷ [] else c ∷ segment cs) ≡ true) f found in
    (c, ground (arith, here), from_full (rw (same_name_refl c.name) refl) f)
chain-Restores (c ∷ cs) (inr (f, b, h)) n found =
    let here : has n (c ∷ segment cs) ≡ true =
      subst (λ (t : Bool). has n (if t then c ∷ [] else c ∷ segment cs) ≡ true) f found in
    let rest = chain-Restores cs h in
    elim (Bool-cases (same_name c.name n)) [
      | inl same ↦ (c, same, first-Restores c cs rest (inr (f, b, h)))
      | inr other ↦
          let later : has n (segment cs) ≡ true =
            subst (λ (t : Bool). t || has n (segment cs) ≡ true) other here in
          let (x, same, r) = rest n later in (x, same, Restores-more c cs x r)
    ]

newest-Restores : (c : Copy) (cs : List Copy) → IsChain (c ∷ cs) → Restores (c ∷ cs) c
newest-Restores c cs (inl (f, _)) = from_full (rw (same_name_refl c.name) refl) f
newest-Restores c cs (inr (f, b, h)) = first-Restores c cs (chain-Restores cs h) (inr (f, b, h))

-- What holds after a day: its directory is first, in a chain, and nothing is newer.
abbrev DayDone : ℕ → List Copy → Type 0
DayDone day cs =
    NewestFirst cs
    × IsChain cs
    × ((c : Copy) × (rest : List Copy) × (cs ≡ c ∷ rest) × (c.name.day ≡ day))
    × ((d : ℕ) → day < d → IsBefore d cs)

segment-first : (c : Copy) (cs : List Copy) → (rest : List Copy) × (segment (c ∷ cs) ≡ c ∷ rest)
segment-first c cs = elim (Bool-cases (is_full c.name)) [
  | inl f ↦ ([], rw f refl)
  | inr f ↦ (segment cs, rw f refl)
]

DayDone-made :
    (day : ℕ) (c : Copy) (cs : List Copy)
    → c.name.day ≡ day
    → IsBefore day cs
    → NewestFirst (c ∷ cs)
    → IsChain (c ∷ cs)
    → DayDone day (c ∷ cs)
DayDone-made day c cs e before order chain = (
  order,
  chain,
  (c, cs, refl, e),
  λ d lt. (omega (arith, lt, e), IsBefore-later day d cs lt before),
)

DayDone-segment : (day : ℕ) (cs : List Copy) → DayDone day cs → DayDone day (segment cs)
DayDone-segment day cs (order, chain, (c, rest, e, d), after) =
    let (left, first) = segment-first c rest in
    (
      segment-NewestFirst cs order,
      (segment-IsChain cs chain).0,
      (c, left, ap segment e ∙ first, d),
      λ later lt. segment-IsBefore later cs (after later lt),
    )

DayDone-day_run :
    (day : ℕ) (uploaded : Bool) (cs : List Copy)
    → IsBefore day cs
    → IsSound cs
    → DayDone day (day_run day uploaded cs)
DayDone-day_run day uploaded cs before sound =
    let (order, chain, made) = clickhouse_backup-IsChain day cs before sound in
    let (d, _) = choose_backup-IsChain day cs before sound in
    let done : DayDone day (clickhouse_backup day cs) = subst (DayDone day) (sym made) (
      DayDone-made day (choose_backup day cs) cs d before (subst NewestFirst made order)
        (subst IsChain made chain)) in
    elim (Bool-cases uploaded) [
      | inl t ↦
          rw (t, prune_local-segment (clickhouse_backup day cs) order chain)
            (DayDone-segment day (clickhouse_backup day cs) done)
      | inr f ↦ rw f done
    ]

run_days-IsSound :
    (ds : List (ℕ × Bool))
    → Later ds
    → IsSound (run_days ds)
      × ((day : ℕ) → All (λ (e : ℕ × Bool). e.0 < day) ds → IsBefore day (run_days ds))
run_days-IsSound [] later = ((tt, inl refl), λ day before. tt)
run_days-IsSound (d ∷ ds) later =
    let (sound, below) = run_days-IsSound ds later.1 in
    let (order, chain, _, after) =
      DayDone-day_run d.0 d.1 (run_days ds) (below d.0 later.0) sound in
    ((order, inr chain), λ day before. after day before.0)

-- For a run of the backup and the pruning on later and later days, where the pruning is left
-- out on any of them, the newest local directory is the one of the last day, and a restore of
-- it finds its base there, the base of that, and so on down to a full backup.
pub run_days-Restores :
    (d : ℕ × Bool) (ds : List (ℕ × Bool))
    → Later (d ∷ ds)
    → (c : Copy) × (rest : List Copy) × (run_days (d ∷ ds) ≡ c ∷ rest)
      × (c.name.day ≡ d.0)
      × Restores (run_days (d ∷ ds)) c
run_days-Restores d ds later =
    let (sound, below) = run_days-IsSound ds later.1 in
    let (_, chain, (c, rest, e, day), _) =
      DayDone-day_run d.0 d.1 (run_days ds) (below d.0 later.0) sound in
    (
      c,
      rest,
      e,
      day,
      subst (λ cs. Restores cs c) (sym e) (newest-Restores c rest (subst IsChain e chain)),
    )
