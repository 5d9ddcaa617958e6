-- ===== src/Poller/Replay.antt =====
-- The rows of upbit_market_state_events, read again, give the state file.
use crypto_cdc_pipeline.Base.{
  ℕ, Bool, true, false, ◌≡◌, refl, sym, ap, subst, String, str_eq, eq_iff, Option, none, some,
  Option-cases, some-eq, ◌∙◌, List, [], ◌∷◌, ◌++◌, append_assoc, inl, inr, Bool-cases, ltb, length,
  is_empty, All, arith, if◌then◌else◌,
}
use crypto_cdc_pipeline.Poller.Dicts.{
  Dict, get, has, set_default, Unique, get-has, get-none, set_default-Unique, map_values,
  map_values-Unique,
}
use crypto_cdc_pipeline.Poller.{
  Ticker, Row, to_row, same_bool, same_date, same_row, Received, ticker, failed, snapshot, initial,
  transition, gone, Event, absent, prev_of, changed_of, gone_of, World, Run, poll,
}

same_bool_sound : (a b : Bool) → same_bool a b ≡ true → a ≡ b
same_bool_sound a b h = ground (arith, h)

same_date_sound : (a b : Option (ℕ × ℕ × ℕ)) → same_date a b ≡ true → a ≡ b
same_date_sound none none h = refl
same_date_sound none (some b) h = cc
same_date_sound (some a) none h = cc
same_date_sound (some (y, m, d)) (some (z, n, e)) h =
    let p : y ≡ z = ground (arith, h) in
    let q : m ≡ n = ground (arith, h) in
    let r : d ≡ e = ground (arith, h) in λ i. some (p i, q i, r i)

same_row_sound : (p v : Row) → same_row (some p) v ≡ true → p ≡ v
same_row_sound p v h =
    let name = (eq_iff p.state v.state).0 (ground (arith, h)) in
    let flag = same_bool_sound p.suspended v.suspended (ground (arith, h)) in
    let date = same_date_sound p.delisting v.delisting (ground (arith, h)) in
    λ i. record { state = name i; suspended = flag i; delisting = date i }

same_row_option : (o : Option Row) (v : Row) → same_row o v ≡ true → o ≡ some v
same_row_option none v h = cc
same_row_option (some p) v h = ap some (same_row_sound p v h)

-- The last row of a market.
abbrev pub last_event : String → List Event → Option Event
last_event k [] = none
last_event k (e ∷ es) = if str_eq e.market k then some e else last_event k es

-- What the table says of a market, nothing where it is gone.
abbrev pub listed : Option Event → Option Row
listed none = none
listed (some e) = elim e.kind [ initial ↦ some e.row | transition ↦ some e.row | gone ↦ none ]

abbrev change_event : ℕ → Dict Row → String → Row → Event
change_event now prev k v = record {
  observed_at = now;
  market = k;
  kind = if is_empty prev then initial else transition;
  row = v;
}

listed_change :
    (now : ℕ) (prev : Dict Row) (k : String) (v : Row)
    → listed (some (change_event now prev k v)) ≡ some v
listed_change now [] k v = refl
listed_change now (x ∷ prev) k v = refl

module _ (k : String) (now : ℕ) (table : List Event) where
  gone_here :
      (prev cur : Dict Row)
      → has k cur ≡ true
      → last_event k (gone_of now prev cur ++ table) ≡ last_event k table
  gone_here [] cur h = refl
  gone_here ((l, v) ∷ prev) cur h = elim (Bool-cases (has l cur)) [
    | inl e ↦ rw e (gone_here prev cur h)
    | inr e ↦
        let other : str_eq l k ≡ false = elim (Bool-cases (str_eq l k)) [
          | inl f ↦ cc (e, h, (eq_iff l k).0 f)
          | inr f ↦ f
        ] in
        rw (e, other) (gone_here prev cur h)
  ]

  gone_listed :
      (prev cur : Dict Row)
      → has k cur ≡ false
      → listed (last_event k table) ≡ get k prev
      → listed (last_event k (gone_of now prev cur ++ table)) ≡ none
  gone_listed [] cur h m = m
  gone_listed ((l, v) ∷ prev) cur h m = elim (Bool-cases (str_eq l k)) [
    | inl f ↦ let left : has l cur ≡ false = cc ((eq_iff l k).0 f, h) in rw (left, f) refl
    | inr f ↦
        let before : listed (last_event k table) ≡ get k prev =
          subst (λ (b : Bool). listed (last_event k table) ≡ (if b then some v else get k prev)) f
            m in
        elim (Bool-cases (has l cur)) [
          | inl e ↦ rw e (gone_listed prev cur h before)
          | inr e ↦ rw (e, f) (gone_listed prev cur h before)
        ]
  ]

  changed_none :
      (prev cur : Dict Row)
      → has k cur ≡ false
      → last_event k (changed_of now prev cur ++ table) ≡ last_event k table
  changed_none prev [] h = refl
  changed_none prev ((l, v) ∷ cur) h =
      let other : str_eq l k ≡ false = ground (arith, h) in
      elim (Bool-cases (same_row (get l prev) v)) [
        | inl e ↦ rw e (changed_none prev cur (ground (arith, h)))
        | inr e ↦ rw (e, other) (changed_none prev cur (ground (arith, h)))
      ]

  changed_here :
      (prev cur : Dict Row)
      → Unique cur
      → (v : Row) → get k cur ≡ some v
      → listed (last_event k table) ≡ get k prev
      → listed (last_event k (changed_of now prev cur ++ table)) ≡ some v
  changed_here prev [] u v h m = cc
  changed_here prev ((l, w) ∷ cur) u v h m = elim (Bool-cases (str_eq l k)) [
    | inl f ↦
        let name = (eq_iff l k).0 f in
        let this : w ≡ v =
          some-eq (subst (λ (b : Bool). (if b then some w else get k cur) ≡ some v) f h) in
        let later : has k cur ≡ false = cc (name, u.0) in
        elim (Bool-cases (same_row (get l prev) w)) [
          | inl e ↦
              let kept = same_row_option (get l prev) w e in
              rw e (
                ap listed (changed_none prev cur later)
                ∙ m
                ∙ ap (λ (x : String). get x prev) (sym name)
                ∙ kept
                ∙ ap some this)
          | inr e ↦ rw (e, f) (listed_change now prev l w ∙ ap some this)
        ]
    | inr f ↦
        let later : get k cur ≡ some v =
          subst (λ (b : Bool). (if b then some w else get k cur) ≡ some v) f h in
        elim (Bool-cases (same_row (get l prev) w)) [
          | inl e ↦ rw e (changed_here prev cur u.1 v later m)
          | inr e ↦ rw (e, f) (changed_here prev cur u.1 v later m)
        ]
  ]

-- The rows of a run, on a table that gives `prev`, give `cur`.
rows_give :
    (k : String) (now : ℕ) (table : List Event) (prev cur : Dict Row)
    → Unique cur
    → listed (last_event k table) ≡ get k prev
    → listed (last_event k (changed_of now prev cur ++ gone_of now prev cur ++ table)) ≡ get k cur
rows_give k now table prev cur u m =
    rw (append_assoc (changed_of now prev cur) (gone_of now prev cur) table)
      (elim (Option-cases (get k cur)) [
        | inl e ↦
            let out = get-none k cur e in
            ap listed (changed_none k now (gone_of now prev cur ++ table) prev cur out)
            ∙ gone_listed k now table prev cur out m
            ∙ sym e
        | inr (v, e) ↦
            let stays = ap listed (gone_here k now table prev cur (get-has k cur v e)) ∙ m in
            changed_here k now (gone_of now prev cur ++ table) prev cur u v e stays ∙ sym e
      ])

snapshot-Unique :
    (codes : ℕ) (rs : List Received) (got : Dict Ticker)
    → Unique got
    → Unique (snapshot codes rs got)
snapshot-Unique codes [] got u = u
snapshot-Unique codes (failed ∷ rs) got u = u
snapshot-Unique codes (ticker c m ∷ rs) got u = elim (Bool-cases (ltb (length got) codes)) [
  | inl e ↦ rw e (snapshot-Unique codes rs (set_default c m got) (set_default-Unique c m got u))
  | inr e ↦ rw e u
]

-- The table gives the state file.
abbrev pub Mirrored : World → Type 0
Mirrored w = (k : String) → listed (last_event k w.table) ≡ get k (prev_of false w.file)

-- A run without --snapshot, in which the state file can be written.
abbrev pub Plain : Run → Type 0
Plain r = (r.force ≡ false) × (r.writes ≡ true)

either : {A : Type 0} (P : A → Type 0) (b : Bool) (x y : A) → P x → P y → P (if b then x else y)
either P true x y p q = p
either P false x y p q = q

poll-Mirrored : (r : Run) (w : World) → Plain r → Mirrored w → Mirrored (poll r w).1
unfolding poll
poll-Mirrored r w plain m = elim (Option-cases r.answer) [
  | inl e ↦ rw e m
  | inr (a, e) ↦
      let P = λ (o : Option ℕ × World). Mirrored o.1 in
      let got = snapshot a.0 a.1 [] in
      let cur = map_values to_row got in
      let one = map_values-Unique to_row got (snapshot-Unique a.0 a.1 [] tt) in
      let new : (k : String) → _ =
        λ (k : String). rows_give k r.now w.table (prev_of false w.file) cur one (m k) in
      rw (e, plain.0, plain.1)
        (either P (is_empty got) _ _ m
          (either P r.dry _ _ m (either P _ _ _ m (either P r.beats _ _ new new))))
]

abbrev pub start : World
start = record { file = absent; table = []; beats = [] }

abbrev pub poll_all : List Run → World → World
poll_all [] w = w
poll_all (r ∷ rs) w = poll_all rs (poll r w).1

poll_all-Mirrored :
    (rs : List Run) (w : World) → All Plain rs → Mirrored w → Mirrored (poll_all rs w)
poll_all-Mirrored [] w plain m = m
poll_all-Mirrored (r ∷ rs) w plain m =
    poll_all-Mirrored rs (poll r w).1 plain.1 (poll-Mirrored r w plain.0 m)

-- Over any runs without --snapshot in which the state file can be written - dry runs, runs
-- without an answer and runs whose INSERT fails among them - the last row of a market in the
-- table is the market's entry in the state file, and is a `gone` one, or there is none, exactly
-- where the file has no entry.
pub poll_all-replays :
    (rs : List Run)
    → All Plain rs
    → (k : String)
    → listed (last_event k (poll_all rs start).table)
      ≡ get k (prev_of false (poll_all rs start).file)
poll_all-replays rs plain k = poll_all-Mirrored rs start plain (λ x. refl) k
