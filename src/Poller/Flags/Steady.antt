-- ===== src/Poller/Flags/Steady.antt =====
-- The rows of upbit_market_events, read again, give the flags of the state file.
use crypto_cdc_pipeline.Base.{
  ℕ, Bool, true, false, ◌&&◌, ◌≡◌, refl, sym, ap, ◌∙◌, subst, String, str_eq, eq_iff, Option, none,
  some, Option-cases, List, [], ◌∷◌, ◌++◌, append_assoc, inl, inr, Bool-cases, &&_split, ltb,
  length, arith, if◌then◌else◌,
}
use crypto_cdc_pipeline.Poller.Dicts.{Dict, get, has, put, Unique, has-get, get-none, put-Unique}
use crypto_cdc_pipeline.Poller.Flags.{
  Flag, Flags, Entry, fetch_loop, FlagRow, snapshot_rows, flag_of, transition_rows, FlagWorld,
  FlagRun, rows_of, poll_flags,
}
use crypto_cdc_pipeline.Poller.Flags.Kept.{
  last_state, shown, snapshot-shown, transition-shown, transition_none,
}

abbrev pub saved_of : Option (Dict Flags) → Dict Flags
saved_of none = []
saved_of (some s) = s

-- Each market of the first dict is in the second one.
abbrev pub covers : Dict Flags → Dict Flags → Bool
covers [] cur = true
covers ((k, fl) ∷ prev) cur = has k cur && covers prev cur

-- A run that is not cut off between its INSERT and its state file, and whose answer has every
-- market of the file.
abbrev pub steady : FlagRun → FlagWorld → Bool
steady r w = elim r.answer [
  | none ↦ true
  | some entries ↦ r.replaces && covers (saved_of w.file) (fetch_loop entries [])
]

abbrev pub poll_flags_all : List FlagRun → FlagWorld → FlagWorld
poll_flags_all [] w = w
poll_flags_all (r ∷ rs) w = poll_flags_all rs (poll_flags r w).1

abbrev pub steady_all : List FlagRun → FlagWorld → Bool
steady_all [] w = true
steady_all (r ∷ rs) w = steady r w && steady_all rs (poll_flags r w).1

covers_get :
    (k : String) (prev cur : Dict Flags)
    → covers prev cur ≡ true
    → has k cur ≡ false
    → has k prev ≡ false
covers_get k [] cur c h = refl
covers_get k ((l, fl) ∷ prev) cur c h = elim (Bool-cases (str_eq l k)) [
  | inl e ↦ cc ((eq_iff l k).0 e, h, (&&_split (has l cur) (covers prev cur) c).0)
  | inr e ↦ rw e (covers_get k prev cur (&&_split (has l cur) (covers prev cur) c).1 h)
]

fetch_loop-Unique : (es : List Entry) (cur : Dict Flags) → Unique cur → Unique (fetch_loop es cur)
fetch_loop-Unique [] cur u = u
fetch_loop-Unique ((m, krw, none) ∷ es) cur u = fetch_loop-Unique es cur u
fetch_loop-Unique ((m, true, some ev) ∷ es) cur u =
    fetch_loop-Unique es (put m ev cur) (put-Unique m ev cur u)
fetch_loop-Unique ((m, false, some ev) ∷ es) cur u = fetch_loop-Unique es cur u

-- The table gives the flags of the state file.
abbrev pub Shows : FlagWorld → Type 0
Shows w =
    (k : String) (f : Flag) → shown (last_state k f w.table) ≡ flag_of (get k (saved_of w.file)) f

transitions_show :
    (k : String) (f : Flag) (now : ℕ) (prev cur : Dict Flags) (t : List FlagRow)
    → Unique cur
    → covers prev cur ≡ true
    → shown (last_state k f t) ≡ flag_of (get k prev) f
    → shown (last_state k f (transition_rows now prev cur ++ t)) ≡ flag_of (get k cur) f
transitions_show k f now prev cur t u c m = elim (Option-cases (get k cur)) [
  | inl e ↦
      let out = get-none k cur e in
      let before = has-get k prev (covers_get k prev cur c out) in
      ap shown (transition_none k f now prev cur t out)
      ∙ m
      ∙ ap (λ (o : Option Flags). flag_of o f) (before ∙ sym e)
  | inr (fl, e) ↦
      transition-shown k f now prev cur t fl u e m ∙ ap (λ (o : Option Flags). flag_of o f) (sym e)
]

rows_show :
    (r : FlagRun) (file : Option (Dict Flags)) (cur : Dict Flags) (t : List FlagRow) (k : String)
    (f : Flag)
    → Unique cur
    → covers (saved_of file) cur ≡ true
    → shown (last_state k f t) ≡ flag_of (get k (saved_of file)) f
    → shown (last_state k f (rows_of r file cur ++ t)) ≡ flag_of (get k cur) f
rows_show r none cur t k f u c m = ground (arith, snapshot-shown k f r.now cur t u, m)
rows_show r (some prev) cur t k f u c m =
    let after = transitions_show k f r.now prev cur t u c m in
    elim (Bool-cases r.force) [
      | inl e ↦
          let moves = transition_rows r.now prev cur in
          rw (e, append_assoc (snapshot_rows r.now cur) moves t)
            (ground (arith, snapshot-shown k f r.now cur (moves ++ t) u, after))
      | inr e ↦ rw e after
    ]

either : {A : Type 0} (P : A → Type 0) (b : Bool) (x y : A) → P x → P y → P (if b then x else y)
either P true x y p q = p
either P false x y p q = q

poll_flags-Shows :
    (r : FlagRun) (w : FlagWorld) → steady r w ≡ true → Shows w → Shows (poll_flags r w).1
unfolding poll_flags
poll_flags-Shows r w s m = elim (Option-cases r.answer) [
  | inl e ↦ rw e m
  | inr (entries, e) ↦
      let P = λ (o : Bool × FlagWorld). Shows o.1 in
      let cur = fetch_loop entries [] in
      let sides = &&_split r.replaces (covers (saved_of w.file) cur) (
        subst
          (λ (o : Option (List Entry)).
            elim o [
              | none ↦ true
              | some es ↦ r.replaces && covers (saved_of w.file) (fetch_loop es [])
            ]
            ≡ true)
          e s) in
      let new : (k : String) (f : Flag) → _ = λ (k : String) (f : Flag).
        rows_show r w.file cur w.table k f (fetch_loop-Unique entries [] tt) sides.1 (m k f) in
      rw (e, sides.0) (either P (ltb (length cur) 200) _ _ m (either P _ _ _ m new))
]

poll_flags_all-Shows :
    (rs : List FlagRun) (w : FlagWorld)
    → steady_all rs w ≡ true
    → Shows w
    → Shows (poll_flags_all rs w)
poll_flags_all-Shows [] w s m = m
poll_flags_all-Shows (r ∷ rs) w s m =
    let sides = &&_split (steady r w) (steady_all rs (poll_flags r w).1) s in
    poll_flags_all-Shows rs (poll_flags r w).1 sides.1 (poll_flags-Shows r w sides.0 m)

abbrev pub new_world : FlagWorld
new_world = record { file = none; table = [] }

-- Over runs none of which is cut off between its INSERT and its state file, and whose answers
-- have every market of the state file: the last row of each flag of each market, not set where
-- there is none, is the flag in the state file, whether or not --snapshot is given and whichever
-- runs fail or are refused for their small answer.
pub poll_flags_all-replays :
    (rs : List FlagRun)
    → steady_all rs new_world ≡ true
    → (k : String) (f : Flag)
    → shown (last_state k f (poll_flags_all rs new_world).table)
      ≡ flag_of (get k (saved_of (poll_flags_all rs new_world).file)) f
poll_flags_all-replays rs s k f = poll_flags_all-Shows rs new_world s (λ x g. refl) k f
