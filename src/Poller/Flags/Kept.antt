-- ===== src/Poller/Flags/Kept.antt =====
-- What the rows of a run leave of each flag.
use crypto_cdc_pipeline.Base.{
  ℕ, Bool, true, false, ◌&&◌, ◌||◌, ◌==◌, ◌≡◌, refl, sym, ap, ◌∙◌, subst, String, str_eq, eq_iff,
  Option, none, some, List, [], ◌∷◌, ◌++◌, append_assoc, inl, inr, Bool-cases, arith, if◌then◌else◌,
}
use crypto_cdc_pipeline.Poller.{same_bool}
use crypto_cdc_pipeline.Poller.Dicts.{Dict, get, has, Unique}
use crypto_cdc_pipeline.Poller.Flags.{
  Flag, flag_index, all_flags, Flags, FlagRow, set_flags, snapshot_rows, flag_of, changed_flags,
  transition_rows,
}

-- The last row of a flag of a market.
abbrev pub last_state : String → Flag → List FlagRow → Option Bool
last_state k f [] = none
last_state k f (e ∷ es) =
    if str_eq e.market k && flag_index e.flag == flag_index f
    then some e.state
    else last_state k f es

-- A flag without rows is not set.
abbrev pub shown : Option Bool → Bool
shown none = false
shown (some b) = b

abbrev has_flag : Flag → List Flag → Bool
has_flag f [] = false
has_flag f (g ∷ gs) = flag_index g == flag_index f || has_flag f gs

flag_same : (g f : Flag) → (flag_index g == flag_index f) ≡ true → g ≡ f
flag_same g f h = ground (arith, h)

skip_row : (b : Bool) (x y : Option Bool) → (if b && false then x else y) ≡ y
skip_row true x y = refl
skip_row false x y = refl

module _ (k : String) (f : Flag) (now : ℕ) where
  set_other :
      (l : String) (fl : Flags) (fs : List Flag) (t : List FlagRow)
      → str_eq l k ≡ false
      → last_state k f (set_flags now l fl fs ++ t) ≡ last_state k f t
  set_other l fl [] t o = refl
  set_other l fl (g ∷ fs) t o = elim (Bool-cases (fl g)) [
    | inl e ↦ rw (e, o) (set_other l fl fs t o)
    | inr e ↦ rw e (set_other l fl fs t o)
  ]

  set_shown :
      (l : String) (fl : Flags) (fs : List Flag) (t : List FlagRow)
      → str_eq l k ≡ true
      → shown (last_state k f (set_flags now l fl fs ++ t))
        ≡ ((fl f && has_flag f fs) || shown (last_state k f t))
  set_shown l fl [] t o = ground arith
  set_shown l fl (g ∷ fs) t o = elim (Bool-cases (flag_index g == flag_index f)) [
    | inl i ↦
        let same : fl f ≡ fl g = ap fl (sym (flag_same g f i)) in
        elim (Bool-cases (fl g)) [
          | inl e ↦ rw (e, o, i, same, e) refl
          | inr e ↦ rw (e, i) (ground (arith, same, set_shown l fl fs t o))
        ]
    | inr i ↦ elim (Bool-cases (fl g)) [
      | inl e ↦ rw (e, o, i) (set_shown l fl fs t o)
      | inr e ↦ rw (e, i) (set_shown l fl fs t o)
    ]
  ]

  changed_other :
      (l : String) (before : Option Flags) (fl : Flags) (fs : List Flag) (t : List FlagRow)
      → str_eq l k ≡ false
      → last_state k f (changed_flags now l before fl fs ++ t) ≡ last_state k f t
  changed_other l before fl [] t o = refl
  changed_other l before fl (g ∷ fs) t o = elim (Bool-cases (same_bool (fl g) (flag_of before g))) [
    | inl e ↦ rw e (changed_other l before fl fs t o)
    | inr e ↦ rw (e, o) (changed_other l before fl fs t o)
  ]

  changed_same :
      (l : String) (before : Option Flags) (fl : Flags) (fs : List Flag) (t : List FlagRow)
      → same_bool (fl f) (flag_of before f) ≡ true
      → last_state k f (changed_flags now l before fl fs ++ t) ≡ last_state k f t
  changed_same l before fl [] t s = refl
  changed_same l before fl (g ∷ fs) t s = elim (Bool-cases (same_bool (fl g) (flag_of before g))) [
    | inl e ↦ rw e (changed_same l before fl fs t s)
    | inr e ↦
        let other : (flag_index g == flag_index f) ≡ false =
          elim (Bool-cases (flag_index g == flag_index f)) [
            | inl i ↦ cc (e, s, flag_same g f i)
            | inr i ↦ i
          ] in
        rw (e, other)
          (skip_row (str_eq l k) (some (fl g))
              (last_state k f (changed_flags now l before fl fs ++ t))
            ∙ changed_same l before fl fs t s)
  ]

  changed_new :
      (l : String) (before : Option Flags) (fl : Flags) (fs : List Flag) (t : List FlagRow)
      → str_eq l k ≡ true
      → same_bool (fl f) (flag_of before f) ≡ false
      → has_flag f fs ≡ true
      → last_state k f (changed_flags now l before fl fs ++ t) ≡ some (fl f)
  changed_new l before fl [] t o s h = cc
  changed_new l before fl (g ∷ fs) t o s h = elim (Bool-cases (flag_index g == flag_index f)) [
    | inl i ↦
        let same = flag_same g f i in
        let test : same_bool (fl g) (flag_of before g) ≡ false = cc (same, s) in
        rw (test, o, i) (ap (λ (x : Flag). some (fl x)) same)
    | inr i ↦
        let later : has_flag f fs ≡ true = ground (arith, i, h) in
        elim (Bool-cases (same_bool (fl g) (flag_of before g))) [
          | inl e ↦ rw e (changed_new l before fl fs t o s later)
          | inr e ↦ rw (e, o, i) (changed_new l before fl fs t o s later)
        ]
  ]

  all_flags_has : has_flag f all_flags ≡ true
  all_flags_has = ground arith

  snapshot_none :
      (cur : Dict Flags) (t : List FlagRow)
      → has k cur ≡ false
      → last_state k f (snapshot_rows now cur ++ t) ≡ last_state k f t
  snapshot_none [] t h = refl
  snapshot_none ((l, fl) ∷ cur) t h =
      rw (append_assoc (set_flags now l fl all_flags) (snapshot_rows now cur) t) (
        set_other l fl all_flags (snapshot_rows now cur ++ t) (ground (arith, h))
        ∙ snapshot_none cur t (ground (arith, h)))

  -- A snapshot sets the flags that are set.
  pub snapshot-shown :
      (cur : Dict Flags) (t : List FlagRow)
      → Unique cur
      → shown (last_state k f (snapshot_rows now cur ++ t))
        ≡ (flag_of (get k cur) f || shown (last_state k f t))
  snapshot-shown [] t u = refl
  snapshot-shown ((l, fl) ∷ cur) t u = elim (Bool-cases (str_eq l k)) [
    | inl e ↦
        let out : has k cur ≡ false = cc ((eq_iff l k).0 e, u.0) in
        rw (append_assoc (set_flags now l fl all_flags) (snapshot_rows now cur) t, e)
          (ground (
            arith,
            all_flags_has,
            set_shown l fl all_flags (snapshot_rows now cur ++ t) e,
            ap shown (snapshot_none cur t out),
          ))
    | inr e ↦
        rw (append_assoc (set_flags now l fl all_flags) (snapshot_rows now cur) t, e)
          (ap shown (set_other l fl all_flags (snapshot_rows now cur ++ t) e)
            ∙ snapshot-shown cur t u.1)
  ]

  pub transition_none :
      (prev cur : Dict Flags) (t : List FlagRow)
      → has k cur ≡ false
      → last_state k f (transition_rows now prev cur ++ t) ≡ last_state k f t
  transition_none prev [] t h = refl
  transition_none prev ((l, fl) ∷ cur) t h =
      let these = changed_flags now l (get l prev) fl all_flags in
      rw (append_assoc these (transition_rows now prev cur) t) (
        changed_other l (get l prev) fl all_flags (transition_rows now prev cur ++ t)
          (ground (arith, h))
        ∙ transition_none prev cur t (ground (arith, h)))

  -- The transitions of a market lead from the flags of `prev` to those of `cur`.
  pub transition-shown :
      (prev cur : Dict Flags) (t : List FlagRow) (fl : Flags)
      → Unique cur
      → get k cur ≡ some fl
      → shown (last_state k f t) ≡ flag_of (get k prev) f
      → shown (last_state k f (transition_rows now prev cur ++ t)) ≡ fl f
  transition-shown prev [] t fl u h m = cc
  transition-shown prev ((l, w) ∷ cur) t fl u h m =
      let these = changed_flags now l (get l prev) w all_flags in
      let more = transition_rows now prev cur ++ t in
      rw (append_assoc these (transition_rows now prev cur) t) (elim (Bool-cases (str_eq l k)) [
        | inl e ↦
            let name = (eq_iff l k).0 e in
            let here : w f ≡ fl f =
              ap (λ (o : Option Flags). flag_of o f)
                (subst (λ (b : Bool). (if b then some w else get k cur) ≡ some fl) e h) in
            let out : has k cur ≡ false = cc (name, u.0) in
            let before : shown (last_state k f more) ≡ flag_of (get l prev) f =
              ap shown (transition_none prev cur t out)
              ∙ m
              ∙ ap (λ (x : String). flag_of (get x prev) f) (sym name) in
            elim (Bool-cases (same_bool (w f) (flag_of (get l prev) f))) [
              | inl s ↦
                  ap shown (changed_same l (get l prev) w all_flags more s)
                  ∙ ground (arith, s, before, here)
              | inr s ↦
                  ap shown (changed_new l (get l prev) w all_flags more e s all_flags_has) ∙ here
            ]
        | inr e ↦
            let later : get k cur ≡ some fl =
              subst (λ (b : Bool). (if b then some w else get k cur) ≡ some fl) e h in
            ap shown (changed_other l (get l prev) w all_flags more e)
            ∙ transition-shown prev cur t fl u.1 later m
      ])
