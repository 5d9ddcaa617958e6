-- ===== src/Onboard/Undo.antt =====
-- A table that was taken in and is taken out again, and a run that cannot be repeated.
use crypto_cdc_pipeline.Base.{
  String, eq_refl, ◌≡◌, inl, inr, refl, sym, ap, subst, ◌∙◌, Bool, true, false, not, ◌&&◌, List, [],
  ◌∷◌, ◌++◌, Bool-cases, arith, if◌then◌else◌,
}
use crypto_cdc_pipeline.Onboard.{
  Args, Source, World, Effect, bare, apply, perform, has, add_once, has_topic_line, has_anchor,
  insert_topic_line, has_section, insert_section, has_key, is_empty, Exit, no_table, no_key,
  not_row, no_signal, dry, finished, not_running, already_included, removal, installation, onboard,
}
use crypto_cdc_pipeline.Onboard.Backed.{either_way}
use crypto_cdc_pipeline.Onboard.Names.{has-append}

-- Nothing anywhere has the name of the table, the full one or the one without the database.
abbrev pub Fresh : String → World → Type 0
Fresh t w =
    (has t w.include ≡ false)
    × (has t w.topics ≡ false)
    × (has (bare t) w.targets ≡ false)
    × (has (bare t) w.queues ≡ false)
    × (has (bare t) w.views ≡ false)
    × (has_topic_line t w.topics_sh ≡ false)
    × (has_section (bare t) w.sources_yml ≡ false)

-- The script is run for the table, then with --remove.
abbrev pub in_and_out : Args → Source → World → World
in_and_out a s w =
    let v = perform (onboard (record a { remove = false }) s w).0 w in
    perform (onboard (record a { remove = true }) s v).0 v

-- The exits that come after the connector was told of the table.
abbrev pub is_told : Exit → Bool
is_told finished = true
is_told not_running = true
is_told e = false

otherwise :
    (b : Bool) (x y : List Effect × Exit)
    → is_told x.1 ≡ false
    → is_told (if b then x else y).1 ≡ true
    → (if b then x else y) ≡ y
otherwise true x y out h = cc
otherwise false x y out h = refl

onboard-installation :
    (a : Args) (s : Source) (w : World)
    → a.remove ≡ false
    → is_told (onboard a s w).1 ≡ true
    → onboard a s w ≡ installation a s w
unfolding onboard
onboard-installation a s w r h =
    let a1 = if a.dry_run then ([], dry) else installation a s w in
    let a2 = if not s.signal && not a.no_snapshot then ([], no_signal) else a1 in
    let a3 = if has a.table w.include then ([], already_included) else a2 in
    let a4 = if not s.binlog_row then ([], not_row) else a3 in
    let a5 = if not (has_key s.cols) then ([], no_key) else a4 in
    let a6 = if is_empty s.cols then ([], no_table) else a5 in
    let first : (if a.remove then removal a w else a6) ≡ a6 =
      ap (λ b. if b then removal a w else a6) r in
    let e6 = first in
    let e5 =
      e6
      ∙ otherwise (is_empty s.cols) ([], no_table) a5 refl (subst (λ x. is_told x.1 ≡ true) e6 h) in
    let e4 =
      e5
      ∙ otherwise (not (has_key s.cols)) ([], no_key) a4 refl
          (subst (λ x. is_told x.1 ≡ true) e5 h) in
    let e3 =
      e4
      ∙ otherwise (not s.binlog_row) ([], not_row) a3 refl (subst (λ x. is_told x.1 ≡ true) e4 h) in
    let e2 =
      e3
      ∙ otherwise (has a.table w.include) ([], already_included) a2 refl
          (subst (λ x. is_told x.1 ≡ true) e3 h) in
    let e1 =
      e2
      ∙ otherwise (not s.signal && not a.no_snapshot) ([], no_signal) a1 refl
          (subst (λ x. is_told x.1 ≡ true) e2 h) in
    e1
    ∙ otherwise a.dry_run ([], dry) (installation a s w) refl (subst (λ x. is_told x.1 ≡ true) e1 h)

-- The state after a run that told the connector.
abbrev after : Args → Source → World → World
after a s w =
    let t = a.table in
    let lines =
      if has_topic_line t w.topics_sh then w.topics_sh else insert_topic_line t w.topics_sh in
    let secs =
      if s.running
      then (if has_section (bare t) w.sources_yml
          then w.sources_yml
          else insert_section (bare t) w.sources_yml)
      else w.sources_yml in
    let sent =
      if s.running then (if a.no_snapshot then w.signals else t ∷ w.signals) else w.signals in
    record {
      include = w.include ++ (t ∷ []);
      topics = add_once t w.topics;
      targets = add_once (bare t) w.targets;
      queues = add_once (bare t) w.queues;
      views = add_once (bare t) w.views;
      topics_sh = lines;
      sources_yml = secs;
      signals = sent;
    }

installation-after :
    (a : Args) (s : Source) (w : World)
    → is_told (installation a s w).1 ≡ true
    → perform (installation a s w).0 w ≡ after a s w
unfolding installation apply
installation-after a s w = elim (Bool-cases (has_topic_line a.table w.topics_sh)) [
  | inl k ↦ elim (Bool-cases s.running) [
    | inl r ↦ elim (Bool-cases a.no_snapshot) [
      | inl q ↦ elim (Bool-cases (has_section (bare a.table) w.sources_yml)) [
        | inl x ↦ rw (k, r, q, x) (λ h. refl)
        | inr x ↦ rw (k, r, q, x) (λ h. refl)
      ]
      | inr q ↦ elim (Bool-cases (has_section (bare a.table) w.sources_yml)) [
        | inl x ↦ rw (k, r, q, x) (λ h. refl)
        | inr x ↦ rw (k, r, q, x) (λ h. refl)
      ]
    ]
    | inr r ↦ rw (k, r) (λ h. refl)
  ]
  | inr k ↦ elim (Bool-cases (has_anchor w.topics_sh)) [
    | inl f ↦ elim (Bool-cases s.running) [
      | inl r ↦ elim (Bool-cases a.no_snapshot) [
        | inl q ↦ elim (Bool-cases (has_section (bare a.table) w.sources_yml)) [
          | inl x ↦ rw (k, f, r, q, x) (λ h. refl)
          | inr x ↦ rw (k, f, r, q, x) (λ h. refl)
        ]
        | inr q ↦ elim (Bool-cases (has_section (bare a.table) w.sources_yml)) [
          | inl x ↦ rw (k, f, r, q, x) (λ h. refl)
          | inr x ↦ rw (k, f, r, q, x) (λ h. refl)
        ]
      ]
      | inr r ↦ rw (k, f, r) (λ h. refl)
    ]
    | inr f ↦ rw (k, f) (λ h. cc)
  ]
]

onboard-captured :
    (b : Args) (r : Source) (v : World)
    → b.remove ≡ false
    → has b.table v.include ≡ true
    → (onboard b r v).0 ≡ []
unfolding onboard
onboard-captured b r v no_b there =
    let P : List Effect × Exit → Type 0 = λ x. x.0 ≡ [] in
    let a2 =
      if not r.signal && not b.no_snapshot
      then ([], no_signal)
      else if b.dry_run
      then ([], dry)
      else installation b r v in
    let held : P (if has b.table v.include then ([], already_included) else a2) =
      ap (λ (c : Bool). (if c then ([], already_included) else a2).0) there in
    let rest =
      either_way P (is_empty r.cols) refl
        (either_way P (not (has_key r.cols)) refl (either_way P (not r.binlog_row) refl held)) in
    subst
      (λ (c : Bool). P (
        if c
        then removal b v
        else if is_empty r.cols
        then ([], no_table)
        else if not (has_key r.cols)
        then ([], no_key)
        else if not r.binlog_row
        then ([], not_row)
        else if has b.table v.include
        then ([], already_included)
        else a2))
      (sym no_b) rest

-- Once a run has told the connector of a table, every later run for it that is not a removal
-- does nothing, whatever MySQL and the connector answer: also where the connector did not come
-- back in time, and the snapshot and the dbt source are still to do.
pub onboard-again :
    (a : Args) (s : Source) (w : World) (b : Args) (r : Source)
    → a.remove ≡ false
    → b.remove ≡ false
    → b.table ≡ a.table
    → is_told (onboard a s w).1 ≡ true
    → (onboard b r (perform (onboard a s w).0 w)).0 ≡ []
onboard-again a s w b r no_a no_b same told =
    let e = onboard-installation a s w no_a told in
    let e2 = installation-after a s w (subst (λ x. is_told x.1 ≡ true) e told) in
    let state : perform (onboard a s w).0 w ≡ after a s w = ap (λ x. perform x.0 w) e ∙ e2 in
    let there : has b.table (w.include ++ (a.table ∷ [])) ≡ true =
      subst (λ x. has x (w.include ++ (a.table ∷ [])) ≡ true) (sym same)
        (has-append a.table w.include (a.table ∷ []) ∙ rw (eq_refl a.table) (ground arith)) in
    onboard-captured b r (perform (onboard a s w).0 w) no_b
      (ap (λ (v : World). has b.table v.include) state ∙ there)
