-- ===== src/Slack/Callbacks/Forms.antt =====
-- The two forms of the late tasks.
use crypto_cdc_pipeline.Base.{
  ℕ, ◌≡◌, refl, ap, sym, ◌∙◌, ◌&&◌, &&_split, Bool, true, false, not, Option, List, [], ◌∷◌, ◌++◌,
  append_assoc, append-nil, is_empty, All, arith,
}
use crypto_cdc_pipeline.Slack.{Text, Posted, send_slack_message, join}
use crypto_cdc_pipeline.Slack.Callbacks.{
  is_line_end, is_space, lines_from, strip_left, strip_right, strip, text, objects, stripped_lines,
  join_names, sla_miss, late_tasks, sla_miss_callback,
}

abbrev pub no_space : Text → Bool
no_space [] = true
no_space (c ∷ cs) = not (is_space c) && no_space cs

-- A name of a task: not empty, and without blanks.
abbrev pub is_name : Text → Bool
is_name t = not (is_empty t) && no_space t

line_end_space : (c : ℕ) → is_space c ≡ false → is_line_end c ≡ false
line_end_space c h = ground (arith, h)

lines_from_name :
    (line t rest : Text)
    → no_space t ≡ true
    → lines_from line (t ++ rest) ≡ lines_from (line ++ t) rest
lines_from_name line [] rest h = rw (append-nil line) refl
lines_from_name line (c ∷ cs) rest h =
    let sides = &&_split (not (is_space c)) (no_space cs) h in
    let inside = line_end_space c (ground (arith, sides.0)) in
    rw inside (
      lines_from_name (line ++ (c ∷ [])) cs rest sides.1
      ∙ ap (λ l. lines_from l rest) (append_assoc line (c ∷ []) cs))

lines_of_names :
    (names : List Text)
    → All (λ (t : Text). is_name t ≡ true) names
    → lines_from [] (join names) ≡ names
lines_of_names [] h = refl
lines_of_names (n ∷ []) h =
    let sides = &&_split (not (is_empty n)) (no_space n) h.0 in
    let filled : is_empty n ≡ false = ground (arith, sides.0) in
    ap (lines_from []) (sym (append-nil n)) ∙ lines_from_name [] n [] sides.1 ∙ rw filled refl
lines_of_names (n ∷ m ∷ ns) h =
    let sides = &&_split (not (is_empty n)) (no_space n) h.0 in
    lines_from_name [] n (10 ∷ join (m ∷ ns)) sides.1
    ∙ ap (λ ls. n ∷ ls) (lines_of_names (m ∷ ns) h.1)

strip_left_name : (t : Text) → no_space t ≡ true → strip_left t ≡ t
strip_left_name [] h = refl
strip_left_name (c ∷ cs) h = ground (arith, h)

strip_right_name : (t : Text) → no_space t ≡ true → strip_right t ≡ t
strip_right_name [] h = refl
strip_right_name (c ∷ cs) h =
    let sides = &&_split (not (is_space c)) (no_space cs) h in
    let solid : is_space c ≡ false = ground (arith, sides.0) in
    rw (strip_right_name cs sides.1, solid) (ground arith)

stripped_names :
    (names : List Text) → All (λ (t : Text). is_name t ≡ true) names → stripped_lines names ≡ names
stripped_names [] h = refl
stripped_names (n ∷ ns) h =
    let sides = &&_split (not (is_empty n)) (no_space n) h.0 in
    let same : strip n ≡ n =
      ap strip_right (strip_left_name n sides.1) ∙ strip_right_name n sides.1 in
    rw (same, sides.0) (ap (λ ls. n ∷ ls) (stripped_names ns h.1))

-- The names of late tasks, which are not empty and have no blanks, give the same message whether
-- Airflow hands them over as one text, a name in a line, or as objects.
pub sla_miss_callback-forms :
    (url : Option Text) (answer : Posted) (dag : Text) (names : List Text)
    → All (λ (t : Text). is_name t ≡ true) names
    → sla_miss_callback url answer dag (text (join names))
      ≡ sla_miss_callback url answer dag (objects names)
unfolding sla_miss_callback
sla_miss_callback-forms url answer dag names h =
    ap (λ ns. send_slack_message url answer (sla_miss ∷ late_tasks dag (join_names ns) ∷ []))
      (ap stripped_lines (lines_of_names names h) ∙ stripped_names names h)
