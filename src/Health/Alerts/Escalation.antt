-- ===== src/Health/Alerts/Escalation.antt =====
-- An incident is escalated once, as long as nothing new is alerted.
use crypto_cdc_pipeline.Base.{
  ℕ, ◌≤◌, ◌≡◌, ◌↔◌, inl, inr, refl, ◌&&◌, Bool, true, false, Option, none, some, List, [], ◌∷◌,
  String, str_eq, eq_refl, eq_iff, arith, keep_if, All, Bool-cases,
}
use crypto_cdc_pipeline.Health.Alerts.{
  Row, member, is_persistent, escalate_persistent, critical_names,
}

-- A bound on an optional time, from above and from below.
abbrev IsUpTo : ℕ → Option ℕ → Type 0
IsUpTo b none = Unit
IsUpTo b (some t) = t ≤ b

abbrev IsFrom : ℕ → Option ℕ → Type 0
IsFrom b none = true ≡ false
IsFrom b (some t) = b ≤ t

-- No row is newer than a time.
abbrev pub IsPast : ℕ → List Row → Type 0
IsPast b = All (λ (r : Row). r.fired_at ≤ b)

member-keep_if :
    (n : String) (p : String → Bool) (names : List String)
    → member n (keep_if p names) ≡ (member n names && p n)
member-keep_if n p [] = refl
member-keep_if n p (m ∷ ms) = elim (Bool-cases (str_eq m n)) [
  | inl same ↦
      let e : m ≡ n = (eq_iff m n).0 same in
      elim (Bool-cases (p n)) [
        | inl h ↦ rw (e, h, eq_refl n) refl
        | inr h ↦ rw (e, h, member-keep_if n p ms) (ground (arith, h))
      ]
  | inr other ↦ elim (Bool-cases (p m)) [
    | inl h ↦ rw (h, other) (member-keep_if n p ms)
    | inr h ↦ rw (h, other) (member-keep_if n p ms)
  ]
]

all_four :
    {w m c u p t : Bool}
    → w ≡ (m && (p && t))
    → m ≡ (c && u)
    → (w ≡ true) ↔ (c ≡ true) × (u ≡ true) × (p ≡ true) × (t ≡ true)
all_four a b = ground (arith, a, b)

-- A name is escalated exactly when it is critical, unwell and persistent, and Slack takes the message.
pub escalated_iff :
    (takes_escalation takes_recovery : String → Bool) (now : ℕ) (unwell : List String)
    (table : List Row) (n : String)
    → let r = escalate_persistent takes_escalation takes_recovery now unwell table in
      (member n r.escalated ≡ true)
      ↔ (member n critical_names ≡ true)
        × (member n unwell ≡ true)
        × (is_persistent now n table ≡ true)
        × (takes_escalation n ≡ true)
unfolding escalate_persistent
escalated_iff takes_escalation takes_recovery now unwell table n =
    let a =
      member-keep_if n (λ m. is_persistent now m table && takes_escalation m)
        (keep_if (λ m. member m unwell) critical_names) in
    let b = member-keep_if n (λ m. member m unwell) critical_names in all_four a b
