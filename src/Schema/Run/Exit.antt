-- ===== src/Schema/Run/Exit.antt =====
-- What the exit code of the run says.
use crypto_cdc_pipeline.Base.{
  ℕ, suc, Bool, false, not, ◌&&◌, ◌≡◌, ◌↔◌, ◌⊎◌, String, Option, List, [], ◌∷◌, ◌++◌, map, refl,
  inl, inr, Bool-cases, All, arith, is_empty,
}
use crypto_cdc_pipeline.Schema.Values.{Json}
use crypto_cdc_pipeline.Schema.{Schema, Violation, check}
use crypto_cdc_pipeline.Schema.Conforms.{Conforms}
use crypto_cdc_pipeline.Schema.Decides.{check-Conforms}
use crypto_cdc_pipeline.Schema.Run.{
  Line, Contract, Entry, check_all, wanted, messages_of, entry_from, records_of, failed_of,
  exit_code,
}

check_all_iff :
    (s : Schema) (i : ℕ) (ms : List Json) → (check_all s i ms ≡ []) ↔ All (Conforms s) ms
check_all_iff s i [] = (λ h. tt, λ h. refl)
check_all_iff s i (m ∷ ms) =
    pick (check s m []) (check-Conforms s m []) (check_all_iff s (suc i) ms)
  where
    pick :
        (es : List Violation)
        → (es ≡ []) ↔ Conforms s m
        → (check_all s (suc i) ms ≡ []) ↔ All (Conforms s) ms
        → (map (λ (e : Violation). (i, e)) es ++ check_all s (suc i) ms ≡ [])
          ↔ All (Conforms s) (m ∷ ms)
    pick [] f g = (λ h. (f.0 refl, g.0 h), λ h. g.1 h.1)
    pick (e ∷ es) f g = (λ h. cc, λ h. cc (f.1 h.0))

entry_iff :
    (P : Json → Type 0) (t : String) (ms : List Json) (errs : List (ℕ × Violation))
    (es : List Entry)
    → (errs ≡ []) ↔ All P ms
    → (failed_of (entry_from t ms errs ∷ es) ≡ 0) ↔ (All P ms × (failed_of es ≡ 0))
entry_iff P t [] errs es f = (λ h. (tt, h), λ h. h.1)
entry_iff P t (m ∷ ms) [] es f = (λ h. (f.0 refl, h), λ h. h.1)
entry_iff P t (m ∷ ms) (e ∷ errs) es f = (λ h. cc, λ h. cc (f.1 h.0))

module _ (consume : String → Bool → List Line) where
  -- A contract that `--topic` leaves out, or whose messages conform.
  abbrev pub Kept : Option String → Contract → Type 0
  Kept only c = (wanted only c.0 ≡ false) ⊎ All (Conforms c.1) (messages_of consume c.0)

  failed_iff :
      (only : Option String) (cs : List Contract)
      → (failed_of (records_of consume only cs) ≡ 0) ↔ All (Kept only) cs
  failed_iff only [] = (λ h. tt, λ h. refl)
  failed_iff only (c ∷ cs) = elim (Bool-cases (wanted only c.0)) [
    | inl e ↦
        let ms = messages_of consume c.0 in
        let errs = check_all c.1 0 ms in
        let this =
          entry_iff (Conforms c.1) c.0 ms errs (records_of consume only cs)
            (check_all_iff c.1 0 ms) in
        let rest = failed_iff only cs in
        rw e (
          λ h. (inr (this.0 h).0, rest.0 (this.0 h).1),
          λ h. this.1 (elim h.0 [ inl n ↦ cc | inr a ↦ a ], rest.1 h.1),
        )
    | inr e ↦ rw e (λ h. (inl refl, (failed_iff only cs).0 h), λ h. (failed_iff only cs).1 h.1)
  ]

  -- The run exits with 0 exactly where all that it looked at conforms - the messages that the
  -- consumer gave of each contract, which may be none - and its record was not lost.
  pub exit_code-is_zero :
      (only : Option String) (recording stores : Bool) (cs : List Contract)
      → (exit_code consume only recording stores cs ≡ 0) ↔ (
          All (Kept only) cs
          × ((recording && not (is_empty (records_of consume only cs)) && not stores) ≡ false))
  unfolding exit_code
  exit_code-is_zero only recording stores cs =
      let f = failed_iff only cs in
      (λ h. (f.0 (ground (arith, h)), ground (arith, h)), λ h. ground (arith, h.1, f.1 h.0))
