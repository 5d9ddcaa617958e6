-- ===== src/Trader/Api/Stuck.antt =====
-- Connections that are not made again.
use crypto_cdc_pipeline.Base.{
  ℕ, suc, ◌≡◌, refl, ◌∙◌, inl, inr, Bool, true, false, List, [], ◌∷◌, Option-cases, if◌then◌else◌,
}
use crypto_cdc_pipeline.Trader.Api.{
  Reply, result, Api, Event, call, reply, pushed, timeout, closed_cleanly, broken, run_pass,
  give_up, make_call, connect_pass, step, run,
}

abbrev pub is_result : Reply → Bool
is_result result = true
is_result r = false

-- The calls that got a reply of the exchange.
abbrev pub count_results : List (ℕ × Reply) → ℕ
count_results [] = 0
count_results (r ∷ rs) = if is_result r.1 then suc (count_results rs) else count_results rs

-- The state of a connection that was closed cleanly: `ws` is set, and nothing reads from it.
abbrev pub IsDead : Api → Type 0
IsDead w = (w.connected ≡ true) × (w.reading ≡ false)

abbrev SameAs : Api → Api → Type 0
SameAs w v =
    IsDead v × (v.reconnects ≡ w.reconnects) × (count_results v.replies ≡ count_results w.replies)

step_dead : (e : Event) (w : Api) → IsDead w → SameAs w (step e w)
unfolding step make_call connect_pass
step_dead (call n) w (c, r) = rw (c, r) ((refl, refl), refl, refl)
step_dead (reply n) w (c, r) = rw r ((c, refl), refl, refl)
step_dead (pushed handled) w (c, r) = rw r ((c, refl), refl, refl)
step_dead (timeout n) w (c, r) = elim (Option-cases (give_up n w.pending)) [
  | inl e ↦ rw (e, step) ((c, r), refl, refl)
  | inr (fs, e) ↦ rw (e, step) ((c, r), refl, refl)
]
step_dead closed_cleanly w (c, r) = ((c, refl), refl, refl)
step_dead broken w (c, r) = rw r ((c, refl), refl, refl)
step_dead (run_pass opens logs_on) w (c, r) = rw c ((refl, r), refl, refl)

run_dead : (es : List Event) (w : Api) → IsDead w → SameAs w (run es w)
run_dead [] w dead = (dead, refl, refl)
run_dead (e ∷ es) w dead =
    let (d1, n1, c1) = step_dead e w dead in
    let (d2, n2, c2) = run_dead es (step e w) d1 in (d2, n2 ∙ n1, c2 ∙ c1)

-- After the exchange closed the connection of a trader cleanly, whatever happens next: `ws`
-- stays set, the loop never connects again, and no call gets a reply of the exchange.
pub closed_cleanly-stuck :
    (w : Api) (es : List Event)
    → w.connected ≡ true
    → IsDead (run es (step closed_cleanly w))
      × ((run es (step closed_cleanly w)).reconnects ≡ w.reconnects)
      × (count_results (run es (step closed_cleanly w)).replies ≡ count_results w.replies)
unfolding step
closed_cleanly-stuck w es c = run_dead es (step closed_cleanly w) (c, refl)
