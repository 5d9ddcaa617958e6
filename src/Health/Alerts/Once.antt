-- ===== src/Health/Alerts/Once.antt =====
-- Nothing is sent twice too soon.
use crypto_cdc_pipeline.Base.{
  ℕ, ◌+◌, ◌≤◌, ◌≡◌, refl, ◌&&◌, Bool, true, false, not, List, [], ◌∷◌, ◌++◌, String, eq_refl, arith,
  keep_if,
}
use crypto_cdc_pipeline.Health.Alerts.{health_check, Row, member, rows_of, recent, to_send, notify}

recent_append-left :
    (now : ℕ) (xs ys : List Row) (n : String)
    → recent now xs n ≡ true
    → recent now (xs ++ ys) n ≡ true
recent_append-left now [] ys n h = cc
recent_append-left now (r ∷ rs) ys n h = ground (arith, h, recent_append-left now rs ys n)

recent_append-right :
    (now : ℕ) (xs ys : List Row) (n : String)
    → recent now ys n ≡ true
    → recent now (xs ++ ys) n ≡ true
recent_append-right now [] ys n h = h
recent_append-right now (r ∷ rs) ys n h = ground (arith, recent_append-right now rs ys n h)

-- The rows of a run are recent for an hour.
recent-rows_of :
    (now t : ℕ) (names : List String) (n : String)
    → t ≤ now + 3600
    → member n names ≡ true
    → recent t (rows_of health_check now names) n ≡ true
recent-rows_of now t [] n fits h = cc
recent-rows_of now t (m ∷ ms) n fits h = ground (arith, fits, h, recent-rows_of now t ms n fits)

keep_if-none :
    (p : String → Bool) (names : List String)
    → ((n : String) → member n names ≡ true → p n ≡ false)
    → keep_if p names ≡ []
keep_if-none p [] h = refl
keep_if-none p (m ∷ ms) h =
    rw (h m (ground (arith, eq_refl m))) (keep_if-none p ms (λ n e. h n (ground (arith, e))))

-- A name that an evaluation sends is not sent again by one at most an hour later, whatever rows are
-- added to the table meanwhile, if the insert of the first and the query of the second succeed. What
-- Slack answered does not count.
pub notify-once :
    (lookup : Bool) (now t : ℕ) (names : List String) (table extra : List Row)
    → t ≤ now + 3600
    → let (sent, table') = notify lookup true now names table in
      to_send true t (table' ++ extra) sent ≡ []
unfolding notify to_send
notify-once lookup now t names table extra fits =
    let sent = to_send lookup now table names in
    keep_if-none (λ n. not (true && recent t ((table ++ rows_of health_check now sent) ++ extra) n))
      sent
      (λ n h.
        let r = recent_append-left t (table ++ rows_of health_check now sent) extra n (
          recent_append-right t table (rows_of health_check now sent) n
            (recent-rows_of now t sent n fits h)) in
        rw r refl)
