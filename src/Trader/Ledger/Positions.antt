-- ===== src/Trader/Ledger/Positions.antt =====
-- virtual-trader/trader.py, `snapshot_positions`: the balances of the account, a row of
-- virtual_positions for each day and asset.
use crypto_cdc_pipeline.Base.{
  ℕ, ◌/◌, ◌≡◌, ◌∙◌, ◌&&◌, ◌==◌, refl, Bool, false, String, str_eq, Option, none, some, List, [],
  ◌∷◌, Bool-cases, inl, inr, arith, if◌then◌else◌,
}

-- A balance, in whole units.
pub record Balance : Type 0 where
  pub asset : String
  pub free : ℕ
  pub locked : ℕ

-- The columns of a row, with its primary key `as_of_day` and `asset`.
pub record Position : Type 0 where
  pub as_of_day : ℕ
  pub asset : String
  pub free : ℕ
  pub locked : ℕ
  pub snapshot_ms : ℕ
  pub reset_epoch : ℕ

abbrev has_key : ℕ → String → Position → Bool
has_key day asset p = p.as_of_day == day && str_eq p.asset asset

-- INSERT ... ON DUPLICATE KEY UPDATE
abbrev pub upsert_position : Position → List Position → List Position
upsert_position p [] = p ∷ []
upsert_position p (q ∷ qs) =
    let rest = upsert_position p qs in if has_key p.as_of_day p.asset q then p ∷ qs else q ∷ rest

abbrev pub snapshot_loop : ℕ → ℕ → List Balance → List Position → List Position
snapshot_loop ms epoch [] table = table
snapshot_loop ms epoch (b ∷ bs) table =
    let skipped = snapshot_loop ms epoch bs table in
    let stored = snapshot_loop ms epoch bs (
      upsert_position
        (record {
          as_of_day = ms / 86400000;
          asset = b.asset;
          free = b.free;
          locked = b.locked;
          snapshot_ms = ms;
          reset_epoch = epoch;
        })
        table) in
    if b.free == 0 && b.locked == 0 then skipped else stored

unfoldable pub snapshot_positions : ℕ → ℕ → List Balance → List Position → List Position
snapshot_positions ms epoch balances table = snapshot_loop ms epoch balances table

-- What the table has of an asset on a day.
abbrev pub position_of : ℕ → String → List Position → Option Position
position_of day asset [] = none
position_of day asset (q ∷ qs) = if has_key day asset q then some q else position_of day asset qs

upsert_other :
    (day : ℕ) (asset : String) (p : Position) (table : List Position)
    → (p.as_of_day == day) ≡ false
    → position_of day asset (upsert_position p table) ≡ position_of day asset table
upsert_other day asset p [] h = rw h refl
upsert_other day asset p (q ∷ qs) h =
    elim (Bool-cases (q.as_of_day == p.as_of_day && str_eq q.asset p.asset)) [
      | inl e ↦
          let days : (q.as_of_day == day) ≡ false = ground (arith, e, h) in rw (e, h, days) refl
      | inr e ↦ elim (Bool-cases (q.as_of_day == day && str_eq q.asset asset)) [
        | inl f ↦ rw (e, f) refl
        | inr f ↦ rw (e, f) (upsert_other day asset p qs h)
      ]
    ]

other_day_loop :
    (ms epoch : ℕ) (balances : List Balance) (table : List Position) (day : ℕ) (asset : String)
    → (ms / 86400000 == day) ≡ false
    → position_of day asset (snapshot_loop ms epoch balances table) ≡ position_of day asset table
other_day_loop ms epoch [] table day asset h = refl
other_day_loop ms epoch (b ∷ bs) table day asset h =
    let p : Position = record {
      as_of_day = ms / 86400000;
      asset = b.asset;
      free = b.free;
      locked = b.locked;
      snapshot_ms = ms;
      reset_epoch = epoch;
    } in
    let skipped = other_day_loop ms epoch bs table day asset h in
    let stored =
      other_day_loop ms epoch bs (upsert_position p table) day asset h
      ∙ upsert_other day asset p table h in
    elim (Bool-cases (b.free == 0 && b.locked == 0)) [ inl e ↦ rw e skipped | inr e ↦ rw e stored ]

-- The rows of the other days stay as they are.
snapshot_positions-other_day :
    (ms epoch : ℕ) (balances : List Balance) (table : List Position) (day : ℕ) (asset : String)
    → (ms / 86400000 == day) ≡ false
    → position_of day asset (snapshot_positions ms epoch balances table)
      ≡ position_of day asset table
unfolding snapshot_positions
snapshot_positions-other_day ms epoch balances table day asset h =
    other_day_loop ms epoch balances table day asset h
