-- ===== src/Onboard/Columns/Ranges.antt =====
-- The integers of MySQL in the types of ClickHouse.
use crypto_cdc_pipeline.Base.{
  ℕ, ◌-◌, ◌*◌, ◌≤◌, ◌≡◌, Bool, true, false, Option, none, some, if◌then◌else◌,
}
use crypto_cdc_pipeline.Onboard.Columns.{
  DataType, tinyint, smallint, mediumint, int, integer, bigint, ChType, uint8, uint32, int32,
  uint64, int64, Mapped,
}

-- A range from -below to above.
pub record Range : Type 0 where
  pub below : ℕ
  pub above : ℕ

abbrev signed : ℕ → Range
signed half = record { below = half; above = half - 1 }

abbrev sign : Bool → ℕ → Range
sign unsigned half = if unsigned then record { below = 0; above = 2 * half - 1 } else signed half

-- The integer types of MySQL.
abbrev pub mysql_range : DataType → Bool → Option Range
mysql_range tinyint u = some (sign u 128)
mysql_range smallint u = some (sign u 32768)
mysql_range mediumint u = some (sign u 8388608)
mysql_range int u = some (sign u 2147483648)
mysql_range integer u = some (sign u 2147483648)
mysql_range bigint u = some (sign u 9223372036854775808)
mysql_range _ u = none

-- The integer types of ClickHouse.
abbrev pub ch_range : ChType → Option Range
ch_range uint8 = some (sign true 128)
ch_range uint32 = some (sign true 2147483648)
ch_range int32 = some (sign false 2147483648)
ch_range uint64 = some (sign true 9223372036854775808)
ch_range int64 = some (sign false 9223372036854775808)
ch_range _ = none

abbrev pub Within : Option Range → Option Range → Type 0
Within none r = Unit
Within (some a) none = ⊥
Within (some a) (some b) = (a.below ≤ b.below) × (a.above ≤ b.above)

-- What the type of an integer column holds of it.
abbrev Holds : Option Range → Bool → Mapped → Type 0
Holds r nullable m = Within r (ch_range m.ch_type) × (m.is_nullable ≡ nullable)
