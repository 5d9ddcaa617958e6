-- ===== src/Onboard/Backed.antt =====
-- A table that the connector captures has its topic and its tables, at every moment.
use crypto_cdc_pipeline.Base.{String, str_eq, Bool, true, false, not, ◌||◌, if◌then◌else◌}
use crypto_cdc_pipeline.Onboard.{bare}

-- No table of another database has the name of the one: the same table, or another bare name.
abbrev pub alone : String → String → Bool
alone t u = str_eq t u || not (str_eq (bare t) (bare u))

pub either_way :
    {A : Type 0} (P : A → Type 0) (b : Bool) {x y : A} → P x → P y → P (if b then x else y)
either_way P true p q = p
either_way P false p q = q
