-- ===== src/Backup/Parquet.antt =====
-- The export of a day of the order book: _export_parquet of airflow/dags/backup_daily.py. The
-- answers of ClickHouse are arguments.
use crypto_cdc_pipeline.Base.{
  ℕ, ◌≡◌, refl, inl, inr, Bool, false, not, ◌&&◌, ◌==◌, Option, none, some, List, [], ◌∷◌, ltb, All,
  Bool-cases, if◌then◌else◌,
}

-- A file: its bytes, and whether it starts and ends with PAR1.
pub record File : Type 0 where
  pub bytes : ℕ
  pub head : Bool
  pub tail : Bool

-- What ClickHouse answers to one attempt: the rows of the day and the body of the export,
-- where the transfer does not break off.
pub record Answer : Type 0 where
  pub src_rows : ℕ
  pub body : Option File

pub data Outcome : Type 0 where
  raised : Outcome
  exported : ℕ → ℕ → Outcome

-- The test at the end; `1 << 20` is 1048576.
abbrev pub is_sane : File → Bool
is_sane f = f.head && f.tail && not (ltb f.bytes 1048576)

abbrev check_file : ℕ → File → Outcome
check_file rows f = if is_sane f then exported f.bytes rows else raised

-- `_export_parquet`: a file that is there is not made again.
unfoldable pub export_parquet : Answer → Option File → Outcome × Option File
export_parquet a file = if a.src_rows == 0 then (raised, file) else elim file [
  | some f ↦ (check_file a.src_rows f, some f)
  | none ↦ elim a.body [ none ↦ (raised, none) | some f ↦ (check_file a.src_rows f, some f) ]
]

-- The attempts of a day's task, the first one first: Airflow's retries and later clears.
abbrev pub attempts : List Answer → Option File → List Outcome × Option File
attempts [] file = ([], file)
attempts (a ∷ as_left) file =
    let (o, next) = export_parquet a file in
    let (os, last) = attempts as_left next in (o ∷ os, last)

export_parquet-insane :
    (f : File) (a : Answer) → is_sane f ≡ false → export_parquet a (some f) ≡ (raised, some f)
unfolding export_parquet
export_parquet-insane f a bad = elim (Bool-cases (a.src_rows == 0)) [
  | inl z ↦ rw z refl
  | inr z ↦ rw (z, bad) refl
]

-- An export whose file fails the test leaves the file in place: the attempt that wrote it and
-- every attempt after it raise, whatever ClickHouse answers, and the file stays.
pub attempts-insane :
    (a : Answer) (f : File) (later : List Answer)
    → (a.src_rows == 0) ≡ false
    → a.body ≡ some f
    → is_sane f ≡ false
    → All (λ o. o ≡ raised) (attempts (a ∷ later) none).0 × ((attempts (a ∷ later) none).1 ≡ some f)
unfolding export_parquet
attempts-insane a f later rows body bad = rw (first, rest later) ((refl, every later), refl)
  where
    first : export_parquet a none ≡ (raised, some f)
    first = rw (export_parquet, rows, body, bad) refl

    every : (xs : List Answer) → All (λ o. o ≡ raised) (attempts xs (some f)).0
    every [] = tt
    every (x ∷ xs) = rw (export_parquet-insane f x bad) (refl, every xs)

    rest : (xs : List Answer) → (attempts xs (some f)).1 ≡ some f
    rest [] = refl
    rest (x ∷ xs) = rw (export_parquet-insane f x bad) (rest xs)
