-- ===== src/Onboard/Columns/Aligned.antt =====
-- The view of a table gives the columns of its target.
use crypto_cdc_pipeline.Base.{
  ◌≡◌, refl, subst, ap, sym, ◌∙◌, Bool, true, false, not, ◌&&◌, ◌||◌, String, some, some-eq, List,
  [], ◌∷◌, map, arith, ◌>>=◌, >>=-eq-some,
}
use crypto_cdc_pipeline.Onboard.Columns.{
  Column, Mapped, map_column, map_columns, Select, plain, version_of_op, selects_of, has_version,
  Ddl, generate_ddl,
}

abbrev pub names_of : {A : Type 0} → List (String × A) → List String
names_of xs = map (λ e. e.0) xs

abbrev pub is_version_of_op : Select → Bool
is_version_of_op version_of_op = true
is_version_of_op (plain m) = false

abbrev pub uses_version : List (String × Select) → Bool
uses_version [] = false
uses_version (e ∷ es) = is_version_of_op e.1 || uses_version es

map_columns_names :
    (cols : List Column) (ms : List (String × Mapped))
    → map_columns cols ≡ some ms
    → names_of ms ≡ map (λ (c : Column). c.name) cols
map_columns_names [] ms e = ap names_of (sym (some-eq e))
map_columns_names (c ∷ cs) ms e =
    let (m, first, more) =
      >>=-eq-some (map_column c) (λ m. map_columns cs >>= (λ rest. some ((c.name, m) ∷ rest))) e in
    let (rest, later, last) =
      >>=-eq-some (map_columns cs) (λ rest. some ((c.name, m) ∷ rest)) more in
    ap names_of (sym (some-eq last)) ∙ ap (λ ns. c.name ∷ ns) (map_columns_names cs rest later)

selects_of_names :
    (v : Bool) (ms : List (String × Mapped)) → names_of (selects_of v ms) ≡ names_of ms
selects_of_names v [] = refl
selects_of_names v (e ∷ ms) = ap (λ ns. e.0 ∷ ns) (selects_of_names v ms)

selects_of_plain : (ms : List (String × Mapped)) → uses_version (selects_of false ms) ≡ false
selects_of_plain [] = refl
selects_of_plain (e ∷ ms) = ground (arith, selects_of_plain ms)

version_only :
    (v : Bool) (ms : List (String × Mapped)) → (not v && uses_version (selects_of v ms)) ≡ false
version_only true ms = refl
version_only false ms = selects_of_plain ms

-- The target table and the view have the columns of the source, in its order, and the view takes
-- the version from the operation only where the engine compares the version.
generate_ddl_columns :
    (cols : List Column) (d : Ddl)
    → generate_ddl cols ≡ some d
    → (names_of d.columns ≡ map (λ (c : Column). c.name) cols)
      × (names_of d.selects ≡ names_of d.columns)
      × ((not d.by_version && uses_version d.selects) ≡ false)
unfolding generate_ddl
generate_ddl_columns cols d e =
    let (ms, first, made) = >>=-eq-some (map_columns cols) _ e in
    subst
      (λ (d : Ddl).
        (names_of d.columns ≡ map (λ (c : Column). c.name) cols)
        × (names_of d.selects ≡ names_of d.columns)
        × ((not d.by_version && uses_version d.selects) ≡ false))
      (some-eq made)
      (
        map_columns_names cols ms first,
        selects_of_names (has_version cols) ms,
        version_only (has_version cols) ms,
      )
