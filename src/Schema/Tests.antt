-- ===== src/Schema/Tests.antt =====
-- The self-test of scripts/ops/validate-topic-schemas.py, and the theorems at concrete inputs.
use crypto_cdc_pipeline.Base.{
  Bool, true, false, ◌≡◌, ◌↔◌, refl, String, none, some, List, [], ◌∷◌, All, not, ◌&&◌, is_empty,
}
use crypto_cdc_pipeline.Base.Int.{pos}
use crypto_cdc_pipeline.Schema.Values.{
  Json, null, int, float, str, arr, obj, nil, cons, end, field, py_eq,
}
use crypto_cdc_pipeline.Schema.{
  TypeName, object, array, string, integer, null_type, untyped, single, Schema, schema, without,
  one_of, no_schema, alternative, no_property, property, any_item, items, key, other_type, missing,
  not_allowed, null_for, check,
}
use crypto_cdc_pipeline.Schema.Conforms.{Conforms}
use crypto_cdc_pipeline.Schema.Decides.{check-Conforms}
use crypto_cdc_pipeline.Schema.Run.{Line, tombstone, message, Contract, records_of, exit_code}
use crypto_cdc_pipeline.Schema.Run.Exit.{Kept, exit_code-is_zero}

abbrev typed : TypeName → Schema
typed n = schema without (single n) none [] no_property any_item

-- A part of schemas/binance.trades.v1.json.
abbrev trades : Schema
trades =
    schema without (single object) none ("e" ∷ "t" ∷ "p" ∷ [])
      (property "e"
        (schema without (single string) (some (str "trade" ∷ [])) [] no_property any_item)
        (property "t" (typed integer) (property "p" (typed string) no_property)))
      any_item

abbrev trade : Json → Json → Json → Json
trade e t p = obj (field "e" e (field "t" t (field "p" p end)))

abbrev good : Json
good = trade (str "trade") (int (pos 1)) (str "1.0")

good_test : check trades good [] ≡ []
unfolding check py_eq
good_test = refl

missing_test :
    check trades (obj (field "e" (str "trade") (field "t" (int (pos 1)) end))) []
    ≡ (key "p" ∷ [], missing) ∷ []
unfolding check py_eq
missing_test = refl

type_test :
    check trades (trade (str "trade") (int (pos 1)) (float (pos 1) 0)) []
    ≡ (key "p" ∷ [], other_type) ∷ []
unfolding check py_eq
type_test = refl

enum_test :
    check trades (trade (str "aggTrade") (int (pos 1)) (str "1.0")) []
    ≡ (key "e" ∷ [], not_allowed) ∷ []
unfolding check py_eq
enum_test = refl

null_test : check trades (trade null (int (pos 1)) (str "1.0")) [] ≡ (key "e" ∷ [], null_for) ∷ []
unfolding check py_eq
null_test = refl

-- A null that an alternative allows is a violation all the same.
nullable_test :
    check
      (schema without
        (single object)
        none
        []
        (property "before"
          (schema
            (one_of (alternative (typed object) (alternative (typed null_type) no_schema)))
            untyped
            none
            []
            no_property
            any_item)
          no_property)
        any_item)
      (obj (field "before" null end))
      []
    ≡ (key "before" ∷ [], null_for) ∷ []
unfolding check py_eq
nullable_test = refl

-- Only the first item is looked at.
items_test :
    check
      (schema without (single array) none [] no_property (items (typed string)))
      (arr (cons (str "x") (cons null nil)))
      []
    ≡ []
unfolding check py_eq
items_test = refl

check-Conforms_example : (check trades good [] ≡ []) ↔ Conforms trades good
check-Conforms_example = check-Conforms trades good []

abbrev contracts : List Contract
contracts = ("binance.trades.v1", trades) ∷ ("upbit.orderbook.v1", typed object) ∷ []

abbrev consume : String → Bool → List Line
consume t true = []
consume t false = tombstone ∷ message good ∷ message (str "x") ∷ []

run_test : exit_code consume none false false contracts ≡ 1
unfolding exit_code check py_eq
run_test = refl

exit_code-is_zero_example :
    (exit_code consume (some "binance.trades.v1") true false contracts ≡ 0) ↔ (
      All (Kept consume (some "binance.trades.v1")) contracts
      × ((true
            && not (is_empty (records_of consume (some "binance.trades.v1") contracts))
            && not false)
          ≡ false))
exit_code-is_zero_example =
    exit_code-is_zero consume (some "binance.trades.v1") true false contracts
