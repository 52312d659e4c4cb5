-- ===== src/Sdk/Records.antt =====
-- RecordsService of the SDK (client/src/services/records.service.ts).
use nocodb_middleware.Prelude.{ℕ, Option, none, some, [], ◌∷◌, Text, codes}
use nocodb_middleware.Js.{Num}
use nocodb_middleware.Outside.{get, post, patch, delete}
use nocodb_middleware.Sanitize
use nocodb_middleware.Sanitize.{Json, undefined, null, array, object, nil, cons, Members, end}
use nocodb_middleware.Sdk.{
  SdkRequest, Answer, Outcome, rejected, broken, resolved, own, field, optional, number, call,
}
use nocodb_middleware.Sdk.Encoding.{data_path}

pub record ListOptions : Type 0 where
  pub condition : Option Text
  pub sort : Option Text
  pub limit : Option ℕ
  pub offset : Option ℕ

abbrev no_list_options : ListOptions
no_list_options = record { condition = none; sort = none; limit = none; offset = none }

list_params : ListOptions → Members
unfolding optional
list_params o = optional (codes "where") Sanitize.text o.condition (
    optional (codes "sort") Sanitize.text o.sort
      (optional (codes "limit") number o.limit (optional (codes "offset") number o.offset end)))

-- `value ?? null`
or_null : Json → Json
or_null undefined = null
or_null v = v

-- `result.list[0] ?? null`, where an index into `undefined` or `null` throws a TypeError.
first_item : Json → Outcome Json
unfolding or_null
first_item undefined = broken
first_item null = broken
first_item (array nil) = resolved null
first_item (array (cons x xs)) = resolved (or_null x)
first_item (Sanitize.text (c ∷ t)) = resolved (Sanitize.text (c ∷ []))
first_item (object ms) = resolved (or_null (own (codes "0") ms))
first_item _ = resolved null

first_of_list : Outcome Json → Outcome Json
unfolding first_item
first_of_list (resolved j) = elim (field (codes "list") j) [
  | none ↦ broken
  | some items ↦ first_item items
]
first_of_list (rejected status) = rejected status
first_of_list broken = broken

module _ {W : Type 0} (http : SdkRequest → W → Answer × W) where
  -- RecordsService
  unfoldable pub list_records : Text → ListOptions → W → Outcome Json × W
  unfolding list_params
  list_records table options =
      call http get (data_path table none) (list_params options) undefined some

  unfoldable pub read_record : Text → Num → W → Outcome Json × W
  read_record table id = call http get (data_path table (some id)) end undefined some

  unfoldable pub create_record : Text → Json → W → Outcome Json × W
  create_record table fields = call http post (data_path table none) end fields some

  unfoldable pub update_record : Text → Num → Json → W → Outcome Json × W
  update_record table id fields = call http patch (data_path table (some id)) end fields some

  unfoldable pub delete_record : Text → Num → W → Outcome (Unit {0}) × W
  delete_record table id = call http delete (data_path table (some id)) end undefined (λ j. some tt)

  unfoldable pub find_one : Text → Text → W → Outcome Json × W
  unfolding first_of_list
  find_one table condition w =
      let (result, w') =
        list_records table (record no_list_options { condition = some condition; limit = some 1 })
          w in
      (first_of_list result, w')
