-- ===== src/Permissions/Management/Ids.antt =====
-- The id of a record (`extractNumericId` of src/common/utils/nocodb-utils.ts).
use nocodb_middleware.Prelude.{[], ◌∷◌, Text, codes, arith}
use nocodb_middleware.Js.{
  Num, nan, infinite, int, large, frac, Value, undefined, null, bool, num, text, structured,
}
use nocodb_middleware.Result.{Result, ok, err, not_found}
use nocodb_middleware.Types.{NocoRecord, get}
use nocodb_middleware.Nocodb.Conflicts.{Clean}
use nocodb_middleware.Permissions.Management.{extract_numeric_id, parsed_id}

parsed_id-Clean : (n : Num) → Clean (parsed_id n)
unfolding parsed_id
parsed_id-Clean nan h = ground arith
parsed_id-Clean (infinite b) h = ground arith
parsed_id-Clean (int z) h = ground arith
parsed_id-Clean (large t) h = ground arith
parsed_id-Clean (frac t) h = ground arith

pub extract_numeric_id-Clean :
    (parse : Text → Num) (r : NocoRecord) → Clean (extract_numeric_id parse r)
unfolding extract_numeric_id
extract_numeric_id-Clean parse r = by_value (get (codes "id") r)
  where
    by_value :
        (v : Value)
        → Clean (elim v as (λ _. Result Num) [
          | num n ↦ ok n
          | text (c ∷ t) ↦ parsed_id (parse (c ∷ t))
          | _ ↦ err not_found
        ])
    by_value undefined h = ground arith
    by_value null h = ground arith
    by_value (bool b) h = ground arith
    by_value (num n) h = ground arith
    by_value (text []) h = ground arith
    by_value (text (c ∷ t)) h = parsed_id-Clean (parse (c ∷ t)) h
    by_value (structured t) h = ground arith
