-- ===== src/Auth/Users.antt =====
-- Shapes of records and tables (src/common/utils/nocodb-utils.ts), passwords
-- (src/auth/password-hasher.util.ts) and what the account services share.
pub mod Lookups
use nocodb_middleware.Prelude.{
  Bool, true, false, not, Option, none, some, [], ◌∷◌, ◌++◌, Text, codes,
}
use nocodb_middleware.Js.{Num, Value, undefined, bool, num, text, or_default}
use nocodb_middleware.Result.{ok, not_found}
use nocodb_middleware.Effects.{Exec, pure, raise, lift, ◌>>=◌}
use nocodb_middleware.Filter
use nocodb_middleware.Filter.{FilterValue, filter_eq, and_filters}
use nocodb_middleware.Types.{NocoRecord, NocoTableMeta, get}
use nocodb_middleware.Outside.{Outside, App}
use nocodb_middleware.Nocodb.Meta.{get_table_by_name}
use nocodb_middleware.Nocodb.Records.{find_one}
use nocodb_middleware.Permissions.Management.{extract_numeric_id}

-- Node's crypto: 16 random bytes, and a digest of a password and a salt, both as hexadecimal text.
pub record Crypto (World : Type 0) : Type 0 where
  pub random_salt : World → Text × World
  pub scrypt : Text → Text → Text

-- An absent text is `undefined`.
unfoldable pub text_or_undefined : Option Text → Value
text_or_undefined none = undefined
text_or_undefined (some t) = text t

-- `value !== false`
unfoldable pub is_not_false : Value → Bool
is_not_false (bool b) = b
is_not_false _ = true

module _ (out : Outside) where
  open out use {World, parse_number}

  -- `assertTableRef(table)`, of which the id is kept.
  unfoldable pub assert_table_ref : Option NocoTableMeta → Exec (App World) Text
  assert_table_ref none = raise not_found
  assert_table_ref (some t) = pure t.id

  unfoldable pub required_table : Text → Exec (App World) Text
  unfolding assert_table_ref
  required_table name = do found ← get_table_by_name out name; assert_table_ref found

  unfoldable pub id_of : NocoRecord → Exec (App World) Num
  id_of r = lift (extract_numeric_id parse_number r)

  -- `findOne(table, filterEq(field, value))`
  unfoldable pub find_by : Text → Text → FilterValue → Exec (App World) (Option NocoRecord)
  find_by table_id field value = do
    filter ← lift (filter_eq field value)
    find_one out table_id filter

  -- `findOne(table, andFilters(filterEq(…), filterEq(…)))`
  unfoldable pub find_by_both :
      Text → Text → FilterValue → Text → FilterValue → Exec (App World) (Option NocoRecord)
  find_by_both table_id field value field' value' = do
    first ← lift (filter_eq field value)
    second ← lift (filter_eq field' value')
    filter ← lift (and_filters (first ∷ second ∷ []))
    find_one out table_id filter

  unfoldable pub hash_password : Crypto World → Text → Exec (App World) Text
  hash_password crypto password s =
      let (salt, w) = crypto.random_salt s.world in
      (
        ok (codes "scrypt$" ++ (salt ++ (b'$' ∷ crypto.scrypt password salt))),
        record s { world = w },
      )
