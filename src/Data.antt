-- ===== src/Data.antt =====
-- DataService (src/data/data.service.ts): records of user tables.
pub mod Writes
use nocodb_middleware.Prelude.{
  ℕ, ◌+◌, Bool, true, false, not, ◌&&◌, ◌||◌, Option, none, some, List, [], ◌∷◌, map, Text, codes,
  same, any, length, filter, ltb, ◌==◌, if◌then◌else◌,
}
use nocodb_middleware.Js.{Num, Value, int, pos, same_num, is_positive}
use nocodb_middleware.Result.{Error, bad_request, not_found, axios, ok}
use nocodb_middleware.Effects.{Exec, pure, raise, catch, ◌>>=◌, ◌>>◌}
use nocodb_middleware.Types.{NocoRecord, NocoFieldMeta, NocoTableMeta}
use nocodb_middleware.Outside.{Outside, App, TableInfo}
use nocodb_middleware.Nocodb.Requests.{date_now}
use nocodb_middleware.Nocodb.Meta.{get_table_by_name, get_table_metadata}
use nocodb_middleware.Nocodb.Records
use nocodb_middleware.Nocodb.Records.{PageInfo, no_options}

abbrev pub default_page_size : ℕ
default_page_size = 25

abbrev pub table_cache_ttl_ms : ℕ
table_cache_ttl_ms = 60_000

abbrev pub read_only_field_types : List Text
read_only_field_types = map codes (
    "ID" ∷ "AutoNumber" ∷ "Formula" ∷ "Rollup" ∷ "Lookup" ∷ "Links" ∷ "LinkToAnotherRecord"
    ∷ "CreatedTime" ∷ "LastModifiedTime" ∷ "CreatedBy" ∷ "LastModifiedBy" ∷ "Barcode" ∷ "QrCode"
    ∷ "Button" ∷ [])

-- The JSON body of a request.
pub data BodyInput : Type 0 where
  nothing scalar array : BodyInput
  object : NocoRecord → BodyInput

pub record ListRecordsOptions : Type 0 where
  pub filter : Option Text
  pub sort : Option Text
  pub limit : Option ℕ
  pub offset : Option ℕ

-- The page information of the answer: of the count, or the lower bound.
pub data RowCount : Type 0 where
  reported : PageInfo → RowCount
  at_least : ℕ → RowCount

pub record RecordPage : Type 0 where
  pub list : List NocoRecord
  pub page_info : RowCount

unfoldable pub has : Text → List Text → Bool
has t set = any (same t) set

unfoldable pub is_read_only : NocoFieldMeta → Bool
unfolding has
is_read_only field = has field.kind read_only_field_types

unfoldable pub field_titles : (NocoFieldMeta → Bool) → List NocoFieldMeta → List Text
field_titles p fields = map (λ f. f.title) (filter p fields)

unfoldable pub fields_of : Option (List NocoFieldMeta) → List NocoFieldMeta
fields_of none = []
fields_of (some fs) = fs

unfoldable pub keys : NocoRecord → List Text
keys = map (λ f. f.0)

abbrev pub is_nil {ℓ} : {A : Type ℓ} → List A → Bool
is_nil [] = true
is_nil (x ∷ xs) = false

unfoldable pub table_info : Text → List NocoFieldMeta → ℕ → TableInfo
unfolding is_read_only field_titles
table_info id fields now = record {
  id = id;
  writable_fields = field_titles (λ f. not (is_read_only f)) fields;
  read_only_fields = field_titles is_read_only fields;
  expires_at = now + table_cache_ttl_ms;
}

-- `Map.get`, `Map.set` and `Map.delete` of the table cache.
unfoldable pub get_info : Text → List (Text × TableInfo) → Option TableInfo
get_info table [] = none
get_info table ((t, info) ∷ rest) = if same table t then some info else get_info table rest

unfoldable pub set_info : Text → TableInfo → List (Text × TableInfo) → List (Text × TableInfo)
set_info table info [] = (table, info) ∷ []
set_info table info ((t, old) ∷ rest) =
    if same table t then (t, info) ∷ rest else (t, old) ∷ set_info table info rest

unfoldable pub delete_info : Text → List (Text × TableInfo) → List (Text × TableInfo)
delete_info table = filter (λ e. not (same table e.0))

-- The two checks of `assertWritableFields`.
unfoldable pub read_only_keys : TableInfo → NocoRecord → List Text
unfolding has keys
read_only_keys info fields =
    filter (λ key. same key (codes "id") || has key info.read_only_fields) (keys fields)

unfoldable pub unknown_keys : TableInfo → NocoRecord → List Text
unfolding has keys
unknown_keys info fields = filter (λ key. not (has key info.writable_fields)) (keys fields)

is_rejected : Error → Bool
is_rejected (axios (some status)) = status == 400 || status == 422
is_rejected _ = false

-- `meta?.id`, not empty.
meta_id : Option NocoTableMeta → Option Text
meta_id none = none
meta_id (some meta) = if is_nil meta.id then none else some meta.id

offset_of : Option ℕ → ℕ
offset_of none = 0
offset_of (some n) = n

limit_of : Option ℕ → ℕ
limit_of none = default_page_size
limit_of (some n) = n

row_count : ℕ → Option PageInfo → RowCount
row_count rows none = at_least rows
row_count rows (some info) = reported info

module _ (out : Outside) where
  open out use {World}

  unfoldable pub assert_record_input : BodyInput → Exec (App World) NocoRecord
  assert_record_input (object fields) = if is_nil fields then raise bad_request else pure fields
  assert_record_input _ = raise bad_request

  unfoldable pub assert_writable_fields : TableInfo → NocoRecord → Exec (App World) (Unit {0})
  assert_writable_fields info fields =
      if not (is_nil (read_only_keys info fields))
      then raise bad_request
      else if not (is_nil (unknown_keys info fields))
      then raise bad_request
      else pure tt

  -- NocoDB's 400 and 422 become a bad request.
  unfoldable pub with_upstream_validation {ℓ} :
      {A : Type ℓ} → Exec (App World) A → Exec (App World) A
  unfolding is_rejected
  with_upstream_validation call = catch call (λ e. raise (if is_rejected e then bad_request else e))

  unfoldable pub forget_table : Text → Exec (App World) (Unit {0})
  forget_table table s = (ok tt, record s { tables_cache = delete_info table s.tables_cache })

  unfoldable pub remember_table : Text → TableInfo → Exec (App World) (Unit {0})
  remember_table table info s =
      (ok tt, record s { tables_cache = set_info table info s.tables_cache })

  unfoldable pub resolve_table : Text → Option Text → Exec (App World) TableInfo
  resolve_table table none = forget_table table >> raise not_found
  resolve_table table (some id) = do
    meta ← get_table_metadata out id
    now ← date_now out
    let info = table_info id (fields_of meta.fields) now
    remember_table table info
    pure info

  unfoldable pub load_table : Text → Exec (App World) TableInfo
  unfolding meta_id
  load_table table = do meta ← get_table_by_name out table; resolve_table table (meta_id meta)

  -- `cached && cached.expiresAt > Date.now()`
  unfoldable pub cached_or_loaded : Text → Option TableInfo → Exec (App World) TableInfo
  cached_or_loaded table none = load_table table
  cached_or_loaded table (some info) = do
    now ← date_now out
    if ltb now info.expires_at then pure info else load_table table

  unfoldable pub get_table : Text → Exec (App World) TableInfo
  get_table table s = cached_or_loaded table (get_info table s.tables_cache) s

  unfoldable pub list : Text → ListRecordsOptions → Exec (App World) RecordPage
  unfolding offset_of limit_of row_count
  list table options = do
    info ← get_table table
    result ← with_upstream_validation (
        Records.list out info.id (record no_options {
          filter = options.filter;
          sort = options.sort;
          limit = some (limit_of options.limit);
          offset = some (offset_of options.offset);
          with_count = true;
        }))
    pure (record {
      list = result.list;
      page_info = row_count (offset_of options.offset + length result.list) result.page_info;
    })

  or_not_found : Option NocoRecord → Exec (App World) NocoRecord
  or_not_found none = raise not_found
  or_not_found (some r) = pure r

  unfoldable pub read : Text → Num → Exec (App World) NocoRecord
  unfolding or_not_found
  read table id = do
    info ← get_table table
    found ← Records.read out info.id id none
    or_not_found found

  -- What both writes do before the call of NocoDB.
  unfoldable pub checked_table : Text → NocoRecord → Exec (App World) TableInfo
  checked_table table fields = do
    info ← get_table table
    assert_writable_fields info fields
    pure info

  unfoldable pub create : Text → BodyInput → Exec (App World) NocoRecord
  create table input = do
    fields ← assert_record_input input
    info ← checked_table table fields
    with_upstream_validation (Records.create out info.id fields)

  unfoldable pub update : Text → Num → BodyInput → Exec (App World) NocoRecord
  update table id input = do
    fields ← assert_record_input input
    info ← checked_table table fields
    with_upstream_validation (Records.update out info.id id fields)

  unfoldable pub delete : Text → Num → Exec (App World) (Unit {0})
  delete table id = do info ← get_table table; Records.delete out info.id id
