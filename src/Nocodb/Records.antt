-- ===== src/Nocodb/Records.antt =====
-- The Data API: records (src/nocodb/nocodb.service.ts).
use nocodb_middleware.Prelude.{
  ℕ, zero, suc, ◌+◌, String, Bool, true, false, Option, none, some, List, [], ◌∷◌, ◌++◌, map, Text,
  codes, length, ltb, ◌==◌, if◌then◌else◌,
}
use nocodb_middleware.Js.{Num, undefined, decimal}
use nocodb_middleware.Result.{Error, axios, nocodb_exception, failure, out_of_fuel}
use nocodb_middleware.Effects.{Exec, pure, raise, catch, ◌>>=◌, ◌>>◌}
use nocodb_middleware.Filter.{join}
use nocodb_middleware.Types.{NocoRecord, put}
use nocodb_middleware.Outside.{Outside, App, Payload, Method, Param, Body}
use nocodb_middleware.Nocodb.Requests.{
  records_path, record_path, count_path, flatten_record, to_v3_sort, enforce_rate_limit, http,
}

pub record FilterOptions : Type 0 where
  pub filter : Option Text
  pub sort : Option Text
  pub fields : Option (List Text)
  pub limit : Option ℕ
  pub offset : Option ℕ
  pub with_count : Bool

abbrev pub no_options : FilterOptions
no_options = record {
  filter = none;
  sort = none;
  fields = none;
  limit = none;
  offset = none;
  with_count = false;
}

-- `page` is never set.
pub record PageInfo : Type 0 where
  pub total_rows : ℕ
  pub page_size : Option ℕ

pub record RecordList : Type 0 where
  pub list : List NocoRecord
  pub page_info : Option PageInfo

-- What `batchCreate` and `batchUpdate` report of one record: the record, or the error with the id
-- that an update was for.
pub data BatchItem : Type 0 where
  stored : NocoRecord → BatchItem
  rejected : Option Num → Error → BatchItem

unfoldable pub is_not_found : Error → Bool
is_not_found (axios (some status)) = status == 404
is_not_found _ = false

-- An absent or empty text adds no parameter.
text_param : String → (Text → Param) → Option Text → List (Text × Param)
text_param key f none = []
text_param key f (some []) = []
text_param key f (some (c ∷ t)) = (codes key, f (c ∷ t)) ∷ []

fields_param : Option (List Text) → List (Text × Param)
fields_param none = []
fields_param (some fs) = (codes "fields", Param.plain (join (codes ",") fs)) ∷ []

number_param : String → Option ℕ → List (Text × Param)
number_param key none = []
number_param key (some n) = (codes key, Param.plain (decimal n)) ∷ []

unfoldable pub list_params : FilterOptions → List (Text × Param)
unfolding text_param fields_param number_param
list_params o =
    text_param "where" Param.plain o.filter
    ++ (text_param "sort" (λ t. Param.sorted (to_v3_sort t)) o.sort
        ++ (fields_param o.fields
            ++ (number_param "limit" o.limit ++ number_param "offset" o.offset)))

module _ (out : Outside) where
  open out use {World, base_id}

  -- `flattenRecord(response.data.records[0])`
  unfoldable pub first_record : Payload → Exec (App World) NocoRecord
  first_record (Payload.records (some (r ∷ rs))) = pure (flatten_record r)
  first_record _ = raise failure

  unfoldable pub as_record : Payload → Exec (App World) NocoRecord
  as_record (Payload.one_record r) = pure (flatten_record r)
  as_record Payload.no_body = raise failure
  as_record _ = pure (put (codes "id") undefined [])

  unfoldable pub as_records : Payload → Exec (App World) (List NocoRecord)
  as_records (Payload.records (some rs)) = pure (map flatten_record rs)
  as_records Payload.no_body = raise failure
  as_records _ = pure []

  unfoldable pub as_count : Payload → Exec (App World) ℕ
  as_count (Payload.counted (some n)) = pure n
  as_count Payload.no_body = raise failure
  as_count _ = pure 0

  unfoldable pub create : Text → NocoRecord → Exec (App World) NocoRecord
  unfolding first_record
  create table_id fields = do
    enforce_rate_limit out
    p ← http out (record {
      method = Method.post;
      path = records_path base_id table_id;
      params = [];
      body = Body.fields_of fields;
    })
    first_record p

  unfoldable pub read_request :
      Text → Num → Option (List Text) → Exec (App World) (Option NocoRecord)
  unfolding as_record fields_param
  read_request table_id record_id fields = do
    p ← http out (record {
      method = Method.get;
      path = record_path base_id table_id record_id;
      params = fields_param fields;
      body = Body.empty;
    })
    r ← as_record p
    pure (some r)

  -- `null` if the record does not exist.
  unfoldable pub read : Text → Num → Option (List Text) → Exec (App World) (Option NocoRecord)
  unfolding read_request
  read table_id record_id fields = do
    enforce_rate_limit out
    catch (read_request table_id record_id fields)
        (λ e. if is_not_found e then pure none else raise e)

  -- A 404 becomes `NocoDBException.recordNotFound`.
  unfoldable pub missing_record {ℓ} : {A : Type ℓ} → Error → Exec (App World) A
  missing_record e = raise (if is_not_found e then nocodb_exception 404 else e)

  unfoldable pub update_request : Text → Num → NocoRecord → Exec (App World) NocoRecord
  unfolding first_record
  update_request table_id record_id fields = do
    p ← http out (record {
      method = Method.patch;
      path = records_path base_id table_id;
      params = [];
      body = Body.changed record_id fields;
    })
    first_record p

  unfoldable pub update : Text → Num → NocoRecord → Exec (App World) NocoRecord
  unfolding update_request missing_record
  update table_id record_id fields = do
    enforce_rate_limit out
    catch (update_request table_id record_id fields) missing_record

  unfoldable pub delete_request : Text → Num → Exec (App World) (Unit {0})
  delete_request table_id record_id = do
    _ ← http out (record {
      method = Method.delete;
      path = records_path base_id table_id;
      params = [];
      body = Body.deleted record_id;
    })
    pure tt

  unfoldable pub delete : Text → Num → Exec (App World) (Unit {0})
  unfolding delete_request missing_record
  delete table_id record_id = do
    enforce_rate_limit out
    catch (delete_request table_id record_id) missing_record

  unfoldable pub where_param : Option Text → List (Text × Param)
  unfolding text_param
  where_param = text_param "where" Param.plain

  unfoldable pub count : Text → Option Text → Exec (App World) ℕ
  unfolding as_count
  count table_id filter = do
    enforce_rate_limit out
    p ← http out (record {
      method = Method.get;
      path = count_path base_id table_id;
      params = where_param filter;
      body = Body.empty;
    })
    as_count p

  unfoldable pub counted_list :
      Text → FilterOptions → List NocoRecord → Bool → Exec (App World) RecordList
  counted_list table_id o rows false = pure (record { list = rows; page_info = none })
  counted_list table_id o rows true = do
    total ← count table_id o.filter
    pure (record {
      list = rows;
      page_info = some (record { total_rows = total; page_size = o.limit });
    })

  unfoldable pub list : Text → FilterOptions → Exec (App World) RecordList
  unfolding as_records counted_list
  list table_id o = do
    enforce_rate_limit out
    p ← http out (record {
      method = Method.get;
      path = records_path base_id table_id;
      params = list_params o;
      body = Body.empty;
    })
    rows ← as_records p
    counted_list table_id o rows o.with_count

  -- The loop of `listAll`; the fuel bounds the pages.
  unfoldable pub list_from :
      ℕ → Text → FilterOptions → ℕ → ℕ → List NocoRecord → Exec (App World) (List NocoRecord)
  list_from zero table_id o page_size offset records = raise out_of_fuel
  list_from (suc fuel) table_id o page_size offset records = do
    page ←
        list table_id
          (record o { limit = some page_size; offset = some offset; with_count = false })
    let rest = list_from fuel table_id o page_size (offset + page_size) (records ++ page.list)
    if ltb (length page.list) page_size then pure (records ++ page.list) else rest

  unfoldable pub list_all : Text → FilterOptions → Exec (App World) (List NocoRecord)
  list_all table_id o = list_from out.max_pages table_id o 1000 0 []

  unfoldable pub find_one : Text → Text → Exec (App World) (Option NocoRecord)
  find_one table_id filter = do
    result ← list table_id (record no_options { filter = some filter; limit = some 1 })
    pure (elim result.list [ [] ↦ none | r ∷ rs ↦ some r ])

  unfoldable pub exists : Text → Text → Exec (App World) Bool
  exists table_id filter = do
    found ← find_one table_id filter
    pure (elim found [ none ↦ false | some _ ↦ true ])

  unfoldable pub batch_create : Text → List NocoRecord → Exec (App World) (List BatchItem)
  batch_create table_id [] = pure []
  batch_create table_id (r ∷ rs) = do
    item ← catch (do made ← create table_id r; pure (stored made)) (λ e. pure (rejected none e))
    items ← batch_create table_id rs
    pure (item ∷ items)

  unfoldable pub batch_update : Text → List (Num × NocoRecord) → Exec (App World) (List BatchItem)
  batch_update table_id [] = pure []
  batch_update table_id ((id, fields) ∷ rest) = do
    item ←
        catch (do made ← update table_id id fields; pure (stored made))
          (λ e. pure (rejected (some id) e))
    items ← batch_update table_id rest
    pure (item ∷ items)
