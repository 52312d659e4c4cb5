-- ===== src/Nocodb/Meta.antt =====
-- The Meta API: tables and their fields (src/nocodb/nocodb.service.ts).
use nocodb_middleware.Prelude.{
  Bool, true, false, Option, none, some, List, [], ◌++◌, Text, same, find, if◌then◌else◌,
}
use nocodb_middleware.Result.{failure}
use nocodb_middleware.Effects.{Exec, pure, raise, ◌>>=◌}
use nocodb_middleware.Types.{NocoFieldMeta, NocoTableMeta}
use nocodb_middleware.Outside
use nocodb_middleware.Outside.{Outside, App, Payload, Method}
use nocodb_middleware.Nocodb.Requests.{table_path, tables_path, fields_path, http}

module _ (out : Outside) where
  open out use {World, base_id, table_prefix}

  -- NocoDB is trusted to answer a table where one is asked for.
  unfoldable pub as_table : Payload → Exec (App World) NocoTableMeta
  as_table (Payload.table_meta t) = pure t
  as_table _ = raise failure

  unfoldable pub as_tables : Payload → Exec (App World) (List NocoTableMeta)
  as_tables (Payload.tables (some ts)) = pure ts
  as_tables Payload.no_body = raise failure
  as_tables _ = pure []

  unfoldable pub get_table_metadata : Text → Exec (App World) NocoTableMeta
  unfolding as_table
  get_table_metadata table_id = do
    p ← http out (record {
      method = Method.get;
      path = table_path base_id table_id;
      params = [];
      body = Outside.Body.empty;
    })
    as_table p

  unfoldable pub list_base_tables : Text → Exec (App World) (List NocoTableMeta)
  unfolding as_tables
  list_base_tables base = do
    p ← http out (record {
      method = Method.get;
      path = tables_path base;
      params = [];
      body = Outside.Body.empty;
    })
    as_tables p

  unfoldable pub list_tables : Exec (App World) (List NocoTableMeta)
  list_tables = list_base_tables base_id

  unfoldable pub get_prefixed_table_name : Text → Text
  get_prefixed_table_name table_name = table_prefix ++ table_name

  has_table_name : Text → NocoTableMeta → Bool
  has_table_name name t = elim t.table_name [ none ↦ false | some n ↦ same n name ]

  -- `find(by title) ?? find(by table_name) ?? null`
  unfoldable pub pick_table : Text → List NocoTableMeta → Option NocoTableMeta
  unfolding has_table_name
  pick_table name tables = elim (find (λ t. same t.title name) tables) [
    | some t ↦ some t
    | none ↦ find (has_table_name name) tables
  ]

  unfoldable pub get_table_by_name : Text → Exec (App World) (Option NocoTableMeta)
  get_table_by_name table_name = do
    tables ← list_tables
    pure (pick_table (get_prefixed_table_name table_name) tables)

  unfoldable pub table_exists : Text → Exec (App World) Bool
  table_exists table_name = do
    found ← get_table_by_name table_name
    pure (elim found [ none ↦ false | some _ ↦ true ])

  unfoldable pub create_table : Text → Text → List NocoFieldMeta → Exec (App World) NocoTableMeta
  unfolding as_table
  create_table table_name title fields = do
    p ← http out (record {
      method = Method.post;
      path = tables_path base_id;
      params = [];
      body =
          Outside.Body.table (get_prefixed_table_name table_name)
            (if same title table_name then none else some title) fields;
    })
    as_table p

  unfoldable pub create_column : Text → NocoFieldMeta → Exec (App World) (Unit {0})
  create_column table_id field = do
    _ ← http out (record {
      method = Method.post;
      path = fields_path base_id table_id;
      params = [];
      body = Outside.Body.field field;
    })
    pure tt
