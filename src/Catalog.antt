-- ===== src/Catalog.antt =====
-- TableCatalogService (src/nocodb/table-catalog.service.ts). The metadata of a table has an id and
-- a title here, as NocoDB documents it.
pub mod Resolution
use nocodb_middleware.Prelude.{
  ℕ, Bool, true, false, not, Option, none, some, List, [], ◌∷◌, map, filter, Text, same, any,
  strip_prefix,
}
use nocodb_middleware.Effects.{Exec, pure, ◌>>=◌}
use nocodb_middleware.Types.{NocoTableMeta, system_table_names}
use nocodb_middleware.Outside.{Outside, App}
use nocodb_middleware.TableName.{is_valid_table_name}
use nocodb_middleware.Nocodb.Meta.{list_tables}

pub record TableCatalogItem : Type 0 where
  pub id : Text
  pub table_name : Text
  pub title : Text

unfoldable pub is_internal : TableCatalogItem → Bool
is_internal i = any (same i.table_name) system_table_names

item : NocoTableMeta → Text → TableCatalogItem
item t name = record { id = t.id; table_name = name; title = t.title }

-- The tables that carry the prefix, by their logical names.
unfoldable pub prefixed_items : Text → List NocoTableMeta → List TableCatalogItem
unfolding item
prefixed_items prefix [] = []
prefixed_items prefix (t ∷ ts) = elim (strip_prefix prefix t.title) [
  | some name ↦ item t name ∷ prefixed_items prefix ts
  | none ↦ prefixed_items prefix ts
]

module _ (out : Outside) where
  open out use {World, table_prefix, is_letter_or_number}

  unfoldable pub external_items : List NocoTableMeta → List TableCatalogItem
  external_items tables =
      filter (λ i. is_valid_table_name is_letter_or_number i.table_name)
        (filter (λ i. not (is_internal i)) (prefixed_items table_prefix tables))

  unfoldable pub list_external_tables : Exec (App World) (List TableCatalogItem)
  list_external_tables = do tables ← list_tables out; pure (external_items tables)
