-- ===== src/Example/Authors.antt =====
-- AuthorsService of the example backend (example/src/authors/authors.service.ts).
use nocodb_middleware.Prelude.{Option, none, some, [], ◌∷◌, Text, codes}
use nocodb_middleware.Js.{Num, num}
use nocodb_middleware.Result.{not_found}
use nocodb_middleware.Effects.{Exec, pure, raise, ◌>>=◌, ◌>>◌}
use nocodb_middleware.Types.{NocoRecord}
use nocodb_middleware.Example.Backend.{
  Backend, JwtPayload, find_all, find_one, create, update, delete_record, count,
}
use nocodb_middleware.Example.Pages.{
  PageOptions, Paged, PaginationParams, get_pagination_params, build_pagination_meta, both,
}
use nocodb_middleware.Example.Books.{
  BookRow, authors, contains_either, author_condition, for_role, require_found, list_books,
}

-- The condition of `findAll`; an empty search is none.
unfoldable pub all_authors_condition : Option Text → Text
all_authors_condition (some (c ∷ t)) = contains_either (codes "name") (codes "bio") (c ∷ t)
all_authors_condition _ = []

module _ (b : Backend) where
  open b use {World}

  unfoldable pub list_authors : Text → PaginationParams → Exec World (Paged NocoRecord)
  list_authors w p = do
    found ←
        both
          (find_all b authors (record {
            where_text = some w;
            limit = some p.limit;
            offset = some p.offset;
            sort_by = some p.sort_by;
            sort_order = some p.sort_order;
          }))
          (count b authors w)
    pure (build_pagination_meta found.0 found.1 p.page p.limit)

  unfoldable pub find_authors : PageOptions → Exec World (Paged NocoRecord)
  unfolding all_authors_condition
  find_authors o =
      list_authors (all_authors_condition o.search) (get_pagination_params o (codes "name"))

  unfoldable pub author_found : Option NocoRecord → Exec World NocoRecord
  author_found none = raise not_found
  author_found (some author) = pure author

  unfoldable pub find_author : Num → Exec World NocoRecord
  find_author id = do author ← find_one b authors (num id); author_found author

  unfoldable pub create_author : NocoRecord → Exec World (Option NocoRecord)
  create_author dto = create b authors dto

  unfoldable pub update_author : Num → NocoRecord → Exec World (Option NocoRecord)
  update_author id dto = do
    existing ← find_one b authors (num id)
    require_found b existing
    update b authors (num id) dto

  unfoldable pub delete_author : Num → Exec World (Unit {0})
  delete_author id = do
    existing ← find_one b authors (num id)
    require_found b existing
    delete_record b authors (num id)

  -- The enrichment is that of BooksService.
  unfoldable pub get_books_by_author : JwtPayload → Num → PageOptions → Exec World (Paged BookRow)
  get_books_by_author user id o =
      list_books b (for_role user (author_condition id)) (get_pagination_params o (codes "title"))

  unfoldable pub search_authors : Text → PageOptions → Exec World (Paged NocoRecord)
  search_authors query o =
      list_authors (contains_either (codes "name") (codes "bio") query)
        (get_pagination_params o (codes "name"))
