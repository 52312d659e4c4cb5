-- ===== src/Example/Books.antt =====
-- BooksService of the example backend (example/src/books/books.service.ts).
use nocodb_middleware.Prelude.{
  ℕ, ◌+◌, leb, Bool, false, not, ◌&&◌, Option, none, some, List, [], ◌∷◌, ◌++◌, Text, codes,
  starts_with, if◌then◌else◌,
}
use nocodb_middleware.Js.{
  Num, nan, infinite, int, large, frac, pos, negsuc, num_text, Value, num, to_number, truthy,
}
use nocodb_middleware.Result.{not_found}
use nocodb_middleware.Effects.{Exec, pure, raise, catch, traverse, ◌>>=◌, ◌>>◌}
use nocodb_middleware.Types.{NocoRecord, get}
use nocodb_middleware.Example.Backend.{
  Backend, JwtPayload, find_all, find_one, create, update, delete_record, count,
}
use nocodb_middleware.Example.Pages.{
  PageOptions, Paged, PaginationParams, get_pagination_params, build_pagination_meta, is_guest,
  both,
}

-- `{ ...book, author }`, or the book alone; what was found for the author may be `null`.
pub record BookRow : Type 0 where
  pub book : NocoRecord
  pub author : Option (Option NocoRecord)

abbrev pub books : Text
books = codes "books"

abbrev pub authors : Text
authors = codes "authors"

-- The condition for guests.
abbrev pub affordable : Text
affordable = codes "(price,lt,10)"

-- `(title,contains,${query})~or~(description,contains,${query})`, and the like for other fields.
unfoldable pub contains_either : Text → Text → Text → Text
contains_either first second query =
    codes "("
    ++ (first
        ++ (codes ",contains,"
            ++ (query
                ++ (codes ")~or~(" ++ (second ++ (codes ",contains," ++ (query ++ codes ")")))))))

unfoldable pub search_condition : Text → Text
unfolding contains_either
search_condition query = contains_either (codes "title") (codes "description") query

-- `where += '~and~(price,lt,10)'` for guests.
unfoldable pub for_role : JwtPayload → Text → Text
for_role user w = if is_guest user then w ++ (codes "~and~" ++ affordable) else w

-- The condition of `findAll`; an empty search is none.
unfoldable pub all_condition : JwtPayload → Option Text → Text
unfolding search_condition
all_condition user (some (c ∷ t)) =
    if is_guest user
    then affordable ++ (codes "~and~" ++ search_condition (c ∷ t))
    else search_condition (c ∷ t)
all_condition user _ = if is_guest user then affordable else []

unfoldable pub author_condition : Num → Text
author_condition id = codes "(author_id,eq," ++ (num_text id ++ codes ")")

unfoldable pub range_condition : Num → Num → Text
range_condition low high =
    codes "(price,gte,"
    ++ (num_text low ++ (codes ")~and~(price,lte," ++ (num_text high ++ codes ")")))

leading_digits : Text → ℕ
leading_digits [] = 0
leading_digits (c ∷ t) = if leb b'0' c && leb c b'9' then leading_digits t + 1 else 0

-- `n >= 10`. A fraction of ten or more has at least two digits before its point, and one with an
-- exponent is small.
unfoldable pub at_least_ten : Num → Bool
unfolding leading_digits
at_least_ten nan = false
at_least_ten (infinite negative) = not negative
at_least_ten (int (pos n)) = leb 10 n
at_least_ten (int (negsuc n)) = false
at_least_ten (large t) = not (starts_with (codes "-") t)
at_least_ten (frac t) = leb 2 (leading_digits t)

module _ (b : Backend) where
  open b use {World, parse_number}

  -- `book?.author_id`, an author that cannot be loaded is left out.
  unfoldable pub with_author : NocoRecord → Value → Exec World BookRow
  with_author book id =
      catch (do author ← find_one b authors id; pure (record { book = book; author = some author }))
        (λ _. pure (record { book = book; author = none }))

  unfoldable pub enrich_with_author : NocoRecord → Exec World BookRow
  enrich_with_author book =
      let id = get (codes "author_id") book in
      if not (truthy id) then pure (record { book = book; author = none }) else with_author book id

  unfoldable pub enrich_optional : Option NocoRecord → Exec World (Option BookRow)
  enrich_optional none = pure none
  enrich_optional (some book) = do row ← enrich_with_author book; pure (some row)

  unfoldable pub enrich_books_with_authors : List NocoRecord → Exec World (List BookRow)
  enrich_books_with_authors = traverse enrich_with_author

  -- The common end of the listings: the rows and their count, the authors, the page.
  unfoldable pub list_books : Text → PaginationParams → Exec World (Paged BookRow)
  list_books w p = do
    found ←
        both
          (find_all b books (record {
            where_text = some w;
            limit = some p.limit;
            offset = some p.offset;
            sort_by = some p.sort_by;
            sort_order = some p.sort_order;
          }))
          (count b books w)
    rows ← enrich_books_with_authors found.0
    pure (build_pagination_meta rows found.1 p.page p.limit)

  unfoldable pub find_page : JwtPayload → PageOptions → Exec World (Paged BookRow)
  find_page user o =
      list_books (all_condition user o.search) (get_pagination_params o (codes "title"))

  unfoldable pub search : JwtPayload → Text → PageOptions → Exec World (Paged BookRow)
  search user query o =
      list_books (for_role user (search_condition query)) (get_pagination_params o (codes "title"))

  unfoldable pub find_by_author : JwtPayload → Num → PageOptions → Exec World (Paged BookRow)
  find_by_author user id o =
      list_books (for_role user (author_condition id)) (get_pagination_params o (codes "title"))

  unfoldable pub find_by_price_range :
      JwtPayload → Num → Num → PageOptions → Exec World (Paged BookRow)
  find_by_price_range user low high o =
      let p = get_pagination_params o (codes "title") in
      list_books (for_role user (range_condition low high))
        (record p { sort_by = codes "price"; sort_order = codes "ASC" })

  unfoldable pub is_dear : NocoRecord → Bool
  is_dear book = at_least_ten (to_number parse_number (get (codes "price") book))

  unfoldable pub book_found : Option JwtPayload → Option NocoRecord → Exec World BookRow
  book_found user none = raise not_found
  book_found none (some book) = enrich_with_author book
  book_found (some user) (some book) =
      if is_guest user && is_dear book then raise not_found else enrich_with_author book

  -- `findOne`
  unfoldable pub find_book : Num → Option JwtPayload → Exec World BookRow
  find_book id user = do book ← find_one b books (num id); book_found user book

  unfoldable pub create_book : NocoRecord → Exec World (Option BookRow)
  create_book dto = do book ← create b books dto; enrich_optional book

  -- `if (!existing) throw new NotFoundException(…)`
  unfoldable pub require_found : Option NocoRecord → Exec World (Unit {0})
  require_found none = raise not_found
  require_found (some r) = pure tt

  unfoldable pub update_book : Num → NocoRecord → Exec World (Option BookRow)
  update_book id dto = do
    existing ← find_one b books (num id)
    require_found existing
    book ← update b books (num id) dto
    enrich_optional book

  unfoldable pub delete_book : Num → Exec World (Unit {0})
  delete_book id = do
    existing ← find_one b books (num id)
    require_found existing
    delete_record b books (num id)
