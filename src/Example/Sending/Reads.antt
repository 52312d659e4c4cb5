-- ===== src/Example/Sending/Reads.antt =====
-- The operations of the example backend that only read (example/src/books/books.service.ts,
-- authors.service.ts, users.service.ts and auth.service.ts).
use nocodb_middleware.Prelude.{not, ◌&&◌, Option, none, some, List, [], ◌∷◌, Text, codes}
use nocodb_middleware.Js.{Num, Value, num, truthy}
use nocodb_middleware.Result.{forbidden}
use nocodb_middleware.Effects.{pure, catch, traverse, ◌>>=◌}
use nocodb_middleware.Effects.Keeps.{Keeps, >>=-Keeps, catch-Keeps, if-Keeps, traverse-Keeps}
use nocodb_middleware.Types.{NocoRecord, get, users}
use nocodb_middleware.Example.Backend.{
  Backend, JwtPayload, Request, ListOptions, list_params, records_path, record_path, count_path,
  get_request, find_all, find_one, count, count_params,
}
use nocodb_middleware.Example.Pages.{
  PageOptions, PaginationParams, get_pagination_params, both, is_guest,
}
use nocodb_middleware.Example.Books.{
  books, authors, with_author, enrich_with_author, enrich_optional, enrich_books_with_authors,
  list_books, book_found, find_book, is_dear,
}
use nocodb_middleware.Example.Authors.{list_authors, author_found, find_author}
use nocodb_middleware.Example.Accounts.{
  Credentials, check_password, validate_user, session_for, login_as, login, hash_key, by_name,
  shown, get_current_user, payload_of, present,
}
use nocodb_middleware.Example.Users.{
  favorites, current_found, find_current_user, find_users, find_user, linked_author,
  enrich_favorite, load_favorite, all_users_condition, enriched, get_favorites, own_condition,
  may_access,
}
use nocodb_middleware.Example.Sending.{
  KeptBy, guarded-Keeps, lifted-Keeps, both-Keeps, find_all-Keeps, find_one-Keeps, count-Keeps,
}

-- The options of a listing.
abbrev pub listing : Text → PaginationParams → ListOptions
listing w p = record {
  where_text = some w;
  limit = some p.limit;
  offset = some p.offset;
  sort_by = some p.sort_by;
  sort_order = some p.sort_order;
}

module _ (b : Backend) (Allowed : Request → Type 0) (P : Backend.World b → Type 0)
    (kept : KeptBy b Allowed P) where
  open b use {World}

  listing-Keeps :
      (table w : Text) (p : PaginationParams)
      → Allowed (get_request (records_path table) (list_params (listing w p)))
      → Allowed (get_request (count_path table) (count_params w))
      → Keeps P (both (find_all b table (listing w p)) (count b table w))
  listing-Keeps table w p a c =
      both-Keeps P _ _ (find_all-Keeps b Allowed P kept table (listing w p) a)
        (count-Keeps b Allowed P kept table w c)

  module _ (author : (id : Value) → Allowed (get_request (record_path authors id) [])) where
    pub with_author-Keeps : (book : NocoRecord) (id : Value) → Keeps P (with_author b book id)
    unfolding with_author
    with_author-Keeps book id =
        catch-Keeps P
          (find_one b authors id >>= λ a. pure (record { book = book; author = some a })) _
          (>>=-Keeps P (find_one b authors id) _
            (find_one-Keeps b Allowed P kept authors id (author id)) (λ a w h. h))
          (λ e w h. h)

    pub enrich-Keeps : (book : NocoRecord) → Keeps P (enrich_with_author b book)
    unfolding enrich_with_author
    enrich-Keeps book =
        if-Keeps P (not (truthy (get (codes "author_id") book))) _ _ (λ w h. h)
          (with_author-Keeps book (get (codes "author_id") book))

    pub enrich_optional-Keeps : (book : Option NocoRecord) → Keeps P (enrich_optional b book)
    unfolding enrich_optional
    enrich_optional-Keeps none = λ w h. h
    enrich_optional-Keeps (some book) =
        >>=-Keeps P (enrich_with_author b book) _ (enrich-Keeps book) (λ row w h. h)

    pub list_books-Keeps :
        (w : Text) (p : PaginationParams)
        → Allowed (get_request (records_path books) (list_params (listing w p)))
        → Allowed (get_request (count_path books) (count_params w))
        → Keeps P (list_books b w p)
    unfolding list_books enrich_books_with_authors
    list_books-Keeps w p a c =
        >>=-Keeps P (both (find_all b books (listing w p)) (count b books w)) _
          (listing-Keeps books w p a c)
          (λ found.
            >>=-Keeps P (traverse (enrich_with_author b) found.0) _
              (traverse-Keeps P (enrich_with_author b) found.0 enrich-Keeps) (λ rows w h. h))

    book_found-Keeps :
        (user : Option JwtPayload) (book : Option NocoRecord) → Keeps P (book_found b user book)
    unfolding book_found
    book_found-Keeps user none = λ w h. h
    book_found-Keeps none (some book) = enrich-Keeps book
    book_found-Keeps (some user) (some book) =
        if-Keeps P (is_guest user && is_dear b book) _ _ (λ w h. h) (enrich-Keeps book)

    pub find_book-Keeps :
        (id : Num) (user : Option JwtPayload)
        → Allowed (get_request (record_path books (num id)) [])
        → Keeps P (find_book b id user)
    unfolding find_book
    find_book-Keeps id user a =
        >>=-Keeps P (find_one b books (num id)) _ (find_one-Keeps b Allowed P kept books (num id) a)
          (book_found-Keeps user)

    linked_author-Keeps : (book : NocoRecord) → Keeps P (linked_author b book)
    unfolding linked_author
    linked_author-Keeps book =
        if-Keeps P (not (truthy (get (codes "author_id") book))) _ _ (λ w h. h)
          (>>=-Keeps P (find_one b authors (get (codes "author_id") book)) _
            (find_one-Keeps b Allowed P kept authors (get (codes "author_id") book) (author _))
            (λ a w h. h))

    pub enriched-Keeps : (favorite book : NocoRecord) → Keeps P (enriched b favorite book)
    unfolding enriched
    enriched-Keeps favorite book =
        >>=-Keeps P
          (catch (linked_author b book) (λ _. pure (record { book = book; author = none }))) _
          (catch-Keeps P (linked_author b book) _ (linked_author-Keeps book) (λ e w h. h))
          (λ row w h. h)

  module _
      (gets : (path : Text) (params : List (Text × Value))
        → Allowed (get_request path params)) where
    pub list_authors-Keeps : (w : Text) (p : PaginationParams) → Keeps P (list_authors b w p)
    unfolding list_authors
    list_authors-Keeps w p =
        >>=-Keeps P (both (find_all b authors (listing w p)) (count b authors w)) _
          (listing-Keeps authors w p (gets _ _) (gets _ _)) (λ found w h. h)

    author_found-Keeps : (found : Option NocoRecord) → Keeps P (author_found b found)
    unfolding author_found
    author_found-Keeps none w h = h
    author_found-Keeps (some r) w h = h

    pub find_author-Keeps : (id : Num) → Keeps P (find_author b id)
    unfolding find_author
    find_author-Keeps id =
        >>=-Keeps P (find_one b authors (num id)) _
          (find_one-Keeps b Allowed P kept authors (num id) (gets _ _)) author_found-Keeps

    check_password-Keeps :
        (password : Text) (found : List NocoRecord) → Keeps P (check_password b password found)
    unfolding check_password
    check_password-Keeps password [] = λ w h. h
    check_password-Keeps password (user ∷ rest) =
        lifted-Keeps P (b.compare password (get hash_key user)) _ (λ valid e w h. h)

    validate_user-Keeps : (c : Credentials) → Keeps P (validate_user b c)
    unfolding validate_user
    validate_user-Keeps c =
        catch-Keeps P (find_all b users (by_name c) >>= check_password b c.password) _
          (>>=-Keeps P (find_all b users (by_name c)) _
            (find_all-Keeps b Allowed P kept users (by_name c) (gets _ _))
            (check_password-Keeps c.password))
          (λ e w h. h)

    pub session_for-Keeps : (user : NocoRecord) → Keeps P (session_for b user)
    unfolding session_for
    session_for-Keeps user =
        >>=-Keeps P (b.sign (payload_of user)) _ (kept.sign (payload_of user)) (λ t w h. h)

    login_as-Keeps : (user : Option NocoRecord) → Keeps P (login_as b user)
    unfolding login_as
    login_as-Keeps none = λ w h. h
    login_as-Keeps (some user) = session_for-Keeps user

    pub login-Keeps : (c : Credentials) → Keeps P (login b c)
    unfolding login
    login-Keeps c = >>=-Keeps P (validate_user b c) _ (validate_user-Keeps c) login_as-Keeps

    current_found-Keeps : (user : Option NocoRecord) → Keeps P (current_found b user)
    unfolding current_found
    current_found-Keeps none w h = h
    current_found-Keeps (some user) w h = h

    pub find_current_user-Keeps : (p : JwtPayload) → Keeps P (find_current_user b p)
    unfolding find_current_user get_current_user
    find_current_user-Keeps p =
        >>=-Keeps P (get_current_user b p) _
          (catch-Keeps P (find_one b users p.sub >>= λ user. pure (shown user)) _
            (>>=-Keeps P (find_one b users p.sub) _
              (find_one-Keeps b Allowed P kept users p.sub (gets _ _)) (λ u w h. h))
            (λ e w h. h))
          current_found-Keeps

    pub find_users-Keeps : (o : PageOptions) → Keeps P (find_users b o)
    unfolding find_users
    find_users-Keeps o =
        let p = get_pagination_params o (codes "username") in
        let w = all_users_condition o.search in
        >>=-Keeps P (both (find_all b users (listing w p)) (count b users w)) _
          (listing-Keeps users w p (gets _ _) (gets _ _)) (λ found w h. h)

    pub find_user-Keeps : (p : JwtPayload) (id : Num) → Keeps P (find_user b p id)
    unfolding find_user
    find_user-Keeps p id = guarded-Keeps P (may_access p id) forbidden _ (λ _.
        >>=-Keeps P (find_one b users (num id)) _
          (find_one-Keeps b Allowed P kept users (num id) (gets _ _))
          (λ found. >>=-Keeps P (current_found b found) _ (current_found-Keeps found) (λ u w h. h)))

    pub present-Keeps : (found : Option NocoRecord) → Keeps P (present b found)
    unfolding present
    present-Keeps none w h = h
    present-Keeps (some r) w h = h

    load_favorite-Keeps : (favorite : NocoRecord) → Keeps P (load_favorite b favorite)
    unfolding load_favorite
    load_favorite-Keeps favorite =
        let id = get (codes "book_id") favorite in
        >>=-Keeps P (find_one b books id) _ (find_one-Keeps b Allowed P kept books id (gets _ _))
          (λ found. >>=-Keeps P (present b found) _ (present-Keeps found) (λ book.
            >>=-Keeps P (linked_author b book) _ (linked_author-Keeps (λ id. gets _ _) book)
              (λ row w h. h)))

    enrich_favorite-Keeps : (favorite : NocoRecord) → Keeps P (enrich_favorite b favorite)
    unfolding enrich_favorite
    enrich_favorite-Keeps favorite =
        catch-Keeps P (load_favorite b favorite) _ (load_favorite-Keeps favorite) (λ e w h. h)

    pub get_favorites-Keeps : (p : JwtPayload) (o : PageOptions) → Keeps P (get_favorites b p o)
    unfolding get_favorites
    get_favorites-Keeps p o =
        let q = get_pagination_params o (codes "title") in
        let w = own_condition p.sub in
        >>=-Keeps P (both (find_all b favorites (listing w q)) (count b favorites w)) _
          (listing-Keeps favorites w q (gets _ _) (gets _ _))
          (λ found.
            >>=-Keeps P (traverse (enrich_favorite b) found.0) _
              (traverse-Keeps P (enrich_favorite b) found.0 enrich_favorite-Keeps) (λ rows w h. h))
