-- ===== src/Example/Server.antt =====
-- The routes of the example backend (the controllers under example/src/books, example/src/authors
-- and example/src/users, with their decorators) behind its guards (example/src/app.module.ts). Path
-- and query parameters are texts until the ValidationPipe converts those that are declared numbers;
-- payloads are valid ones.
use nocodb_middleware.Prelude.{
  Bool, true, false, Option, none, some, List, [], ◌∷◌, map, Text, codes, if◌then◌else◌,
}
use nocodb_middleware.Js.{Num, nan, undefined}
use nocodb_middleware.Result.{forbidden, guard}
use nocodb_middleware.Effects.{Exec, pure, raise, lift, ◌>>=◌, ◌>>◌}
use nocodb_middleware.Types.{NocoRecord}
use nocodb_middleware.Example.Backend.{Backend, JwtPayload}
use nocodb_middleware.Example.Pages.{PageOptions, Paged}
use nocodb_middleware.Example.Books
use nocodb_middleware.Example.Books.{BookRow}
use nocodb_middleware.Example.Authors
use nocodb_middleware.Example.Accounts
use nocodb_middleware.Example.Accounts.{Credentials, NewUser, AuthResponse}
use nocodb_middleware.Example.Users
use nocodb_middleware.Example.Users.{FavoriteRow, UpdateUser}
use nocodb_middleware.Example.Guards.{
  RequiredRole, named, has_required_role, GuardedRequest, authenticate, check_permissions,
}

-- One constructor for each handler, with what its decorators take from the request.
pub data Route : Type 0 where
  all_books : PageOptions → Route
  search_books : Text → PageOptions → Route
  books_of_author : Text → PageOptions → Route
  books_by_price : Text → Text → PageOptions → Route
  one_book : Text → Route
  new_book : NocoRecord → Route
  change_book : Text → NocoRecord → Route
  remove_book : Text → Route
  all_authors : PageOptions → Route
  search_authors : Text → PageOptions → Route
  author_books : Text → PageOptions → Route
  one_author : Text → Route
  new_author : NocoRecord → Route
  change_author : Text → NocoRecord → Route
  remove_author : Text → Route
  register_user : NewUser → Route
  login_user : Credentials → Route
  profile : Route
  all_users : PageOptions → Route
  one_user : Text → Route
  change_user : Text → UpdateUser → Route
  remove_user : Text → Route
  change_password : Text → Text → Route
  my_favorites : PageOptions → Route
  new_favorite : Text → Route
  remove_favorite : Text → Route

unfoldable pub is_public : Route → Bool
is_public (register_user u) = true
is_public (login_user c) = true
is_public _ = false

everyone : List RequiredRole
everyone = map named (codes "admin" ∷ codes "user" ∷ codes "guest" ∷ [])

members : List RequiredRole
members = map named (codes "admin" ∷ codes "user" ∷ [])

admins : List RequiredRole
admins = map named (codes "admin" ∷ [])

-- `@Roles(…)`
unfoldable pub required_roles : Route → Option (List RequiredRole)
unfolding everyone members admins
required_roles (all_books o) = some everyone
required_roles (search_books q o) = some everyone
required_roles (books_of_author id o) = some everyone
required_roles (books_by_price low high o) = some everyone
required_roles (one_book id) = some everyone
required_roles (new_book dto) = some admins
required_roles (change_book id dto) = some admins
required_roles (remove_book id) = some admins
required_roles (all_authors o) = some everyone
required_roles (search_authors q o) = some everyone
required_roles (author_books id o) = some everyone
required_roles (one_author id) = some everyone
required_roles (new_author dto) = some admins
required_roles (change_author id dto) = some admins
required_roles (remove_author id) = some admins
required_roles (register_user u) = none
required_roles (login_user c) = none
required_roles profile = some everyone
required_roles (all_users o) = some admins
required_roles (one_user id) = some members
required_roles (change_user id u) = some members
required_roles (remove_user id) = some admins
required_roles (change_password current new) = some everyone
required_roles (my_favorites o) = some members
required_roles (new_favorite id) = some members
required_roles (remove_favorite id) = some members

-- `@Get`, `@Post`, `@Put` and `@Delete`
unfoldable pub request_method : Route → Text
request_method (new_book dto) = codes "POST"
request_method (change_book id dto) = codes "PUT"
request_method (remove_book id) = codes "DELETE"
request_method (new_author dto) = codes "POST"
request_method (change_author id dto) = codes "PUT"
request_method (remove_author id) = codes "DELETE"
request_method (register_user u) = codes "POST"
request_method (login_user c) = codes "POST"
request_method (change_user id u) = codes "PUT"
request_method (remove_user id) = codes "DELETE"
request_method (change_password current new) = codes "PUT"
request_method (new_favorite id) = codes "POST"
request_method (remove_favorite id) = codes "DELETE"
request_method _ = codes "GET"

-- The raw path parameter `id`, if the route has one.
id_param : Route → Option Text
id_param (one_book id) = some id
id_param (change_book id dto) = some id
id_param (remove_book id) = some id
id_param (author_books id o) = some id
id_param (one_author id) = some id
id_param (change_author id dto) = some id
id_param (remove_author id) = some id
id_param (one_user id) = some id
id_param (change_user id u) = some id
id_param (remove_user id) = some id
id_param _ = none

abbrev pub no_user : JwtPayload
no_user = record { sub = undefined; username = undefined; email = undefined; role = undefined }

pub data Answer : Type 0 where
  book_page : Paged BookRow → Answer
  book : Option BookRow → Answer
  author_page : Paged NocoRecord → Answer
  author : Option NocoRecord → Answer
  user_page : Paged NocoRecord → Answer
  user : NocoRecord → Answer
  session : AuthResponse → Answer
  favorite_page : Paged FavoriteRow → Answer
  favorite : FavoriteRow → Answer
  success : Bool → Answer
  no_content : Answer

module _ (b : Backend) where
  open b use {World, decode, parse_number, parse_int}

  -- A path parameter that is declared a number; a query parameter is decoded already.
  number_param : Text → Num
  number_param id = parse_number (decode id)

  guarded_id : Option Text → Num
  guarded_id none = nan
  guarded_id (some id) = parse_int (decode id)

  -- No route has a parameter `userId`.
  unfoldable pub guarded_request : Route → Text → GuardedRequest
  unfolding id_param guarded_id
  guarded_request r path = record {
    method = request_method r;
    path = path;
    id = guarded_id (id_param r);
    user_id = nan;
  }

  -- The handlers of the controllers, with `req.user`.
  unfoldable pub handle : Route → JwtPayload → Exec World Answer
  unfolding number_param
  handle (all_books o) p = do page ← Books.find_page b p o; pure (book_page page)
  handle (search_books q o) p = do page ← Books.search b p q o; pure (book_page page)
  handle (books_of_author id o) p = do
    page ← Books.find_by_author b p (number_param id) o
    pure (book_page page)
  handle (books_by_price low high o) p = do
    page ← Books.find_by_price_range b p (parse_number low) (parse_number high) o
    pure (book_page page)
  handle (one_book id) p = do
    row ← Books.find_book b (number_param id) (some p)
    pure (book (some row))
  handle (new_book dto) p = do row ← Books.create_book b dto; pure (book row)
  handle (change_book id dto) p = do
    row ← Books.update_book b (number_param id) dto
    pure (book row)
  handle (remove_book id) p = do _ ← Books.delete_book b (number_param id); pure no_content
  handle (all_authors o) p = do page ← Authors.find_authors b o; pure (author_page page)
  handle (search_authors q o) p = do page ← Authors.search_authors b q o; pure (author_page page)
  handle (author_books id o) p = do
    page ← Authors.get_books_by_author b p (number_param id) o
    pure (book_page page)
  handle (one_author id) p = do
    found ← Authors.find_author b (number_param id)
    pure (author (some found))
  handle (new_author dto) p = do made ← Authors.create_author b dto; pure (author made)
  handle (change_author id dto) p = do
    changed ← Authors.update_author b (number_param id) dto
    pure (author changed)
  handle (remove_author id) p = do _ ← Authors.delete_author b (number_param id); pure no_content
  handle (register_user u) p = do made ← Accounts.register b u; pure (session made)
  handle (login_user c) p = do made ← Accounts.login b c; pure (session made)
  handle profile p = do found ← Users.find_current_user b p; pure (user found)
  handle (all_users o) p = do page ← Users.find_users b o; pure (user_page page)
  handle (one_user id) p = do found ← Users.find_user b p (number_param id); pure (user found)
  handle (change_user id u) p = do
    changed ← Users.update_user b p (number_param id) u
    pure (user changed)
  handle (remove_user id) p = do _ ← Users.delete_user b (number_param id); pure no_content
  handle (change_password current new) p = do
    done ← Accounts.update_password b p.sub current new
    pure (success done)
  handle (my_favorites o) p = do page ← Users.get_favorites b p o; pure (favorite_page page)
  handle (new_favorite id) p = do
    row ← Users.add_favorite b p.sub (number_param id)
    pure (favorite row)
  handle (remove_favorite id) p = do
    _ ← Users.remove_favorite b p.sub (number_param id)
    pure no_content

  -- RolesGuard and PermissionsGuard, and the handler. On a public route no user is set, and the
  -- handler reads none.
  unfoldable pub serve_found : Route → Text → Option JwtPayload → Exec World Answer
  serve_found r path none = if is_public r then handle r no_user else raise forbidden
  serve_found r path (some p) = do
    lift (guard (has_required_role (required_roles r) (some p)) forbidden)
    _ ← lift (check_permissions (guarded_request r path) (some p))
    handle r p

  -- A request whose header holds the verified token, if any, and that Express matched with the route.
  -- It does so in any spelling of the fixed parts, so `path`, the `request.path` that
  -- PermissionsGuard reads, is any text.
  unfoldable pub serve : Route → Text → Option JwtPayload → Exec World Answer
  serve r path verified = do
    found ← lift (authenticate (is_public r) verified)
    serve_found r path found
