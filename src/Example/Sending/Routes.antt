-- ===== src/Example/Sending/Routes.antt =====
-- What the routes of the example backend send behind the check of roles (the controllers under
-- example/src), for users that are no administrators.
use nocodb_middleware.Prelude.{◌≡◌, Bool, true, false, refl, some, List, [], Text, codes, arith}
use nocodb_middleware.Js.{Value}
use nocodb_middleware.Result.{ok, forbidden}
use nocodb_middleware.Effects.{Exec, pure, ◌>>=◌}
use nocodb_middleware.Effects.Keeps.{Keeps, >>=-Keeps}
use nocodb_middleware.Example.Backend.{Backend, JwtPayload, Request, get_request}
use nocodb_middleware.Example.Pages.{role_is, PaginationParams}
use nocodb_middleware.Example.Books
use nocodb_middleware.Example.Books.{list_books}
use nocodb_middleware.Example.Authors
use nocodb_middleware.Example.Users
use nocodb_middleware.Example.Users.{
  UpdateUser, favorites, safe_data, defined, favorite_data, may_access, is_self,
}
use nocodb_middleware.Example.Guards.{has_required_role, authenticate, validate, check_permissions}
use nocodb_middleware.Example.Server.{
  Route, is_public, required_roles, guarded_request, handle, serve_found, serve,
}
use nocodb_middleware.Example.Sending.{KeptBy, guarded-Keeps, lifted-Keeps}
use nocodb_middleware.Example.Sending.Reads.{
  list_books-Keeps, find_book-Keeps, list_authors-Keeps, find_author-Keeps, find_current_user-Keeps,
  find_user-Keeps, get_favorites-Keeps,
}

-- A role that is no administrator's passes no check for administrators.
not_admin :
    (p : JwtPayload)
    → role_is (codes "admin") p.role ≡ false
    → has_required_role (required_roles (Route.remove_book [])) (some p) ≡ true
    → ⊥
unfolding has_required_role required_roles
not_admin p user h = ground arith

-- The routes on which users other than administrators write.
unfoldable pub is_own_route : Route → Bool
is_own_route (Route.change_user id u) = true
is_own_route (Route.change_password c n) = true
is_own_route (Route.new_favorite id) = true
is_own_route (Route.remove_favorite id) = true
is_own_route _ = false

pub wrapped-Keeps :
    {W A B : Type 0} (P : W → Type 0) (m : Exec W A) (f : A → B)
    → Keeps P m
    → Keeps P (m >>= λ a. pure (f a))
wrapped-Keeps P m f k = >>=-Keeps P m _ k (λ a w h. h)

module _ (b : Backend) (Allowed : Request → Type 0) (P : Backend.World b → Type 0)
    (kept : KeptBy b Allowed P)
    (gets : (path : Text) (params : List (Text × Value)) → Allowed (get_request path params)) where
  open b use {World, parse_number, decode}

  pub page-Keeps : (w : Text) (q : PaginationParams) → Keeps P (list_books b w q)
  page-Keeps w q = list_books-Keeps b Allowed P kept (λ id. gets _ _) w q (gets _ _) (gets _ _)

  -- Behind the check of roles, the other routes only read.
  handle-Keeps :
      (r : Route) (p : JwtPayload)
      → role_is (codes "admin") p.role ≡ false
      → is_public r ≡ false
      → has_required_role (required_roles r) (some p) ≡ true
      → (is_own_route r ≡ true → Keeps P (handle b r p))
      → Keeps P (handle b r p)
  unfolding handle is_public required_roles is_own_route Books.find_page Books.search
      Books.find_by_author Books.find_by_price_range Authors.find_authors Authors.search_authors
      Authors.get_books_by_author
  handle-Keeps (Route.all_books o) p u n h k =
      wrapped-Keeps P (Books.find_page b p o) _ (page-Keeps _ _)
  handle-Keeps (Route.search_books q o) p u n h k =
      wrapped-Keeps P (Books.search b p q o) _ (page-Keeps _ _)
  handle-Keeps (Route.books_of_author id o) p u n h k =
      wrapped-Keeps P (Books.find_by_author b p (parse_number (decode id)) o) _ (page-Keeps _ _)
  handle-Keeps (Route.books_by_price low high o) p u n h k =
      wrapped-Keeps P (Books.find_by_price_range b p (parse_number low) (parse_number high) o) _
        (page-Keeps _ _)
  handle-Keeps (Route.one_book id) p u n h k =
      wrapped-Keeps P (Books.find_book b (parse_number (decode id)) (some p)) _ (
        find_book-Keeps b Allowed P kept (λ id. gets _ _) (parse_number (decode id)) (some p)
          (gets _ _))
  handle-Keeps (Route.new_book dto) p u n h k = absurd (not_admin p u h)
  handle-Keeps (Route.change_book id dto) p u n h k = absurd (not_admin p u h)
  handle-Keeps (Route.remove_book id) p u n h k = absurd (not_admin p u h)
  handle-Keeps (Route.all_authors o) p u n h k =
      wrapped-Keeps P (Authors.find_authors b o) _ (list_authors-Keeps b Allowed P kept gets _ _)
  handle-Keeps (Route.search_authors q o) p u n h k =
      wrapped-Keeps P (Authors.search_authors b q o) _
        (list_authors-Keeps b Allowed P kept gets _ _)
  handle-Keeps (Route.author_books id o) p u n h k =
      wrapped-Keeps P (Authors.get_books_by_author b p (parse_number (decode id)) o) _
        (page-Keeps _ _)
  handle-Keeps (Route.one_author id) p u n h k =
      wrapped-Keeps P (Authors.find_author b (parse_number (decode id))) _
        (find_author-Keeps b Allowed P kept gets (parse_number (decode id)))
  handle-Keeps (Route.new_author dto) p u n h k = absurd (not_admin p u h)
  handle-Keeps (Route.change_author id dto) p u n h k = absurd (not_admin p u h)
  handle-Keeps (Route.remove_author id) p u n h k = absurd (not_admin p u h)
  handle-Keeps (Route.register_user u) p _ n h k = absurd (ground arith)
  handle-Keeps (Route.login_user c) p u n h k = absurd (ground arith)
  handle-Keeps Route.profile p u n h k =
      wrapped-Keeps P (Users.find_current_user b p) _
        (find_current_user-Keeps b Allowed P kept gets p)
  handle-Keeps (Route.all_users o) p u n h k = absurd (not_admin p u h)
  handle-Keeps (Route.one_user id) p u n h k =
      wrapped-Keeps P (Users.find_user b p (parse_number (decode id))) _
        (find_user-Keeps b Allowed P kept gets p (parse_number (decode id)))
  handle-Keeps (Route.change_user id u) p _ n h k = k refl
  handle-Keeps (Route.remove_user id) p u n h k = absurd (not_admin p u h)
  handle-Keeps (Route.change_password c m) p u n h k = k refl
  handle-Keeps (Route.my_favorites o) p u n h k =
      wrapped-Keeps P (Users.get_favorites b p o) _ (get_favorites-Keeps b Allowed P kept gets p o)
  handle-Keeps (Route.new_favorite id) p u n h k = k refl
  handle-Keeps (Route.remove_favorite id) p u n h k = k refl

  -- A route that is not public, for a user that both guards let through.
  pub serve-Keeps :
      (r : Route) (path : Text) (p : JwtPayload)
      → role_is (codes "admin") p.role ≡ false
      → is_public r ≡ false
      → (has_required_role (required_roles r) (some p) ≡ true
          → (a : Bool) → check_permissions (guarded_request b r path) (some p) ≡ ok a
          → is_own_route r ≡ true
          → Keeps P (handle b r p))
      → Keeps P (serve b r path (some p))
  unfolding serve serve_found authenticate validate
  serve-Keeps r path p u n k = rw n (
      guarded-Keeps P (has_required_role (required_roles r) (some p)) forbidden _ (λ roles.
        lifted-Keeps P (check_permissions (guarded_request b r path) (some p)) _
          (λ a e. handle-Keeps r p u n roles (k roles a e))))
