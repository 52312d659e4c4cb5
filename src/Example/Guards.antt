-- ===== src/Example/Guards.antt =====
-- The guards of the example backend (example/src/shared/guards), which run in the order of
-- example/src/app.module.ts, and its JwtStrategy (example/src/shared/strategies).
use nocodb_middleware.Prelude.{
  ℕ, ◌+◌, leb, Bool, true, false, not, ◌&&◌, ◌||◌, Option, none, some, List, [], ◌∷◌, Text, codes,
  same, any, map, strip_prefix, includes_text, if◌then◌else◌,
}
use nocodb_middleware.Js.{Num, Value, num, equal_num, truthy_num}
use nocodb_middleware.Result.{Result, ok, err, guard, forbidden, unauthorized, ◌>>◌}
use nocodb_middleware.Types.{CrudAction, create, read, update, delete, Actions, has_action, users}
use nocodb_middleware.Example.Backend.{JwtPayload}
use nocodb_middleware.Example.Pages.{role_is}

-- `validate` of the strategy: the payload of a token whose signature passport has checked.
unfoldable pub validate : JwtPayload → JwtPayload
validate payload = record {
  sub = payload.sub;
  username = payload.username;
  email = payload.email;
  role = payload.role;
}

-- JwtAuthGuard: `verified` is what passport's guard finds in the header.
unfoldable pub authenticate : Bool → Option JwtPayload → Result (Option JwtPayload)
authenticate true verified = ok none
authenticate false none = err unauthorized
authenticate false (some payload) = ok (some (validate payload))

-- A role alone, or a configuration, of which only the role is read.
pub data RequiredRole : Type 0 where
  named : Text → RequiredRole
  configured : Text → Option Text → Option Text → RequiredRole

required_name : RequiredRole → Text
required_name (named r) = r
required_name (configured r table action) = r

-- RolesGuard; `none` is a route without roles. Nest answers `false` with a ForbiddenException.
unfoldable pub has_required_role : Option (List RequiredRole) → Option JwtPayload → Bool
unfolding required_name
has_required_role none user = true
has_required_role (some rs) none = false
has_required_role (some rs) (some user) = any (λ r. role_is (required_name r) user.role) rs

-- PERMISSIONS, the matrix of a role and a table.
actions : Bool → Bool → Bool → Bool → Actions
actions r c u d = record { has_read = r; has_create = c; has_update = u; has_delete = d }

unfoldable pub admin_permissions : List (Text × Actions)
unfolding actions
admin_permissions =
    (codes "authors", actions true true true true)
    ∷ (codes "books", actions true true true true)
    ∷ (codes "users", actions true true true true)
    ∷ (codes "favorites", actions true true true true)
    ∷ []

unfoldable pub user_permissions : List (Text × Actions)
unfolding actions
user_permissions =
    (codes "authors", actions true false false false)
    ∷ (codes "books", actions true false false false)
    ∷ (codes "users", actions true false true false)
    ∷ (codes "favorites", actions true true false true)
    ∷ []

unfoldable pub guest_permissions : List (Text × Actions)
unfolding actions
guest_permissions =
    (codes "authors", actions true false false false)
    ∷ (codes "books", actions true false false false)
    ∷ (codes "users", actions false false false false)
    ∷ (codes "favorites", actions false false false false)
    ∷ []

unfoldable pub permissions_of : Value → Option (List (Text × Actions))
unfolding admin_permissions user_permissions guest_permissions
permissions_of role =
    if role_is (codes "admin") role
    then some admin_permissions
    else if role_is (codes "user") role
    then some user_permissions
    else if role_is (codes "guest") role
    then some guest_permissions
    else none

unfoldable pub lookup_table : Text → List (Text × Actions) → Option Actions
lookup_table table [] = none
lookup_table table ((t, a) ∷ rest) = if same t table then some a else lookup_table table rest

-- `methodToAction`
unfoldable pub method_to_action : Text → CrudAction
method_to_action m =
    if same m (codes "GET")
    then read
    else if same m (codes "POST")
    then create
    else if same m (codes "PUT") || same m (codes "PATCH")
    then update
    else if same m (codes "DELETE")
    then delete
    else read

is_letter : ℕ → Bool
is_letter c = (leb b'a' c && leb c b'z') || (leb b'A' c && leb c b'Z')

-- ASCII, which is all that the flag `i` of the pattern folds here.
lower : ℕ → ℕ
lower c = if leb b'A' c && leb c b'Z' then c + 32 else c

leading_letters : Text → Text
unfolding is_letter
leading_letters [] = []
leading_letters (c ∷ t) = if is_letter c then c ∷ leading_letters t else []

-- The letters behind `/api/` at this place, if there are any.
table_here : Text → Option Text
unfolding leading_letters
table_here path = elim (strip_prefix (codes "/api/") path) [
  | none ↦ none
  | some rest ↦ elim (leading_letters rest) [ [] ↦ none | c ∷ t ↦ some (c ∷ t) ]
]

or_later : Option Text → Option Text → Option Text
or_later (some t) later = some t
or_later none later = later

-- The first match of `/\/api\/([a-zA-Z]+)/`.
table_match : Text → Option Text
unfolding table_here or_later
table_match [] = none
table_match (c ∷ path) = or_later (table_here (c ∷ path)) (table_match path)

-- `extractTableAndAction`
unfoldable pub extract_table : Text → Option Text
unfolding lower table_match
extract_table path =
    if includes_text (codes "/api/users/me/favorites") (map lower path)
    then some (codes "favorites")
    else table_match path

-- The parameters of the route that the guard reads; an absent one parses as NaN.
pub record GuardedRequest : Type 0 where
  pub method : Text
  pub path : Text
  pub id : Num
  pub user_id : Num

-- `n && n !== sub`
is_other : Num → Value → Bool
is_other n (num m) = truthy_num n && not (equal_num n m)
is_other n _ = truthy_num n

is_read : CrudAction → Bool
is_read read = true
is_read _ = false

unfoldable pub check_own : GuardedRequest → Text → CrudAction → JwtPayload → Result Bool
unfolding is_other is_read
check_own req table action user = do
  guard
      (not (
        same table users
        && (role_is (codes "user") user.role && (is_read action && is_other req.id user.sub))))
      forbidden
  guard
      (not (
        same table (codes "favorites")
        && (role_is (codes "user") user.role && is_other req.user_id user.sub)))
      forbidden
  ok true

unfoldable pub check_actions :
    GuardedRequest → Text → CrudAction → JwtPayload → Option Actions → Result Bool
check_actions req table action user none = err forbidden
check_actions req table action user (some a) = do
  guard (has_action action a) forbidden
  check_own req table action user

unfoldable pub check_role :
    GuardedRequest → Text → CrudAction → JwtPayload → Option (List (Text × Actions)) → Result Bool
unfolding check_actions
check_role req table action user none = err forbidden
check_role req table action user (some p) =
    check_actions req table action user (lookup_table table p)

unfoldable pub check_table_access : GuardedRequest → JwtPayload → Option Text → Result Bool
unfolding check_role
check_table_access req user none = ok true
check_table_access req user (some table) =
    check_role req table (method_to_action req.method) user (permissions_of user.role)

-- PermissionsGuard on a route that is not public.
unfoldable pub check_permissions : GuardedRequest → Option JwtPayload → Result Bool
unfolding check_table_access
check_permissions req none = err forbidden
check_permissions req (some user) = check_table_access req user (extract_table req.path)
