-- ===== src/Frontend/Session.antt =====
-- The store of the session (example/frontend/src/stores/auth.ts).
pub mod Storage
use nocodb_middleware.Prelude.{
  Bool, true, false, Option, none, some, List, [], ◌∷◌, ◌++◌, Text, codes, same, if◌then◌else◌,
}
use nocodb_middleware.Js.{Num, num_text, truthy_num}

pub record User : Type 0 where
  pub id : Num
  pub username : Text
  pub email : Text
  pub role : Text

pub record AuthResponse : Type 0 where
  pub access_token : Text
  pub user : User

-- The refs of the store, and the item `token` of `localStorage`.
pub record Session : Type 0 where
  pub token : Option Text
  pub user : Option User
  pub loading : Bool
  pub error : Option Text
  pub stored_token : Option Text

-- `isAuthenticated`; an empty token is none.
unfoldable pub is_token : Option Text → Bool
is_token (some (c ∷ t)) = true
is_token _ = false

unfoldable pub is_authenticated : Session → Bool
unfolding is_token
is_authenticated s = is_token s.token

-- `user?.role === role`: `isAdmin`, `isUser` and `isGuest`.
unfoldable pub has_role : Text → Option User → Bool
has_role role none = false
has_role role (some u) = same u.role role

pub data RouteName : Type 0 where
  home login register books authors profile favorites admin : RouteName

-- A request of `api` with the token of its `Authorization` header, or a navigation.
pub data Effect : Type 0 where
  request : Text → Text → Option Text → Effect
  push : RouteName → Effect

-- The interceptor of `api`.
unfoldable pub bearer : Option Text → Option Text
bearer (some (c ∷ t)) = some (c ∷ t)
bearer _ = none

unfoldable pub new_session : Option Text → Session
new_session stored = record {
  token = stored;
  user = none;
  loading = false;
  error = none;
  stored_token = stored;
}

-- The actions of the store, cut at their awaits. A failure carries the message of the response,
-- if it has one; `signed_in` is the answer to `login` and to `register`, and `settled` the end of
-- the navigation behind it.
pub data Event : Type 0 where
  initialize initialize_failed log_out clear_error settled : Event
  initialized : Option User → Event
  sign_in sign_up : Event
  signed_in : AuthResponse → Event
  sign_in_failed sign_up_failed : Option Text → Event
  update_profile : Event
  profile_updated : User → Event
  update_profile_failed : Option Text → Event
  update_password password_updated : Event
  update_password_failed : Option Text → Event

-- `loading = true; error = null`
unfoldable pub start : Session → Session
start s = record s { loading = true; error = none }

-- `err.response?.data?.message || text`, and the end of `loading`.
unfoldable pub fail : Text → Option Text → Session → Session
fail text (some (c ∷ t)) s = record s { error = some (c ∷ t); loading = false }
fail text _ s = record s { error = some text; loading = false }

unfoldable pub send : Text → Text → Session → List Effect
send verb path s = request verb path (bearer s.token) ∷ []

-- `logout`
unfoldable pub log_out_of : Session → Session
log_out_of s = record s { token = none; user = none; error = none; stored_token = none }

-- `updateProfile` needs a user with an id.
unfoldable pub start_update : Option User → Session → List Effect × Session
start_update none s = ([], s)
start_update (some u) s =
    if truthy_num u.id
    then (send (codes "PUT") (codes "/users/" ++ num_text u.id) s, start s)
    else ([], s)

unfoldable pub on_event : Event → Session → List Effect × Session
on_event initialize s =
    if is_token s.token then (send (codes "GET") (codes "/users/me") s, start s) else ([], s)
on_event (initialized u) s = ([], record s { user = u; loading = false })
on_event initialize_failed s =
    (push RouteName.login ∷ [], record (log_out_of s) { loading = false })
on_event log_out s = (push RouteName.login ∷ [], log_out_of s)
on_event clear_error s = ([], record s { error = none })
on_event settled s = ([], record s { loading = false })
on_event sign_in s = (send (codes "POST") (codes "/users/login") s, start s)
on_event sign_up s = (send (codes "POST") (codes "/users/register") s, start s)
on_event (signed_in r) s = (
  push RouteName.home ∷ [],
  record s { token = some r.access_token; user = some r.user; stored_token = some r.access_token },
)
on_event (sign_in_failed m) s = ([], fail (codes "Login failed") m s)
on_event (sign_up_failed m) s = ([], fail (codes "Registration failed") m s)
on_event update_profile s = start_update s.user s
on_event (profile_updated u) s = ([], record s { user = some u; loading = false })
on_event (update_profile_failed m) s = ([], fail (codes "Failed to update profile") m s)
on_event update_password s = (send (codes "PUT") (codes "/users/me/password") s, start s)
on_event password_updated s = ([], record s { loading = false })
on_event (update_password_failed m) s = ([], fail (codes "Failed to update password") m s)

-- The effects of a history, each with the session behind it.
unfoldable pub history : List Event → Session → List (List Effect × Session)
history [] s = []
history (e ∷ es) s = on_event e s ∷ history es (on_event e s).1
