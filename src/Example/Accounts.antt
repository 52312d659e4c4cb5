-- ===== src/Example/Accounts.antt =====
-- AuthService of the example backend (example/src/shared/services/auth.service.ts): bcrypt and the
-- signing of tokens are the backend's. Its handlers log an error, and throw it again unless the
-- function here catches it.
use nocodb_middleware.Prelude.{
  Bool, true, not, Option, none, some, List, [], ◌∷◌, ◌++◌, Text, codes, same, filter,
  if◌then◌else◌,
}
use nocodb_middleware.Js.{Value, text}
use nocodb_middleware.Result.{ok, guard, unauthorized, failure}
use nocodb_middleware.Effects.{Exec, pure, raise, lift, catch, ◌>>=◌, ◌>>◌}
use nocodb_middleware.Types.{NocoRecord, get, users}
use nocodb_middleware.Example.Backend.{
  Backend, JwtPayload, ListOptions, find_all, find_one, create, update,
}

pub record Credentials : Type 0 where
  pub username : Text
  pub password : Text

-- The payload may name a role.
pub record NewUser : Type 0 where
  pub username : Text
  pub email : Text
  pub password : Text
  pub role : Option Text

pub record AuthResponse : Type 0 where
  pub access_token : Text
  pub user : NocoRecord

-- `(first,eq,${a})~or~(second,eq,${b})`
eq_either : Text → Text → Text
eq_either name email =
    codes "(username,eq," ++ (name ++ (codes ")~or~(email,eq," ++ (email ++ codes ")")))

abbrev pub hash_key : Text
hash_key = codes "password_hash"

-- `const { password_hash, ...rest } = user`
unfoldable pub without_hash : NocoRecord → NocoRecord
without_hash r = filter (λ f. not (same f.0 hash_key)) r

unfoldable pub shown : Option NocoRecord → Option NocoRecord
shown none = none
shown (some user) = some (without_hash user)

unfoldable pub payload_of : NocoRecord → JwtPayload
payload_of user = record {
  sub = get (codes "id") user;
  username = get (codes "username") user;
  email = get (codes "email") user;
  role = get (codes "role") user;
}

-- The record of a new account; the role is never taken from the client.
unfoldable pub user_data : NewUser → Text → NocoRecord
user_data u password_hash =
    (codes "username", text u.username)
    ∷ (codes "email", text u.email)
    ∷ (hash_key, text password_hash)
    ∷ (codes "role", text (codes "user"))
    ∷ []

unfoldable pub one_match : Text → ListOptions
one_match w = record {
  where_text = some w;
  limit = some 1;
  offset = none;
  sort_by = none;
  sort_order = none;
}

-- The user name or email of the credentials.
unfoldable pub by_name : Credentials → ListOptions
unfolding eq_either
by_name c = one_match (eq_either c.username c.username)

-- What a registration would repeat.
unfoldable pub by_either : NewUser → ListOptions
unfolding eq_either
by_either u = one_match (eq_either u.username u.email)

module _ (b : Backend) where
  open b use {World, iso_now, hash, compare, sign}

  unfoldable pub check_password : Text → List NocoRecord → Exec World (Option NocoRecord)
  check_password password [] = pure none
  check_password password (user ∷ rest) = do
    valid ← lift (compare password (get hash_key user))
    pure (if valid then some user else none)

  unfoldable pub validate_user : Credentials → Exec World (Option NocoRecord)
  validate_user c =
      catch (do found ← find_all b users (by_name c); check_password c.password found)
        (λ _. pure none)

  -- The token and the user without the hash.
  unfoldable pub session_for : NocoRecord → Exec World AuthResponse
  session_for user = do
    token ← sign (payload_of user)
    pure (record { access_token = token; user = without_hash user })

  unfoldable pub login_as : Option NocoRecord → Exec World AuthResponse
  login_as none = raise unauthorized
  login_as (some user) = session_for user

  unfoldable pub login : Credentials → Exec World AuthResponse
  login c = do user ← validate_user c; login_as user

  -- A user that NocoDB did not answer is `null`, on which every access throws.
  unfoldable pub present : Option NocoRecord → Exec World NocoRecord
  present none = raise failure
  present (some r) = pure r

  unfoldable pub register_unless : NewUser → List NocoRecord → Exec World AuthResponse
  unfolding present
  register_unless u (existing ∷ rest) = raise failure
  register_unless u [] = do
    password_hash ← hash u.password
    made ← create b users (user_data u password_hash)
    user ← present made
    session_for user

  unfoldable pub register : NewUser → Exec World AuthResponse
  register u = do existing ← find_all b users (by_either u); register_unless u existing

  unfoldable pub get_current_user : JwtPayload → Exec World (Option NocoRecord)
  get_current_user payload =
      catch (do user ← find_one b users payload.sub; pure (shown user)) (λ _. pure none)

  -- `new Date().toISOString()`
  unfoldable pub date_now : Exec World Text
  date_now w = let (t, w') = iso_now w in (ok t, w')

  unfoldable pub change_password : Value → Text → Text → Option NocoRecord → Exec World Bool
  change_password user_id current_password new_password none = raise failure
  change_password user_id current_password new_password (some user) = do
    valid ← lift (compare current_password (get hash_key user))
    lift (guard valid failure)
    password_hash ← hash new_password
    date ← date_now
    _ ←
        update b users user_id
          ((hash_key, text password_hash) ∷ (codes "updated_at", text date) ∷ [])
    pure true

  unfoldable pub update_password : Value → Text → Text → Exec World Bool
  update_password user_id current_password new_password = do
    user ← find_one b users user_id
    change_password user_id current_password new_password user
