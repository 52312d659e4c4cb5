-- ===== src/Example/Privileges.antt =====
-- What the users of the example backend can make it write (example/src/shared/guards, the
-- controllers and services of example/src).
use nocodb_middleware.Prelude.{
  ◌≡◌, ◌⊎◌, inl, inr, true, false, refl, ap, sym, some, List, [], ◌∷◌, ◌++◌, Text, codes, same,
  arith,
}
use nocodb_middleware.Js.{
  Num, Value, undefined, num, text, equal_num, same_num_iff, nan, infinite, int, large, frac,
}
use nocodb_middleware.Result.{Result}
use nocodb_middleware.Effects.Keeps.{Keeps}
use nocodb_middleware.Types.{get, users}
use nocodb_middleware.Example.Backend.{
  Backend, JwtPayload, Verb, Request, records_path, record_path, get_request,
}
use nocodb_middleware.Example.Pages.{role_is}
use nocodb_middleware.Example.Accounts
use nocodb_middleware.Example.Users
use nocodb_middleware.Example.Users.{
  UpdateUser, favorites, safe_data, defined, favorite_data, may_access, is_self,
}
use nocodb_middleware.Example.Server.{Route, is_public, handle, serve}
use nocodb_middleware.Example.Sending.{KeptBy}
use nocodb_middleware.Example.Sending.Routes.{is_own_route, wrapped-Keeps, serve-Keeps}
use nocodb_middleware.Example.Sending.Writes.{
  update_user-Keeps, update_password-Keeps, add_favorite-Keeps, remove_favorite-Keeps,
}

abbrev pub IsRead : Request → Type 0
IsRead r = r.verb ≡ Verb.get

-- A change of the user's own account that leaves its role alone, a favorite for the user, or the
-- deletion of a favorite.
abbrev pub IsOwnWrite : Value → Request → Type 0
IsOwnWrite sub r =
    ((r.verb ≡ Verb.patch)
      × (r.path ≡ record_path users sub)
      × (get (codes "role") r.body ≡ undefined))
    ⊎ (((r.verb ≡ Verb.post)
          × (r.path ≡ records_path favorites)
          × (get (codes "user_id") r.body ≡ sub))
        ⊎ ((r.verb ≡ Verb.delete) × (id : Value) × (r.path ≡ record_path favorites id)))

abbrev pub IsOwn : Value → Request → Type 0
IsOwn sub r = IsRead r ⊎ IsOwnWrite sub r

safe_data-role : (u : UpdateUser) (date : Text) → get (codes "role") (safe_data u date) ≡ undefined
unfolding safe_data get same
safe_data-role u date = with_name u.username u.email
  where
    with_email :
        (e : Value)
        → get (codes "role") (defined (codes "email") e ++ ((codes "updated_at", text date) ∷ []))
          ≡ undefined
    with_email undefined = refl
    with_email e = refl

    with_name :
        (n e : Value)
        → get (codes "role") (
            defined (codes "username") n
            ++ (defined (codes "email") e ++ ((codes "updated_at", text date) ∷ [])))
          ≡ undefined
    with_name undefined e = with_email e
    with_name n e = with_email e

eq_of_equal_num : (m n : Num) → equal_num m n ≡ true → m ≡ n
unfolding equal_num
eq_of_equal_num nan n h = absurd (ground arith)
eq_of_equal_num (infinite s) n h = (same_num_iff (infinite s) n).0 h
eq_of_equal_num (int z) n h = (same_num_iff (int z) n).0 h
eq_of_equal_num (large t) n h = (same_num_iff (large t) n).0 h
eq_of_equal_num (frac t) n h = (same_num_iff (frac t) n).0 h

self_eq : (sub : Value) (id : Num) → is_self sub id ≡ true → num id ≡ sub
unfolding is_self
self_eq (num n) id h = ap num (sym (eq_of_equal_num n id h))
self_eq _ id h = absurd (ground arith)

own_account :
    (p : JwtPayload) (id : Num)
    → role_is (codes "admin") p.role ≡ false
    → may_access p id ≡ true
    → num id ≡ p.sub
unfolding may_access
own_account p id user h = self_eq p.sub id (ground arith)

get_request-IsRead : (path : Text) (params : List (Text × Value)) → IsRead (get_request path params)
unfolding get_request
get_request-IsRead path params = refl

module _ (b : Backend) (P : Backend.World b → Type 0) (p : JwtPayload)
    (kept : KeptBy b (IsOwn p.sub) P) (user : role_is (codes "admin") p.role ≡ false) where
  open b use {World, parse_number, decode}

  get_request-IsOwn :
      (path : Text) (params : List (Text × Value)) → IsOwn p.sub (get_request path params)
  get_request-IsOwn path params = inl (get_request-IsRead path params)

  own_route-Keeps : (r : Route) → is_own_route r ≡ true → Keeps P (handle b r p)
  unfolding is_own_route handle get same favorite_data
  own_route-Keeps (Route.change_user id u) h =
      let n = parse_number (decode id) in
      wrapped-Keeps P (Users.update_user b p n u) _ (
        update_user-Keeps b (IsOwn p.sub) P kept get_request-IsOwn p n u (λ mine date.
          inr (
            inl (refl, ap (record_path users) (own_account p n user mine), safe_data-role u date))))
  own_route-Keeps (Route.change_password c m) h =
      wrapped-Keeps P (Accounts.update_password b p.sub c m) _ (
        update_password-Keeps b (IsOwn p.sub) P kept get_request-IsOwn p.sub c m
          (λ hash date. inr (inl (refl, refl, refl))))
  own_route-Keeps (Route.new_favorite id) h =
      wrapped-Keeps P (Users.add_favorite b p.sub (parse_number (decode id))) _ (
        add_favorite-Keeps b (IsOwn p.sub) P kept get_request-IsOwn p.sub (parse_number (decode id))
          (inr (inr (inl (refl, refl, refl)))))
  own_route-Keeps (Route.remove_favorite id) h =
      wrapped-Keeps P (Users.remove_favorite b p.sub (parse_number (decode id))) _ (
        remove_favorite-Keeps b (IsOwn p.sub) P kept get_request-IsOwn p.sub
          (parse_number (decode id)) (λ id. inr (inr (inr (refl, id, refl)))))
  own_route-Keeps _ h = absurd (ground arith)

-- A request to change the own password.
abbrev pub IsPasswordChange : Route → Type 0
IsPasswordChange (Route.change_password c m) = Unit
IsPasswordChange _ = ⊥

-- A user that is no administrator makes the backend send nothing but reads of NocoDB and own
-- writes: changes of the own account that leave its role alone, favorites for the user, and
-- deletions of favorites. The writes of registration and login are not among them.
pub serve-IsOwn :
    (b : Backend) (P : Backend.World b → Type 0) (r : Route) (path : Text) (p : JwtPayload)
    → KeptBy b (IsOwn p.sub) P
    → role_is (codes "admin") p.role ≡ false
    → is_public r ≡ false
    → Keeps P (serve b r path (some p))
serve-IsOwn b P r path p kept user n =
    serve-Keeps b (IsOwn p.sub) P kept (get_request-IsOwn b P p kept user) r path p user n
      (λ roles a e own. own_route-Keeps b P p kept user r own)
