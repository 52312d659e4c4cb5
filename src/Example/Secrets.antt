-- ===== src/Example/Secrets.antt =====
-- What the answers of the example backend hold of an account (example/src/users/users.service.ts,
-- example/src/shared/services/auth.service.ts).
use nocodb_middleware.Prelude.{
  ◌≡◌, refl, inl, inr, Bool, true, false, Bool-cases, Option, none, some, List, [], ◌∷◌, Text,
  codes, same, same_iff, filter, map, All, arith,
}
use nocodb_middleware.Js.{Num, num, undefined}
use nocodb_middleware.Result.{Result, ok, err, guard, forbidden}
use nocodb_middleware.Effects.{Exec, pure, lift, catching, ◌>>=◌, ◌>>◌}
use nocodb_middleware.Effects.Returns.{Returns, OnOk, >>=-Returns, then-Returns}
use nocodb_middleware.Types.{NocoRecord, get, users}
use nocodb_middleware.Example.Backend.{
  Backend, JwtPayload, find_one, find_all, create, update, count,
}
use nocodb_middleware.Example.Pages.{
  PageOptions, Paged, get_pagination_params, build_pagination_meta, both,
}
use nocodb_middleware.Example.Books.{require_found}
use nocodb_middleware.Example.Books
use nocodb_middleware.Example.Authors
use nocodb_middleware.Example.Sending.Reads.{listing}
use nocodb_middleware.Example.Accounts.{hash_key, without_hash}
use nocodb_middleware.Example.Accounts
use nocodb_middleware.Example.Users
use nocodb_middleware.Example.Guards.{has_required_role, check_permissions, authenticate}
use nocodb_middleware.Example.Server
use nocodb_middleware.Example.Server.{
  Route, Answer, handle, required_roles, guarded_request, serve, serve_found, is_public,
}

abbrev pub Hides : NocoRecord → Type 0
Hides r = get hash_key r ≡ undefined

-- No account of the answer has a password hash.
abbrev pub HidesHash : Answer → Type 0
HidesHash (Answer.user u) = Hides u
HidesHash (Answer.user_page page) = All Hides page.rows
HidesHash (Answer.session s) = Hides s.user
HidesHash _ = Unit

same-false : (s t : Text) → same s t ≡ false → same t s ≡ false
same-false s t h = ground (arith, same_iff s t, same_iff t s)

without_hash-Hides : (r : NocoRecord) → Hides (without_hash r)
unfolding without_hash get filter
without_hash-Hides [] = refl
without_hash-Hides ((k, v) ∷ r) = elim (Bool-cases (same k hash_key)) [
  | inl e ↦ rw e (without_hash-Hides r)
  | inr e ↦ rw e (rw (same-false k hash_key e) (without_hash-Hides r))
]

map-Hides : (rs : List NocoRecord) → All Hides (map without_hash rs)
map-Hides [] = tt
map-Hides (r ∷ rs) = (without_hash-Hides r, map-Hides rs)

abbrev HidesSession : Accounts.AuthResponse → Type 0
HidesSession s = Hides s.user

abbrev HidesOptional : Option NocoRecord → Type 0
HidesOptional none = Unit
HidesOptional (some r) = Hides r

shown-Hides : (found : Option NocoRecord) → HidesOptional (Accounts.shown found)
unfolding Accounts.shown
shown-Hides none = tt
shown-Hides (some r) = without_hash-Hides r

module _ {W : Type 0} where
  catching-Hides :
      (r : Result (Option NocoRecord)) (w : W)
      → OnOk HidesOptional r
      → OnOk HidesOptional (catching r (λ _. pure none) w).0
  catching-Hides (ok a) w h = h
  catching-Hides (err e) w h = tt

module _ (b : Backend) where
  open b use {World, parse_number, decode}

  session_for-Hides : (user : NocoRecord) → Returns HidesSession (Accounts.session_for b user)
  unfolding Accounts.session_for
  session_for-Hides user =
      then-Returns HidesSession (b.sign (Accounts.payload_of user)) _
        (λ t w. without_hash-Hides user)

  login-Hides : (c : Accounts.Credentials) → Returns HidesSession (Accounts.login b c)
  unfolding Accounts.login Accounts.login_as
  login-Hides c = then-Returns HidesSession (Accounts.validate_user b c) _ login_as-Hides
    where
      login_as-Hides : (user : Option NocoRecord) → Returns HidesSession (Accounts.login_as b user)
      login_as-Hides none = λ w. tt
      login_as-Hides (some user) = session_for-Hides user

  register-Hides : (u : Accounts.NewUser) → Returns HidesSession (Accounts.register b u)
  unfolding Accounts.register Accounts.register_unless
  register-Hides u = then-Returns HidesSession (find_all b users (Accounts.by_either u)) _ unless
    where
      unless : (found : List NocoRecord) → Returns HidesSession (Accounts.register_unless b u found)
      unless (r ∷ rest) = λ w. tt
      unless [] = then-Returns HidesSession (b.hash u.password) _ (λ hash.
          then-Returns HidesSession (create b users (Accounts.user_data u hash)) _
            (λ made. then-Returns HidesSession (Accounts.present b made) _ session_for-Hides))

  get_current_user-Hides : (p : JwtPayload) → Returns HidesOptional (Accounts.get_current_user b p)
  unfolding Accounts.get_current_user
  get_current_user-Hides p w =
      let m = find_one b users p.sub >>= λ user. pure (Accounts.shown user) in
      catching-Hides (m w).0 (m w).1
        (then-Returns HidesOptional (find_one b users p.sub) _ (λ found w. shown-Hides found) w)

  current_found-Hides :
      (found : Option NocoRecord)
      → HidesOptional found
      → Returns Hides (Users.current_found b found)
  unfolding Users.current_found
  current_found-Hides none h w = tt
  current_found-Hides (some user) h w = h

  find_current_user-Hides : (p : JwtPayload) → Returns Hides (Users.find_current_user b p)
  unfolding Users.find_current_user
  find_current_user-Hides p =
      >>=-Returns Hides HidesOptional (Accounts.get_current_user b p) _ (get_current_user-Hides p)
        current_found-Hides

  find_users-Hides :
      (o : PageOptions)
      → Returns (λ (page : Paged NocoRecord). All Hides page.rows) (Users.find_users b o)
  unfolding Users.find_users build_pagination_meta
  find_users-Hides o =
      let q = get_pagination_params o (codes "username") in
      let w = Users.all_users_condition o.search in
      then-Returns _ (both (find_all b users (listing w q)) (count b users w)) _
        (λ found w. map-Hides found.0)

  -- Behind the check of access.
  checked-Hides :
      (c : Bool) (m : Exec World NocoRecord)
      → Returns Hides m
      → Returns Hides (lift (guard c forbidden) >> m)
  checked-Hides true m h = h
  checked-Hides false m h = λ w. tt

  find_user-Hides : (p : JwtPayload) (id : Num) → Returns Hides (Users.find_user b p id)
  unfolding Users.find_user
  find_user-Hides p id = checked-Hides (Users.may_access p id) _ (
      then-Returns Hides (find_one b users (num id)) _ (λ found.
        then-Returns Hides (Users.current_found b found) _ (λ user w. without_hash-Hides user)))

  update_user-Hides :
      (p : JwtPayload) (id : Num) (u : Users.UpdateUser)
      → Returns Hides (Users.update_user b p id u)
  unfolding Users.update_user
  update_user-Hides p id u = checked-Hides (Users.may_access p id) _ (
      then-Returns Hides (find_one b users (num id)) _ (λ found.
        then-Returns Hides (require_found b found) _ (λ _.
          then-Returns Hides (Accounts.date_now b) _ (λ date.
            then-Returns Hides (update b users (num id) (Users.safe_data u date)) _ (λ changed.
              then-Returns Hides (Accounts.present b changed) _
                (λ user w. without_hash-Hides user))))))

  -- An answer that is only wrapped.
  wrapped-Hides :
      {A : Type 0} (Q : A → Type 0) (m : Exec World A) (f : A → Answer)
      → Returns Q m
      → ((a : A) → Q a → HidesHash (f a))
      → Returns HidesHash (m >>= λ a. pure (f a))
  wrapped-Hides Q m f h k = >>=-Returns HidesHash Q m _ h (λ a q w. k a q)

  plain-Hides :
      {A : Type 0} (m : Exec World A) (f : A → Answer)
      → ((a : A) → HidesHash (f a))
      → Returns HidesHash (m >>= λ a. pure (f a))
  plain-Hides m f k = then-Returns HidesHash m _ (λ a w. k a)

  handle-Hides : (r : Route) (p : JwtPayload) → Returns HidesHash (handle b r p)
  unfolding handle
  handle-Hides (Route.all_books o) p = plain-Hides (Books.find_page b p o) _ (λ a. tt)
  handle-Hides (Route.search_books q o) p = plain-Hides (Books.search b p q o) _ (λ a. tt)
  handle-Hides (Route.books_of_author id o) p =
      plain-Hides (Books.find_by_author b p (parse_number (decode id)) o) _ (λ a. tt)
  handle-Hides (Route.books_by_price low high o) p =
      plain-Hides (Books.find_by_price_range b p (parse_number low) (parse_number high) o) _
        (λ a. tt)
  handle-Hides (Route.one_book id) p =
      plain-Hides (Books.find_book b (parse_number (decode id)) (some p)) _ (λ a. tt)
  handle-Hides (Route.new_book dto) p = plain-Hides (Books.create_book b dto) _ (λ a. tt)
  handle-Hides (Route.change_book id dto) p =
      plain-Hides (Books.update_book b (parse_number (decode id)) dto) _ (λ a. tt)
  handle-Hides (Route.remove_book id) p =
      plain-Hides (Books.delete_book b (parse_number (decode id))) _ (λ a. tt)
  handle-Hides (Route.all_authors o) p = plain-Hides (Authors.find_authors b o) _ (λ a. tt)
  handle-Hides (Route.search_authors q o) p = plain-Hides (Authors.search_authors b q o) _ (λ a. tt)
  handle-Hides (Route.author_books id o) p =
      plain-Hides (Authors.get_books_by_author b p (parse_number (decode id)) o) _ (λ a. tt)
  handle-Hides (Route.one_author id) p =
      plain-Hides (Authors.find_author b (parse_number (decode id))) _ (λ a. tt)
  handle-Hides (Route.new_author dto) p = plain-Hides (Authors.create_author b dto) _ (λ a. tt)
  handle-Hides (Route.change_author id dto) p =
      plain-Hides (Authors.update_author b (parse_number (decode id)) dto) _ (λ a. tt)
  handle-Hides (Route.remove_author id) p =
      plain-Hides (Authors.delete_author b (parse_number (decode id))) _ (λ a. tt)
  handle-Hides (Route.register_user u) p =
      wrapped-Hides HidesSession (Accounts.register b u) _ (register-Hides u) (λ a h. h)
  handle-Hides (Route.login_user c) p =
      wrapped-Hides HidesSession (Accounts.login b c) _ (login-Hides c) (λ a h. h)
  handle-Hides Route.profile p =
      wrapped-Hides Hides (Users.find_current_user b p) _ (find_current_user-Hides p) (λ a h. h)
  handle-Hides (Route.all_users o) p =
      wrapped-Hides (λ (page : Paged NocoRecord). All Hides page.rows) (Users.find_users b o) _
        (find_users-Hides o) (λ a h. h)
  handle-Hides (Route.one_user id) p =
      let n = parse_number (decode id) in
      wrapped-Hides Hides (Users.find_user b p n) _ (find_user-Hides p n) (λ a h. h)
  handle-Hides (Route.change_user id u) p =
      let n = parse_number (decode id) in
      wrapped-Hides Hides (Users.update_user b p n u) _ (update_user-Hides p n u) (λ a h. h)
  handle-Hides (Route.remove_user id) p =
      plain-Hides (Users.delete_user b (parse_number (decode id))) _ (λ a. tt)
  handle-Hides (Route.change_password c m) p =
      plain-Hides (Accounts.update_password b p.sub c m) _ (λ a. tt)
  handle-Hides (Route.my_favorites o) p = plain-Hides (Users.get_favorites b p o) _ (λ a. tt)
  handle-Hides (Route.new_favorite id) p =
      plain-Hides (Users.add_favorite b p.sub (parse_number (decode id))) _ (λ a. tt)
  handle-Hides (Route.remove_favorite id) p =
      plain-Hides (Users.remove_favorite b p.sub (parse_number (decode id))) _ (λ a. tt)

  serve_found-Hides :
      (r : Route) (path : Text) (found : Option JwtPayload)
      → Returns HidesHash (serve_found b r path found)
  unfolding serve_found
  serve_found-Hides r path none = elim (Bool-cases (is_public r)) [
    | inl e ↦ rw e (handle-Hides r Server.no_user)
    | inr e ↦ rw e (λ w. tt)
  ]
  serve_found-Hides r path (some p) =
      then-Returns HidesHash
        (lift (guard (has_required_role (required_roles r) (some p)) forbidden)) _
        (λ _.
          then-Returns HidesHash (lift (check_permissions (guarded_request b r path) (some p))) _
            (λ a. handle-Hides r p))

-- Whatever is asked and by whom, no account that an answer holds has a member password_hash: not
-- the user of a session, not the profile, not a user that was read or changed, and none of a page.
pub serve-HidesHash :
    (b : Backend) (r : Route) (path : Text) (verified : Option JwtPayload)
    → Returns HidesHash (serve b r path verified)
unfolding serve
serve-HidesHash b r path verified =
    then-Returns HidesHash (lift (authenticate (is_public r) verified)) _
      (serve_found-Hides b r path)
