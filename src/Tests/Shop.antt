-- ===== src/Tests/Shop.antt =====
-- Runs of the example backend.
use nocodb_middleware.Example.Accounts.{session_for}
use nocodb_middleware.Example.Accounts.{register_unless}
use nocodb_middleware.Example.Accounts.{register}
use nocodb_middleware.Js.{truthy}
use nocodb_middleware.Example.Users.{linked_author}
use nocodb_middleware.Example.Users.{enriched}
use nocodb_middleware.Example.Backend.{create}
use nocodb_middleware.Example.Users.{add_unless}
use nocodb_middleware.Example.Backend.{as_list}
use nocodb_middleware.Types.{get}
use nocodb_middleware.Js.{to_number}
use nocodb_middleware.Example.Books.{at_least_ten}
use nocodb_middleware.Example.Backend.{update}
use nocodb_middleware.Example.Backend.{find_all}
use nocodb_middleware.Example.Users.{book_or_missing}
use nocodb_middleware.Example.Users.{add_favorite}
use nocodb_middleware.Js.{truthy_num}
use nocodb_middleware.Example.Books.{is_dear}
use nocodb_middleware.Js.{value_string}
use nocodb_middleware.Example.Books.{book_found}
use nocodb_middleware.Example.Books.{find_book}
use nocodb_middleware.Example.Accounts.{date_now}
use nocodb_middleware.Example.Backend.{as_data}
use nocodb_middleware.Example.Books.{require_found}
use nocodb_middleware.Example.Backend.{answer}
use nocodb_middleware.Example.Backend.{http}
use nocodb_middleware.Example.Backend.{find_one}
use nocodb_middleware.Js.{equal_num}
use nocodb_middleware.Example.Users.{may_access}
use nocodb_middleware.Example.Users.{update_user}
use nocodb_middleware.Example.Server.{handle}
use nocodb_middleware.Example.Guards.{check_own}
use nocodb_middleware.Example.Guards.{method_to_action}
use nocodb_middleware.Types.{has_action}
use nocodb_middleware.Example.Guards.{lookup_table}
use nocodb_middleware.Example.Guards.{permissions_of}
use nocodb_middleware.Example.Server.{request_method}
use nocodb_middleware.Example.Server.{guarded_request}
use nocodb_middleware.Prelude.{includes_text}
use nocodb_middleware.Example.Guards.{extract_table}
use nocodb_middleware.Example.Guards.{check_permissions}
use nocodb_middleware.Example.Guards.{validate}
use nocodb_middleware.Example.Server.{required_roles}
use nocodb_middleware.Example.Guards.{has_required_role}
use nocodb_middleware.Example.Server.{serve_found}
use nocodb_middleware.Example.Guards.{authenticate}
use nocodb_middleware.Prelude.{
  ◌≡◌, ◌⊎◌, refl, true, false, none, some, List, [], ◌∷◌, map, Text, codes, same, All,
  if◌then◌else◌,
}
use nocodb_middleware.Js.{Num, int, pos, num, text, undefined}
use nocodb_middleware.Result.{ok, err, forbidden, unauthorized, not_found}
use nocodb_middleware.Types.{NocoRecord, users}
use nocodb_middleware.Effects.Returns.{OnOk}
use nocodb_middleware.Example.Backend.{
  Backend, JwtPayload, Verb, Request, Payload, received, records_path, record_path, count_path,
  get_request,
}
use nocodb_middleware.Example.Pages.{PageOptions, role_is, is_guest}
use nocodb_middleware.Example.Accounts.{hash_key}
use nocodb_middleware.Example.Server.{Route, is_public, serve}
use nocodb_middleware.Example.Sending.{KeptBy}
use nocodb_middleware.Example.Privileges.{IsRead, IsOwn, serve-IsOwn}
use nocodb_middleware.Example.Registration.{IsRegistration, serve_public-IsRegistration}
use nocodb_middleware.Example.Secrets.{HidesHash, serve-HidesHash}
use nocodb_middleware.Effects.Keeps.{Keeps}
use nocodb_middleware.Example.Accounts.{update_password, change_password}

abbrev one : Num
one = int (pos 1)

abbrev stored : NocoRecord
stored =
    (codes "id", num one)
    ∷ (codes "username", text (codes "ann"))
    ∷ (hash_key, text (codes "h"))
    ∷ (codes "price", num (int (pos 12)))
    ∷ (codes "author_id", num one)
    ∷ []

-- Accounts are listed to no one; any other list has one record.
abbrev answer_to : Text → Payload
answer_to path =
    if same path (records_path users)
    then Payload.listed none
    else if same path (records_path (codes "books"))
    then Payload.listed (some (stored ∷ []))
    else if same path (records_path (codes "favorites"))
    then Payload.listed none
    else if same path (count_path (codes "books"))
    then Payload.counted (some 1)
    else Payload.one stored

-- Every request is noted.
abbrev shop : Backend
shop = record {
  World = List Request;
  send = λ r w. (received (answer_to r.path), r ∷ w);
  iso_now = λ w. (codes "now", w);
  hash = λ t w. (ok (codes "hash"), w);
  compare = λ t v. ok true;
  sign = λ p w. (ok (codes "token"), w);
  decode = λ t. t;
  parse_number = λ t. one;
  parse_int = λ t. one;
}

-- The same, but that identifiers are read as another number.
abbrev other_shop : Backend
other_shop = record shop { parse_number = λ t. int (pos 2) }

noted-KeptBy : (Allowed : Request → Type 0) → KeptBy shop Allowed (All Allowed)
noted-KeptBy Allowed = record {
  send = λ r w a h. (a, h);
  iso_now = λ w h. h;
  hash = λ t w h. h;
  sign = λ p w h. h;
}

abbrev payload : Text → JwtPayload
payload role = record {
  sub = num one;
  username = text (codes "ann");
  email = text (codes "a@b");
  role = text role;
}

abbrev ann : JwtPayload
ann = payload (codes "user")

abbrev visitor : JwtPayload
visitor = payload (codes "guest")

abbrev defaults : PageOptions
defaults = record { page = none; limit = none; sort_by = none; sort_order = none; search = none }

abbrev renaming : Route
renaming =
    Route.change_user (codes "1") (record { username = text (codes "anna"); email = undefined })

abbrev registration : Route
registration = Route.register_user (record {
  username = codes "u";
  email = codes "e";
  password = codes "p";
  role = some (codes "admin");
})

abbrev renaming_path : Text
renaming_path = codes "/api/users/1"

abbrev registration_path : Text
registration_path = codes "/api/users/register"

abbrev profile_path : Text
profile_path = codes "/api/users/me"

abbrev book_path : Text
book_path = codes "/api/books/1"

ann_role : role_is (codes "admin") ann.role ≡ false
unfolding role_is same
ann_role = refl

visitor_role : role_is (codes "guest") visitor.role ≡ true
unfolding role_is same
visitor_role = refl

visitor_guest : is_guest visitor ≡ true
unfolding is_guest
visitor_guest = visitor_role

-- Ann renames herself: the record is looked up and changed.
renaming_runs :
    map (λ r. r.verb) (serve shop renaming renaming_path (some ann) []).1
    ≡ Verb.patch ∷ Verb.get ∷ []
unfolding serve authenticate is_public serve_found has_required_role required_roles role_is validate
    same check_permissions extract_table includes_text guarded_request request_method permissions_of
    lookup_table has_action method_to_action check_own handle update_user may_access equal_num
    find_one http answer require_found as_data get_request record_path count_path date_now update
renaming_runs = refl

-- Another account is out of reach.
other_refused : (serve other_shop renaming renaming_path (some ann) []) ≡ (err forbidden, [])
unfolding serve authenticate is_public serve_found has_required_role required_roles role_is validate
    same check_permissions extract_table includes_text guarded_request request_method permissions_of
    lookup_table has_action method_to_action check_own handle update_user may_access equal_num
other_refused = refl

registration_runs :
    map {B = Text} (λ r. r.path) (serve shop registration registration_path none []).1
    ≡ records_path users ∷ records_path users ∷ []
unfolding serve authenticate is_public serve_found handle register find_all http answer as_list same
    get_request records_path register_unless create as_data session_for
registration_runs = refl

-- In the spelling of the routes a guest cannot see the own profile or change the own password.
guest_profile : serve shop Route.profile profile_path (some visitor) [] ≡ (err forbidden, [])
unfolding serve authenticate is_public serve_found has_required_role required_roles role_is validate
    same check_permissions extract_table includes_text guarded_request request_method permissions_of
    lookup_table has_action method_to_action
guest_profile = refl

guest_password :
    serve shop
      (Route.change_password (codes "a") (codes "b"))
      (codes "/api/users/me/password")
      (some visitor)
      []
    ≡ (err forbidden, [])
unfolding serve authenticate is_public serve_found has_required_role required_roles role_is validate
    same check_permissions extract_table includes_text guarded_request request_method permissions_of
    lookup_table has_action method_to_action
guest_password = refl

-- In capitals the path names no table, and the password is changed.
guest_password_in_capitals :
    map
      (λ r. r.verb)
      (serve shop
        (Route.change_password (codes "a") (codes "b"))
        (codes "/API/users/me/password")
        (some visitor)
        []).1
    ≡ Verb.patch ∷ Verb.get ∷ []
unfolding serve authenticate is_public serve_found has_required_role required_roles role_is validate
    same check_permissions extract_table includes_text guarded_request request_method handle
    find_one http answer as_data get_request record_path count_path date_now update update_password
    change_password
guest_password_in_capitals = refl

guest_book :
    serve shop (Route.one_book (codes "1")) book_path (some visitor) []
    ≡ (err not_found, (get_request (record_path (codes "books") (num one)) []) ∷ [])
unfolding serve authenticate is_public serve_found has_required_role required_roles role_is validate
    same check_permissions extract_table includes_text guarded_request request_method permissions_of
    lookup_table has_action method_to_action check_own handle find_book find_one http answer
    book_found as_data get_request record_path count_path value_string is_guest is_dear at_least_ten
    to_number get
guest_book = refl

no_token : serve shop Route.profile profile_path none [] ≡ (err unauthorized, [])
unfolding serve authenticate is_public
no_token = refl

favorite_runs :
    map
      (λ r. r.verb)
      (serve shop
        (Route.new_favorite (codes "1"))
        (codes "/api/users/me/favorites/1")
        (some ann)
        []).1
    ≡ Verb.get ∷ Verb.post ∷ Verb.get ∷ Verb.get ∷ []
unfolding serve authenticate is_public serve_found has_required_role required_roles role_is validate
    same check_permissions extract_table includes_text guarded_request request_method permissions_of
    lookup_table has_action method_to_action check_own truthy_num handle add_favorite find_one http
    answer book_or_missing as_data get_request record_path count_path value_string find_all as_list
    add_unless create enriched linked_author truthy get
favorite_runs = refl

serve-IsOwn_example : All (IsOwn (num one)) (serve shop renaming renaming_path (some ann) []).1
unfolding is_public
serve-IsOwn_example =
    serve-IsOwn shop (All (IsOwn (num one))) renaming renaming_path ann
      (noted-KeptBy (IsOwn (num one))) ann_role refl [] tt

abbrev IsPublicWrite : Request → Type 0
IsPublicWrite r = IsRead r ⊎ IsRegistration r

serve_public-IsRegistration_example :
    All IsPublicWrite (serve shop registration registration_path none []).1
unfolding is_public
serve_public-IsRegistration_example =
    serve_public-IsRegistration shop (All IsPublicWrite) registration registration_path none
      (noted-KeptBy IsPublicWrite) refl [] tt

serve-HidesHash_example : OnOk HidesHash (serve shop Route.profile profile_path (some ann) []).0
serve-HidesHash_example = serve-HidesHash shop Route.profile profile_path (some ann) []
