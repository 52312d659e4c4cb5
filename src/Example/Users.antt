-- ===== src/Example/Users.antt =====
-- UsersService of the example backend (example/src/users/users.service.ts).
use nocodb_middleware.Prelude.{
  Bool, false, not, ◌||◌, Option, none, some, List, [], ◌∷◌, ◌++◌, map, Text, codes, if◌then◌else◌,
}
use nocodb_middleware.Js.{
  Num, Value, undefined, num, text, equal_num, num_text, value_string, truthy,
}
use nocodb_middleware.Result.{not_found, forbidden, failure, guard}
use nocodb_middleware.Effects.{Exec, pure, raise, lift, catch, traverse, ◌>>=◌, ◌>>◌}
use nocodb_middleware.Types.{NocoRecord, get, users}
use nocodb_middleware.Example.Backend.{
  Backend, JwtPayload, find_all, find_one, create, update, delete_record, count,
}
use nocodb_middleware.Example.Pages.{
  PageOptions, Paged, get_pagination_params, build_pagination_meta, role_is, both,
}
use nocodb_middleware.Example.Books.{BookRow, books, authors, contains_either, require_found}
use nocodb_middleware.Example.Accounts.{
  without_hash, get_current_user, present, one_match, date_now,
}

abbrev pub favorites : Text
favorites = codes "favorites"

-- `{ ...fav, book }`, or the favorite alone.
pub record FavoriteRow : Type 0 where
  pub favorite : NocoRecord
  pub book : Option BookRow

-- An absent member is `undefined`.
pub record UpdateUser : Type 0 where
  pub username : Value
  pub email : Value

unfoldable pub all_users_condition : Option Text → Text
all_users_condition (some (c ∷ t)) = contains_either (codes "username") (codes "email") (c ∷ t)
all_users_condition _ = []

-- `sub === id`
unfoldable pub is_self : Value → Num → Bool
is_self (num n) id = equal_num n id
is_self _ id = false

-- `role === 'admin' || sub === id`
unfoldable pub may_access : JwtPayload → Num → Bool
unfolding is_self
may_access user id = role_is (codes "admin") user.role || is_self user.sub id

-- `if (value !== undefined) safeData[key] = value`
unfoldable pub defined : Text → Value → NocoRecord
defined key undefined = []
defined key value = (key, value) ∷ []

unfoldable pub safe_data : UpdateUser → Text → NocoRecord
unfolding defined
safe_data u date =
    defined (codes "username") u.username
    ++ (defined (codes "email") u.email ++ ((codes "updated_at", text date) ∷ []))

unfoldable pub own_condition : Value → Text
own_condition sub = codes "(user_id,eq," ++ (value_string sub ++ codes ")")

unfoldable pub favorite_condition : Value → Num → Text
unfolding own_condition
favorite_condition user_id book_id =
    own_condition user_id ++ (codes "~and~(book_id,eq," ++ (num_text book_id ++ codes ")"))

unfoldable pub favorite_data : Value → Num → NocoRecord
favorite_data user_id book_id = (codes "user_id", user_id) ∷ (codes "book_id", num book_id) ∷ []

-- `{ ...favorite }` of `null` has no members.
unfoldable pub spread : Option NocoRecord → NocoRecord
spread none = []
spread (some r) = r

module _ (b : Backend) where
  open b use {World}

  unfoldable pub current_found : Option NocoRecord → Exec World NocoRecord
  current_found none = raise not_found
  current_found (some user) = pure user

  unfoldable pub find_current_user : JwtPayload → Exec World NocoRecord
  find_current_user payload = do user ← get_current_user b payload; current_found user

  unfoldable pub find_users : PageOptions → Exec World (Paged NocoRecord)
  find_users o = do
    let p = get_pagination_params o (codes "username")
    found ←
        both
          (find_all b users (record {
            where_text = some (all_users_condition o.search);
            limit = some p.limit;
            offset = some p.offset;
            sort_by = some p.sort_by;
            sort_order = some p.sort_order;
          }))
          (count b users (all_users_condition o.search))
    pure (build_pagination_meta (map without_hash found.0) found.1 p.page p.limit)

  unfoldable pub find_user : JwtPayload → Num → Exec World NocoRecord
  find_user current id = do
    lift (guard (may_access current id) forbidden)
    found ← find_one b users (num id)
    user ← current_found found
    pure (without_hash user)

  unfoldable pub update_user : JwtPayload → Num → UpdateUser → Exec World NocoRecord
  unfolding present
  update_user current id u = do
    lift (guard (may_access current id) forbidden)
    existing ← find_one b users (num id)
    require_found b existing
    date ← date_now b
    updated ← update b users (num id) (safe_data u date)
    user ← present b updated
    pure (without_hash user)

  unfoldable pub delete_user : Num → Exec World (Unit {0})
  delete_user id = do
    existing ← find_one b users (num id)
    require_found b existing
    delete_record b users (num id)

  -- The book of a favorite with its author; any error leaves the favorite as it is.
  unfoldable pub linked_author : NocoRecord → Exec World BookRow
  linked_author book =
      let id = get (codes "author_id") book in
      if not (truthy id)
      then pure (record { book = book; author = none })
      else do author ← find_one b authors id; pure (record { book = book; author = some author })

  unfoldable pub load_favorite : NocoRecord → Exec World FavoriteRow
  load_favorite favorite = do
    found ← find_one b books (get (codes "book_id") favorite)
    book ← present b found
    row ← linked_author book
    pure (record { favorite = favorite; book = some row })

  unfoldable pub enrich_favorite : NocoRecord → Exec World FavoriteRow
  enrich_favorite favorite =
      catch (load_favorite favorite) (λ _. pure (record { favorite = favorite; book = none }))

  unfoldable pub get_favorites : JwtPayload → PageOptions → Exec World (Paged FavoriteRow)
  get_favorites user o = do
    let p = get_pagination_params o (codes "title")
    found ←
        both
          (find_all b favorites (record {
            where_text = some (own_condition user.sub);
            limit = some p.limit;
            offset = some p.offset;
            sort_by = some p.sort_by;
            sort_order = some p.sort_order;
          }))
          (count b favorites (own_condition user.sub))
    rows ← traverse enrich_favorite found.0
    pure (build_pagination_meta rows found.1 p.page p.limit)

  -- The enrichment of a new favorite ignores errors of the author only.
  unfoldable pub enriched : NocoRecord → NocoRecord → Exec World FavoriteRow
  enriched favorite book = do
    row ← catch (linked_author book) (λ _. pure (record { book = book; author = none }))
    pure (record { favorite = favorite; book = some row })

  unfoldable pub add_unless : Value → Num → NocoRecord → List NocoRecord → Exec World FavoriteRow
  unfolding spread
  add_unless user_id book_id book (existing ∷ rest) = raise failure
  add_unless user_id book_id book [] = do
    made ← create b favorites (favorite_data user_id book_id)
    enriched (spread made) book

  unfoldable pub book_or_missing : Option NocoRecord → Exec World NocoRecord
  book_or_missing none = raise not_found
  book_or_missing (some book) = pure book

  unfoldable pub add_favorite : Value → Num → Exec World FavoriteRow
  unfolding one_match
  add_favorite user_id book_id = do
    found ← find_one b books (num book_id)
    book ← book_or_missing found
    existing ← find_all b favorites (one_match (favorite_condition user_id book_id))
    add_unless user_id book_id book existing

  unfoldable pub remove_first : List NocoRecord → Exec World (Unit {0})
  remove_first [] = raise not_found
  remove_first (favorite ∷ rest) = delete_record b favorites (get (codes "id") favorite)

  unfoldable pub remove_favorite : Value → Num → Exec World (Unit {0})
  unfolding one_match
  remove_favorite user_id book_id = do
    found ← find_all b favorites (one_match (favorite_condition user_id book_id))
    remove_first found
