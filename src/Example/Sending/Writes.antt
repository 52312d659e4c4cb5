-- ===== src/Example/Sending/Writes.antt =====
-- The operations of the example backend that write (example/src/shared/services/auth.service.ts,
-- example/src/users/users.service.ts).
use nocodb_middleware.Prelude.{◌≡◌, true, Option, none, some, List, [], ◌∷◌, Text, codes}
use nocodb_middleware.Js.{Num, Value, num, text}
use nocodb_middleware.Result.{failure, forbidden}
use nocodb_middleware.Effects.{Exec, ◌>>=◌}
use nocodb_middleware.Effects.Keeps.{Keeps, >>=-Keeps}
use nocodb_middleware.Types.{NocoRecord, get, users}
use nocodb_middleware.Example.Backend.{
  Backend, JwtPayload, Verb, Request, records_path, record_path, get_request, find_all, find_one,
  create, update,
}
use nocodb_middleware.Example.Books.{books, require_found}
use nocodb_middleware.Example.Accounts.{
  NewUser, user_data, by_either, one_match, hash_key, register_unless, register, change_password,
  update_password, date_now, present,
}
use nocodb_middleware.Example.Users.{
  UpdateUser, favorites, safe_data, favorite_data, favorite_condition, may_access, update_user,
  add_unless, spread, book_or_missing, add_favorite, remove_first, remove_favorite,
}
use nocodb_middleware.Example.Sending.{
  KeptBy, guarded-Keeps, lifted-Keeps, find_all-Keeps, find_one-Keeps, create-Keeps, update-Keeps,
  delete_record-Keeps,
}
use nocodb_middleware.Example.Sending.Reads.{session_for-Keeps, present-Keeps, enriched-Keeps}

abbrev pub patch_request : Text → Value → NocoRecord → Request
patch_request table id fields = record {
  verb = Verb.patch;
  path = record_path table id;
  params = [];
  body = fields;
}

abbrev pub post_request : Text → NocoRecord → Request
post_request table fields = record {
  verb = Verb.post;
  path = records_path table;
  params = [];
  body = fields;
}

abbrev pub delete_request : Text → Value → Request
delete_request table id = record {
  verb = Verb.delete;
  path = record_path table id;
  params = [];
  body = [];
}

module _ (b : Backend) (Allowed : Request → Type 0) (P : Backend.World b → Type 0)
    (kept : KeptBy b Allowed P)
    (gets : (path : Text) (params : List (Text × Value)) → Allowed (get_request path params)) where
  open b use {World}

  require_found-Keeps : (found : Option NocoRecord) → Keeps P (require_found b found)
  unfolding require_found
  require_found-Keeps none w h = h
  require_found-Keeps (some r) w h = h

  date_now-Keeps : Keeps P (date_now b)
  unfolding date_now
  date_now-Keeps w h = kept.iso_now w h

  -- What is written for a known record.
  module _ (table : Text) (id : Value) where
    known-Keeps :
        {A : Type 0} (m : Exec World A)
        → Keeps P m
        → Keeps P (find_one b table id >>= λ found. require_found b found >>= λ _. m)
    known-Keeps m k =
        >>=-Keeps P (find_one b table id) _ (find_one-Keeps b Allowed P kept table id (gets _ _))
          (λ found. >>=-Keeps P (require_found b found) _ (require_found-Keeps found) (λ _. k))

  pub update_user-Keeps :
      (p : JwtPayload) (id : Num) (u : UpdateUser)
      → (may_access p id ≡ true
          → (date : Text) → Allowed (patch_request users (num id) (safe_data u date)))
      → Keeps P (update_user b p id u)
  unfolding update_user
  update_user-Keeps p id u a = guarded-Keeps P (may_access p id) forbidden _ (λ mine.
      known-Keeps users (num id) _ (
        >>=-Keeps P (date_now b) _ date_now-Keeps (λ date.
          >>=-Keeps P (update b users (num id) (safe_data u date)) _
            (update-Keeps b Allowed P kept users (num id) (safe_data u date) (a mine date))
            (λ changed.
              >>=-Keeps P (present b changed) _ (present-Keeps b Allowed P kept gets changed)
                (λ r w h. h)))))

  change_password-Keeps :
      (id : Value) (current new : Text) (found : Option NocoRecord)
      → ((hash date : Text)
          → Allowed (
              patch_request users id
                ((hash_key, text hash) ∷ (codes "updated_at", text date) ∷ [])))
      → Keeps P (change_password b id current new found)
  unfolding change_password
  change_password-Keeps id current new none a = λ w h. h
  change_password-Keeps id current new (some user) a =
      lifted-Keeps P (b.compare current (get hash_key user)) _ (λ valid e.
        guarded-Keeps P valid failure _ (λ right.
          >>=-Keeps P (b.hash new) _ (kept.hash new) (λ hash.
            >>=-Keeps P (date_now b) _ date_now-Keeps (λ date.
              >>=-Keeps P (update b users id _) _
                (update-Keeps b Allowed P kept users id _ (a hash date)) (λ _ w h. h)))))

  pub update_password-Keeps :
      (id : Value) (current new : Text)
      → ((hash date : Text)
          → Allowed (
              patch_request users id
                ((hash_key, text hash) ∷ (codes "updated_at", text date) ∷ [])))
      → Keeps P (update_password b id current new)
  unfolding update_password
  update_password-Keeps id current new a =
      >>=-Keeps P (find_one b users id) _ (find_one-Keeps b Allowed P kept users id (gets _ _))
        (λ found. change_password-Keeps id current new found a)

  add_unless-Keeps :
      (user_id : Value) (book_id : Num) (book : NocoRecord) (existing : List NocoRecord)
      → Allowed (post_request favorites (favorite_data user_id book_id))
      → Keeps P (add_unless b user_id book_id book existing)
  unfolding add_unless
  add_unless-Keeps user_id book_id book (r ∷ rest) a = λ w h. h
  add_unless-Keeps user_id book_id book [] a =
      >>=-Keeps P (create b favorites (favorite_data user_id book_id)) _
        (create-Keeps b Allowed P kept favorites (favorite_data user_id book_id) a)
        (λ made. enriched-Keeps b Allowed P kept (λ id. gets _ _) (spread made) book)

  book_or_missing-Keeps : (found : Option NocoRecord) → Keeps P (book_or_missing b found)
  unfolding book_or_missing
  book_or_missing-Keeps none w h = h
  book_or_missing-Keeps (some r) w h = h

  pub add_favorite-Keeps :
      (user_id : Value) (book_id : Num)
      → Allowed (post_request favorites (favorite_data user_id book_id))
      → Keeps P (add_favorite b user_id book_id)
  unfolding add_favorite
  add_favorite-Keeps user_id book_id a =
      let o = one_match (favorite_condition user_id book_id) in
      >>=-Keeps P (find_one b books (num book_id)) _
        (find_one-Keeps b Allowed P kept books (num book_id) (gets _ _))
        (λ found. >>=-Keeps P (book_or_missing b found) _ (book_or_missing-Keeps found) (λ book.
          >>=-Keeps P (find_all b favorites o) _
            (find_all-Keeps b Allowed P kept favorites o (gets _ _))
            (λ existing. add_unless-Keeps user_id book_id book existing a)))

  remove_first-Keeps :
      (found : List NocoRecord)
      → ((id : Value) → Allowed (delete_request favorites id))
      → Keeps P (remove_first b found)
  unfolding remove_first
  remove_first-Keeps [] a = λ w h. h
  remove_first-Keeps (r ∷ rest) a = delete_record-Keeps b Allowed P kept favorites _ (a _)

  pub remove_favorite-Keeps :
      (user_id : Value) (book_id : Num)
      → ((id : Value) → Allowed (delete_request favorites id))
      → Keeps P (remove_favorite b user_id book_id)
  unfolding remove_favorite
  remove_favorite-Keeps user_id book_id a =
      let o = one_match (favorite_condition user_id book_id) in
      >>=-Keeps P (find_all b favorites o) _
        (find_all-Keeps b Allowed P kept favorites o (gets _ _))
        (λ found. remove_first-Keeps found a)

  register_unless-Keeps :
      (u : NewUser) (existing : List NocoRecord)
      → ((hash : Text) → Allowed (post_request users (user_data u hash)))
      → Keeps P (register_unless b u existing)
  unfolding register_unless
  register_unless-Keeps u (r ∷ rest) a = λ w h. h
  register_unless-Keeps u [] a = >>=-Keeps P (b.hash u.password) _ (kept.hash u.password) (λ hash.
      >>=-Keeps P (create b users (user_data u hash)) _
        (create-Keeps b Allowed P kept users (user_data u hash) (a hash))
        (λ made.
          >>=-Keeps P (present b made) _ (present-Keeps b Allowed P kept gets made)
            (session_for-Keeps b Allowed P kept gets)))

  pub register-Keeps :
      (u : NewUser)
      → ((hash : Text) → Allowed (post_request users (user_data u hash)))
      → Keeps P (register b u)
  unfolding register
  register-Keeps u a =
      >>=-Keeps P (find_all b users (by_either u)) _
        (find_all-Keeps b Allowed P kept users (by_either u) (gets _ _))
        (λ existing. register_unless-Keeps u existing a)
