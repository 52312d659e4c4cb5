-- ===== src/Example/Sending.antt =====
-- Which requests the services of the example backend send to NocoDB, as the properties of the
-- world that they keep (example/src/shared/services, example/src/books, authors and users).
pub mod Reads
pub mod Writes
pub mod Routes
use nocodb_middleware.Prelude.{
  ◌≡◌, Bool, true, false, not, refl, Option, none, some, List, [], ◌∷◌, Text, codes, map,
  if◌then◌else◌,
}
use nocodb_middleware.Js.{Num, Value, num, text, truthy}
use nocodb_middleware.Result.{Error, Result, ok, err, guard, failure, forbidden}
use nocodb_middleware.Effects.{Exec, pure, raise, lift, catch, traverse, ◌>>=◌, ◌>>◌}
use nocodb_middleware.Effects.Keeps.{Keeps, >>=-Keeps, catch-Keeps, if-Keeps, traverse-Keeps}
use nocodb_middleware.Types.{NocoRecord, get, users}
use nocodb_middleware.Example.Backend.{
  Backend, JwtPayload, Verb, Request, Payload, Reply, received, failed, listed, one, counted,
  nothing, ListOptions, list_params, records_path, record_path, count_path, get_request, http,
  answer, as_list, as_count, find_all, find_one, create, update, delete_record, count, count_params,
}
use nocodb_middleware.Example.Pages.{both}

-- The property is kept by every allowed request, by the clock and by the libraries.
pub record KeptBy (b : Backend) (Allowed : Request → Type 0) (P : Backend.World b → Type 0)
    : Type 0 where
  pub send : (r : Request) (w : Backend.World b) → Allowed r → P w → P (Backend.send b r w).1
  pub iso_now : (w : Backend.World b) → P w → P (Backend.iso_now b w).1
  pub hash : (t : Text) (w : Backend.World b) → P w → P (Backend.hash b t w).1
  pub sign : (p : JwtPayload) (w : Backend.World b) → P w → P (Backend.sign b p w).1

module _ {W A : Type 0} (P : W → Type 0) where
  -- What follows a check may use that it let through.
  pub guarded-Keeps :
      (c : Bool) (e : Error) (m : Exec W A)
      → (c ≡ true → Keeps P m)
      → Keeps P (lift (guard c e) >> m)
  guarded-Keeps true e m k = k refl
  guarded-Keeps false e m k = λ w h. h

module _ {W A B : Type 0} (P : W → Type 0) where
  pub lifted-Keeps :
      (r : Result A) (f : A → Exec W B)
      → ((a : A) → r ≡ ok a → Keeps P (f a))
      → Keeps P (lift r >>= f)
  lifted-Keeps (ok a) f k = k a refl
  lifted-Keeps (err e) f k = λ w h. h

  pub both-Keeps : (m : Exec W A) (n : Exec W B) → Keeps P m → Keeps P n → Keeps P (both m n)
  unfolding both
  both-Keeps m n first second w h = second (m w).1 (first w h)

module _ (b : Backend) (P : Backend.World b → Type 0) where
  answer-Keeps : (r : Reply) → Keeps P (answer b r)
  unfolding answer
  answer-Keeps (received p) w h = h
  answer-Keeps (failed status) w h = h

  as_list-Keeps : (p : Payload) → Keeps {S = Backend.World b} P (as_list p)
  unfolding as_list
  as_list-Keeps (listed (some rows)) w h = h
  as_list-Keeps (listed none) w h = h
  as_list-Keeps (one r) w h = h
  as_list-Keeps (counted n) w h = h
  as_list-Keeps nothing w h = h

  as_count-Keeps : (p : Payload) → Keeps {S = Backend.World b} P (as_count p)
  unfolding as_count
  as_count-Keeps (counted (some n)) w h = h
  as_count-Keeps (counted none) w h = h
  as_count-Keeps (listed rows) w h = h
  as_count-Keeps (one r) w h = h
  as_count-Keeps nothing w h = h

module _ (b : Backend) (Allowed : Request → Type 0) (P : Backend.World b → Type 0)
    (kept : KeptBy b Allowed P) where
  open b use {World}

  http-Keeps : (r : Request) → Allowed r → Keeps P (http b r)
  unfolding http
  http-Keeps r a w h = answer-Keeps b P (b.send r w).0 (b.send r w).1 (kept.send r w a h)

  asked-Keeps :
      {A : Type 0} (r : Request) (f : Payload → Exec World A)
      → Allowed r
      → ((p : Payload) → Keeps P (f p))
      → Keeps P (http b r >>= f)
  asked-Keeps r f a k = >>=-Keeps P (http b r) f (http-Keeps r a) k

  pub find_all-Keeps :
      (table : Text) (o : ListOptions)
      → Allowed (get_request (records_path table) (list_params o))
      → Keeps P (find_all b table o)
  unfolding find_all
  find_all-Keeps table o a = asked-Keeps _ as_list a (as_list-Keeps b P)

  pub find_one-Keeps :
      (table : Text) (id : Value)
      → Allowed (get_request (record_path table id) [])
      → Keeps P (find_one b table id)
  unfolding find_one
  find_one-Keeps table id a = asked-Keeps _ _ a (λ p w h. h)

  pub count-Keeps :
      (table w : Text)
      → Allowed (get_request (count_path table) (count_params w))
      → Keeps P (count b table w)
  unfolding count
  count-Keeps table w a = asked-Keeps _ as_count a (as_count-Keeps b P)

  pub create-Keeps :
      (table : Text) (fields : NocoRecord)
      → Allowed (record { verb = Verb.post; path = records_path table; params = []; body = fields })
      → Keeps P (create b table fields)
  unfolding create
  create-Keeps table fields a = asked-Keeps _ _ a (λ p w h. h)

  pub update-Keeps :
      (table : Text) (id : Value) (fields : NocoRecord)
      → Allowed
          (record { verb = Verb.patch; path = record_path table id; params = []; body = fields })
      → Keeps P (update b table id fields)
  unfolding update
  update-Keeps table id fields a = asked-Keeps _ _ a (λ p w h. h)

  pub delete_record-Keeps :
      (table : Text) (id : Value)
      → Allowed (record { verb = Verb.delete; path = record_path table id; params = []; body = [] })
      → Keeps P (delete_record b table id)
  unfolding delete_record
  delete_record-Keeps table id a = asked-Keeps _ _ a (λ p w h. h)
