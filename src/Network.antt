-- ===== src/Network.antt =====
-- Who may ask, and how often: CORS origins (src/config/cors.config.ts) and the keys and limits of
-- the rate limiters (src/nocodb/middleware/rate-limit.middleware.ts). The counting itself and
-- `ipKeyGenerator` are of the library express-rate-limit; the generator is a parameter.
pub mod Origins
pub mod Addresses
use nocodb_middleware.Prelude.{
  ℕ, ◌*◌, Bool, true, false, not, ◌&&◌, ◌||◌, Option, none, some, List, [], ◌∷◌, ◌++◌, map, filter,
  Text, codes, same, trim, split, strip_prefix, includes_text, any, all, leb, ◌==◌, if◌then◌else◌,
}
use nocodb_middleware.Js.{Num, num_text}
use nocodb_middleware.Result.{Result, ok, guard, failure}

pub data CorsWarning : Type 0 where
  not_set any_origin local_origin : CorsWarning

pub data CorsError : Type 0 where
  wildcard : CorsError

pub record CorsValidation : Type 0 where
  pub origins : List Text
  pub warnings : List CorsWarning
  pub errors : List CorsError

-- `valid`
unfoldable pub is_valid : CorsValidation → Bool
is_valid v = elim v.warnings [ [] ↦ elim v.errors [ [] ↦ true | _ ∷ _ ↦ false ] | _ ∷ _ ↦ false ]

-- `filter(Boolean)`
is_filled : Text → Bool
is_filled [] = false
is_filled (c ∷ t) = true

text_or_empty : Option Text → Text
text_or_empty none = []
text_or_empty (some t) = t

unfoldable pub cors_origins : Option Text → List Text
unfolding is_filled text_or_empty
cors_origins raw = filter is_filled (map trim (split (λ c. c == b',') (text_or_empty raw)))

unfoldable pub is_wildcard : Text → Bool
is_wildcard origin = same origin (codes "*")

unfoldable pub origin_errors : Bool → List Text → List CorsError
origin_errors production [] = []
origin_errors production (o ∷ os) =
    let rest = origin_errors production os in
    if is_wildcard o && production then wildcard ∷ rest else rest

unfoldable pub origin_warnings : Bool → List Text → List CorsWarning
origin_warnings production [] = []
origin_warnings production (o ∷ os) =
    let rest = origin_warnings production os in
    let local_ones =
      if production && includes_text (codes "localhost") o then local_origin ∷ rest else rest in
    if is_wildcard o && not production then any_origin ∷ local_ones else local_ones

cors_warnings : Bool → List Text → List CorsWarning
unfolding origin_warnings
cors_warnings production [] = not_set ∷ []
cors_warnings production (o ∷ os) = origin_warnings production (o ∷ os)

unfoldable pub parse_and_validate_cors_origins : Option Text → Bool → CorsValidation
unfolding cors_origins origin_errors cors_warnings
parse_and_validate_cors_origins raw production =
    let origins = cors_origins raw in
    record {
      origins = origins;
      warnings = cors_warnings production origins;
      errors = origin_errors production origins;
    }

has_error : List CorsError → Bool
has_error [] = false
has_error (e ∷ es) = true

-- What is left of the function without its log lines: it throws, or not.
unfoldable pub log_cors_warnings : CorsValidation → Bool → Result (Unit {0})
unfolding has_error
log_cors_warnings v production = guard (not (has_error v.errors && production)) failure

abbrev pub rate_limit_window_ms : ℕ
rate_limit_window_ms = 15 * 60 * 1000

abbrev pub ip_rate_limit_max : ℕ
ip_rate_limit_max = 100

abbrev pub user_rate_limit_max : ℕ
user_rate_limit_max = 200

abbrev pub admin_rate_limit_max : ℕ
admin_rate_limit_max = 1000

-- `request.user` of the limiters; roles that are absent are `none`.
pub record LimitedUser : Type 0 where
  pub user_id : Option Num
  pub roles : Option (List Text)

pub record LimitedRequest : Type 0 where
  pub ip : Option Text
  pub user : Option LimitedUser

is_digit : ℕ → Bool
is_digit c = leb b'0' c && leb c b'9'

-- `\d+`
is_number : Text → Bool
unfolding is_digit
is_number [] = false
is_number (c ∷ t) = all is_digit (c ∷ t)

are_four_numbers : List Text → Bool
unfolding is_number
are_four_numbers (a ∷ b ∷ c ∷ d ∷ []) = is_number a && is_number b && is_number c && is_number d
are_four_numbers _ = false

-- `\d+\.\d+\.\d+\.\d+$`
unfoldable pub is_dotted_quad : Text → Bool
unfolding are_four_numbers
is_dotted_quad t = are_four_numbers (split (λ c. c == b'.') t)

abbrev pub mapped_prefix : Text
mapped_prefix = codes "::ffff:"

-- An IPv4 address that is mapped into IPv6 stands for itself.
unfoldable pub unmapped : Text → Text
unfolding is_dotted_quad
unmapped ip = elim (strip_prefix mapped_prefix ip) [
  | none ↦ ip
  | some rest ↦ if is_dotted_quad rest then rest else ip
]

module _ (ip_key_generator : Text → Text) where
  unfoldable pub address_key : Text → Text
  address_key [] = codes "unknown"
  address_key (c ∷ t) = ip_key_generator (c ∷ t)

  unfoldable pub client_ip_key : LimitedRequest → Text
  unfolding unmapped address_key
  client_ip_key req = elim req.ip [ none ↦ codes "unknown" | some ip ↦ address_key (unmapped ip) ]

  user_key : LimitedRequest → Option Num → Text
  user_key req none = client_ip_key req
  user_key req (some id) = codes "user:" ++ num_text id

  unfoldable pub user_rate_limit_key : LimitedRequest → Text
  unfolding user_key
  user_rate_limit_key req = elim req.user [
    | none ↦ client_ip_key req
    | some u ↦ user_key req u.user_id
  ]

-- `max` of the limiter of users.
unfoldable pub user_limit : Option LimitedUser → ℕ
user_limit none = user_rate_limit_max
user_limit (some u) = elim u.roles [
  | none ↦ user_rate_limit_max
  | some roles ↦
      if any (same (codes "admin")) roles then admin_rate_limit_max else user_rate_limit_max
]

-- What a limiter of the library does with a request: it calls back, with an error that has a status
-- or without one, or its handler answers 429.
pub data LimiterAnswer : Type 0 where
  passed : LimiterAnswer
  answered : LimiterAnswer
  failed : Option ℕ → LimiterAnswer

-- What `use` does: it goes on to the next handler, with or without an error, or not at all.
pub data Passage : Type 0 where
  next : Passage
  next_with : Option ℕ → Passage
  stopped : Passage

is_too_many : Option ℕ → Bool
is_too_many none = false
is_too_many (some status) = status == 429

by_address : LimiterAnswer → Passage
by_address passed = next
by_address answered = stopped
by_address (failed e) = next_with e

by_user : LimiterAnswer → Passage
unfolding is_too_many
by_user passed = next
by_user answered = stopped
by_user (failed e) = if is_too_many e then stopped else next_with e

-- The limiter of users is skipped without a user; the one of addresses is asked only then.
unfoldable pub use_limits :
    (LimitedRequest → LimiterAnswer) → (LimitedRequest → LimiterAnswer) → LimitedRequest → Passage
unfolding by_address by_user
use_limits user_limiter ip_limiter req = elim req.user [
  | none ↦ by_address (ip_limiter req)
  | some u ↦ by_user (user_limiter req)
]
