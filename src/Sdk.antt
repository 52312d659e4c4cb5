-- ===== src/Sdk.antt =====
-- The SDK's calls (client/src/services, `normaliseError` of client/src/http-client.ts). The HTTP
-- client is a parameter: the one of client/src/http-client.ts, with axios below it.
pub mod Encoding
pub mod Records
pub mod Admin
pub mod Setup
use nocodb_middleware.Prelude.{
  ℕ, Bool, true, false, Option, none, some, [], ◌∷◌, Text, codes, same, if◌then◌else◌,
}
use nocodb_middleware.Js.{int, pos, truthy_num, truthy_text}
use nocodb_middleware.Outside.{Method}
use nocodb_middleware.Sanitize
use nocodb_middleware.Sanitize.{Json, undefined, null, array, object, Members, end, member}

-- What a call throws: an error of the SDK, one of axios with the status of the response, if there is
-- one, or any other.
pub data Thrown : Type 0 where
  middleware_error : ℕ → Thrown
  axios_error : Option ℕ → Thrown
  other_error : Thrown

status_or_zero : Option ℕ → ℕ
status_or_zero none = 0
status_or_zero (some status) = status

-- The status code of the MiddlewareError.
unfoldable pub normalise_error : Thrown → ℕ
unfolding status_or_zero
normalise_error (middleware_error status) = status
normalise_error (axios_error status) = status_or_zero status
normalise_error other_error = 0

pub record SdkRequest : Type 0 where
  pub method : Method
  pub path : Text
  pub params : Members
  pub body : Json

pub data Answer : Type 0 where
  received : Json → Answer
  failed : Thrown → Answer

-- A MiddlewareError has its status; `broken` is an error that the SDK does not convert.
pub data Outcome {ℓ} (A : Type ℓ) : Type ℓ where
  rejected : ℕ → Outcome A
  broken : Outcome A
  resolved : A → Outcome A

unfoldable pub finish {ℓ} : {A : Type ℓ} → (Json → Option A) → Answer → Outcome A
finish read (received j) = elim (read j) [ none ↦ rejected 0 | some a ↦ resolved a ]
finish read (failed thrown) = rejected (normalise_error thrown)

-- `record[key]`; `none` is the TypeError of a read from `undefined` or `null`.
unfoldable pub own : Text → Members → Json
own key end = undefined
own key (member k v ms) = if same key k then v else own key ms

unfoldable pub field : Text → Json → Option Json
unfolding own
field key undefined = none
field key null = none
field key (object ms) = some (own key ms)
field key _ = some undefined

-- `Boolean(value)`
unfoldable pub truthy_json : Json → Bool
truthy_json undefined = false
truthy_json null = false
truthy_json (Sanitize.bool b) = b
truthy_json (Sanitize.num n) = truthy_num n
truthy_json (Sanitize.text t) = truthy_text t
truthy_json (array xs) = true
truthy_json (object ms) = true

-- Members that are `undefined` are not sent.
unfoldable pub optional : {A : Type 0} → Text → (A → Json) → Option A → Members → Members
optional key f none rest = rest
optional key f (some a) rest = member key (f a) rest

abbrev pub number : ℕ → Json
number n = Sanitize.num (int (pos n))

module _ {W : Type 0} (http : SdkRequest → W → Answer × W) where
  -- `try { … http … } catch (error) { throw normaliseError(error) }`; without a path nothing is sent.
  unfoldable pub call {ℓ} :
      {A : Type ℓ} → Method → Option Text → Members → Json → (Json → Option A) → W → Outcome A × W
  call method none params body read w = (rejected (normalise_error other_error), w)
  call method (some path) params body read w =
      let (answer, w') =
        http (record { method = method; path = path; params = params; body = body }) w in
      (finish read answer, w')
