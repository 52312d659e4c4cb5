-- ===== src/Result.antt =====
-- Exceptions as values. An error is told apart as far as the code does: the HTTP exceptions of
-- NestJS by their class, a NocoDBException (src/nocodb/exceptions/nocodb.exception.ts) by its
-- status, an error of the HTTP client by the status of its response, if there is one. All others
-- (`Error`, `TypeError`) are `failure`. Messages are not modelled. `out_of_fuel` is no exception of
-- the source: a loop of the model used up its fuel.
use nocodb_middleware.Prelude.{ℕ, ◌≡◌, refl, Bool, true, false, Option, List, [], ◌∷◌}

pub data Error : Type 0 where
  bad_request unauthorized forbidden not_found conflict : Error
  nocodb_exception : ℕ → Error
  axios : Option ℕ → Error
  failure : Error
  out_of_fuel : Error

pub data Result {ℓ} (A : Type ℓ) : Type ℓ where
  err : Error → Result A
  ok : A → Result A

-- `if (!holds) throw error`.
abbrev pub guard : Bool → Error → Result (Unit {0})
guard false error = err error
guard true error = ok tt

infixl 5 ◌>>=◌
abbrev pub ◌>>=◌ {ℓ κ} : {A : Type ℓ} {B : Type κ} → Result A → (A → Result B) → Result B
err error >>= next = err error
ok value >>= next = next value

-- `list.map(f)` where `f` may throw.
unfoldable pub map_result {ℓ κ} :
    {A : Type ℓ} {B : Type κ} → (A → Result B) → List A → Result (List B)
map_result f [] = ok []
map_result f (x ∷ xs) = do y ← f x; ys ← map_result f xs; ok (y ∷ ys)

infixl 5 ◌>>◌
abbrev pub ◌>>◌ {ℓ} : {B : Type ℓ} → Result (Unit {0}) → Result B → Result B
first >> second = first >>= λ _. second

-- Inversion of a chain that returned.
pub >>=-eq-ok {ℓ κ} :
    {A : Type ℓ} {B : Type κ} (first : Result A) (next : A → Result B) {made : B}
    → (first >>= next) ≡ ok made
    → (value : A) × (first ≡ ok value) × (next value ≡ ok made)
>>=-eq-ok (err error) next returned = cc
>>=-eq-ok (ok value) next returned = (value, refl, returned)
