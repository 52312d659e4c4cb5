-- ===== src/Nocodb/Setup.antt =====
-- The configuration of NocoDBService (src/nocodb/nocodb.service.ts): what `onModuleInit` demands,
-- the clients that it makes, and the delay of a retry, in exact numbers.
use native.Mathlib.Nat.{mul-div-le, mul-le-mul, le_of_mul-le-mul_left, min-le_right}
use nocodb_middleware.Prelude.{
  ℕ, zero, suc, ◌+◌, ◌-◌, ◌*◌, ◌/◌, ◌≤◌, ◌<◌, min, Option, none, some, List, [], ◌∷◌, Text, codes,
  arith,
}
use nocodb_middleware.Result.{Result, ok, err, failure, ◌>>=◌}

-- What ConfigService answers for the keys of the service.
pub record NocodbConfig : Type 0 where
  pub api_url : Option Text
  pub api_token : Option Text
  pub base_id : Option Text
  pub table_prefix : Option Text
  pub retry_count : Option ℕ
  pub retry_base_delay : Option ℕ
  pub retry_max_delay : Option ℕ

-- A client with its base address and headers.
pub record ClientSettings : Type 0 where
  pub base_url : Text
  pub headers : List (Text × Text)

pub record RetrySettings : Type 0 where
  pub retries : ℕ
  pub base_delay : ℕ
  pub max_delay : ℕ

pub record NocodbSetup : Type 0 where
  pub sdk_client : ClientSettings
  pub http_client : ClientSettings
  pub retry : RetrySettings
  pub base_id : Text
  pub table_prefix : Text

-- `config.get(key, d)`
configured : {A : Type 0} → Option A → A → A
configured none d = d
configured (some a) d = a

-- `if (!value) throw new Error(…)`
needed : Option Text → Result Text
needed (some (c ∷ t)) = ok (c ∷ t)
needed _ = err failure

-- The constructor's `|| ''`, and the defaults.
unfoldable pub on_module_init : NocodbConfig → Result NocodbSetup
unfolding configured needed
on_module_init c = do
  url ← needed c.api_url
  token ← needed c.api_token
  base ← needed c.base_id
  ok (record {
    sdk_client = record { base_url = url; headers = (codes "xc-auth", token) ∷ [] };
    http_client = record {
      base_url = url;
      headers = (codes "xc-token", token) ∷ (codes "Content-Type", codes "application/json") ∷ [];
    };
    retry = record {
      retries = configured c.retry_count 3;
      base_delay = configured c.retry_base_delay 1000;
      max_delay = configured c.retry_max_delay 10000;
    };
    base_id = base;
    table_prefix = configured c.table_prefix [];
  })

-- 2 ^ n
doublings : ℕ → ℕ
doublings zero = 1
doublings (suc n) = 2 * doublings n

-- `retryDelay`: the n-th retry, counted from 1. `Math.random()` is `part / whole`; the sum of the
-- delay and the jitter of at most a quarter is rounded.
unfoldable pub capped_delay : RetrySettings → ℕ → ℕ
unfolding doublings
capped_delay r n = min (r.base_delay * doublings (n - 1)) r.max_delay

unfoldable pub retry_delay : RetrySettings → ℕ → ℕ → ℕ → ℕ
retry_delay r n part whole =
    (2 * (capped_delay r n * (3 * whole + 2 * part)) + 4 * whole) / (8 * whole)

-- No delay before a retry is longer than one and a quarter of the maximal delay, rounded to the
-- nearest integer, however many retries there were and whatever the random number below 1.
pub retry_delay-le :
    (r : RetrySettings) (n part whole : ℕ)
    → part < whole
    → 4 * retry_delay r n part whole ≤ 5 * r.max_delay + 2
unfolding retry_delay capped_delay
retry_delay-le r n part whole h =
    let d = min (r.base_delay * doublings (n - 1)) r.max_delay in
    let total = 2 * (d * (3 * whole + 2 * part)) + 4 * whole in
    let q = total / (8 * whole) in
    let d_le : d ≤ r.max_delay = min-le_right (r.base_delay * doublings (n - 1)) r.max_delay in
    let parts : 3 * whole + 2 * part ≤ 5 * whole = omega arith in
    let scaled = mul-le-mul d_le parts in
    let divided : 8 * whole * q ≤ total = mul-div-le total (8 * whole) in
    let cancelled : 8 * q ≤ 10 * r.max_delay + 4 =
      le_of_mul-le-mul_left {k = whole} (grind arith) (omega arith) in
    omega arith
