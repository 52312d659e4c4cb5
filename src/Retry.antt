-- ===== src/Retry.antt =====
-- Which failed requests may be sent again (src/nocodb/nocodb-retry.util.ts).
pub mod Safety
use nocodb_middleware.Prelude.{
  ℕ, ◌+◌, Bool, true, false, not, ◌&&◌, ◌||◌, Option, none, some, List, [], ◌∷◌, map, Text, codes,
  same, any, leb, ◌==◌, if◌then◌else◌,
}

-- What the decision reads of an error of the HTTP client.
pub record RequestError : Type 0 where
  pub status : Option ℕ
  pub method : Option Text
  pub code : Option Text

-- `toLowerCase`, which on the letters of the methods tested for is this.
unfoldable pub to_lower_case : Text → Text
to_lower_case = map (λ c. if leb b'A' c && leb c b'Z' then c + 32 else c)

unfoldable pub has : List Text → Text → Bool
has set t = any (same t) set

abbrev pub read_methods : List Text
read_methods = codes "get" ∷ codes "head" ∷ codes "options" ∷ []

abbrev pub transient_network_codes : List Text
transient_network_codes =
    codes "ECONNRESET"
    ∷ codes "ECONNREFUSED"
    ∷ codes "ETIMEDOUT"
    ∷ codes "ECONNABORTED"
    ∷ codes "EAI_AGAIN"
    ∷ codes "EPIPE"
    ∷ []

unfoldable pub is_read : Option Text → Bool
unfolding to_lower_case has
is_read none = false
is_read (some method) = has read_methods (to_lower_case method)

unfoldable pub is_transient : Option ℕ → Option Text → Bool
unfolding has
is_transient none none = false
is_transient none (some code) = has transient_network_codes code
is_transient (some status) code = leb 500 status

unfoldable pub is_too_many : Option ℕ → Bool
is_too_many none = false
is_too_many (some status) = status == 429

unfoldable pub should_retry_nocodb_request : RequestError → Bool
unfolding is_read is_transient is_too_many
should_retry_nocodb_request error =
    if is_too_many error.status
    then true
    else if not (is_read error.method)
    then false
    else is_transient error.status error.code
