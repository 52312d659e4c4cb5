-- ===== src/Tests/Incoming.antt =====
-- Incoming requests: tokens, sanitizing, origins and addresses.
use nocodb_middleware.Prelude.{is_space}
use nocodb_middleware.Auth.Claims.{is_role_separator}
use nocodb_middleware.Prelude.{split}
use nocodb_middleware.Prelude.{starts_with}
use nocodb_middleware.Sanitize.{should_skip_sanitization}
use nocodb_middleware.Js.{num_text}
use nocodb_middleware.Prelude.{
  ℕ, ◌≡◌, refl, inl, inr, Bool, true, not, none, some, [], ◌∷◌, Text, codes, all, filter, ◌==◌,
  Bool-cases, arith,
}
use nocodb_middleware.Js.{int, pos}
use nocodb_middleware.Result.{ok}
use nocodb_middleware.Filter.{join}
use nocodb_middleware.Auth.{external}
use nocodb_middleware.Auth.Claims.{
  TokenPayload, string, number, absent, coerce_string, identity_of, normalize, parse_roles,
  parse_scope,
}
use nocodb_middleware.Auth.Claims.Normal.{IsNormal, normalize-IsNormal, parse-join}
use nocodb_middleware.Sanitize.{
  text, object, array, cons, nil, member, end, SanitizeOptions, HttpRequest, off, use_sanitizer,
}
use nocodb_middleware.Sanitize.Traversal.{Cleaned, use_sanitizer-Cleaned}
use nocodb_middleware.Network.{client_ip_key, is_dotted_quad}
use nocodb_middleware.Network.Addresses.{client_ip_key-mapped}

abbrev payload : TokenPayload
payload = record {
  sub = number (int (pos 7));
  email = string (codes " a@b.c ");
  username = absent;
  preferred_username = string (codes " ");
  roles = string (codes "editor, reader");
  role = absent;
  scope = absent;
  scp = string (codes "books:read books:write");
}

normalized : normalize payload external ≡ ok (identity_of payload external (codes "7"))
unfolding normalize num_text
normalized = refl

normalize-IsNormal_example :
    IsNormal (identity_of payload external (codes "7"))
    × (coerce_string payload.sub ≡ some (codes "7"))
unfolding identity_of
normalize-IsNormal_example =
    normalize-IsNormal payload external (identity_of payload external (codes "7")) normalized

parse-join_example :
    (parse_roles (string (join (b',' ∷ []) (codes "editor" ∷ codes "reader" ∷ [])))
      ≡ codes "editor" ∷ codes "reader" ∷ [])
    × (parse_scope (string (join (b' ' ∷ []) (codes "books:read" ∷ []))) ≡ codes "books:read" ∷ [])
unfolding is_role_separator is_space
parse-join_example =
    parse-join b',' b' ' (codes "editor" ∷ codes "reader" ∷ []) (codes "books:read" ∷ []) refl refl
      ((λ e. ground arith, refl), ((λ e. ground arith, refl), tt)) ((λ e. ground arith, refl), tt)

abbrev is_plain : ℕ → Bool
is_plain c = not (c == b'<')

abbrev without_tags : Unit {0} → Text → Text
without_tags c t = filter is_plain t

abbrev Plain : Text → Type 0
Plain t = all is_plain t ≡ true

filter-Plain : (t : Text) → Plain (filter is_plain t)
unfolding filter
filter-Plain [] = refl
filter-Plain (c ∷ t) = elim (Bool-cases (is_plain c)) [
  | inl k ↦ rw k (rw k (filter-Plain t))
  | inr k ↦ rw k (filter-Plain t)
]

abbrev options : SanitizeOptions (Unit {0})
options = record { body = none; query = some off; params = none; headers = none }

abbrev posted : HttpRequest
posted = record {
  path = codes "/data/books";
  body = object (member (codes "tags") (array (cons (text (codes "<b>hi")) nil)) end);
  query = object end;
  params = object end;
  headers = end;
}

use_sanitizer-Cleaned_example :
    let seen = use_sanitizer (Unit {0}) without_tags tt options posted in
    Cleaned (Unit {0}) without_tags tt Plain none posted.body seen.body
    × Cleaned (Unit {0}) without_tags tt Plain (some off) posted.query seen.query
    × Cleaned (Unit {0}) without_tags tt Plain none posted.params seen.params
unfolding should_skip_sanitization starts_with
use_sanitizer-Cleaned_example =
    use_sanitizer-Cleaned (Unit {0}) without_tags tt Plain (λ c t. filter-Plain t) options posted
      refl

a_quad : is_dotted_quad (codes "10.0.0.1") ≡ true
unfolding is_dotted_quad split
a_quad = refl

client_ip_key-mapped_example :
    client_ip_key (λ ip. ip) (record { ip = some (codes "::ffff:10.0.0.1"); user = none })
    ≡ client_ip_key (λ ip. ip) (record { ip = some (codes "10.0.0.1"); user = none })
client_ip_key-mapped_example = client_ip_key-mapped (λ ip. ip) (codes "10.0.0.1") none a_quad
