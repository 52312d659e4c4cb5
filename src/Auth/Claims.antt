-- ===== src/Auth/Claims.antt =====
-- IdentityClaimsNormalizerService (src/auth/identity/identity-claims-normalizer.service.ts).
pub mod Normal
use nocodb_middleware.Prelude.{
  ℕ, Bool, true, false, ◌||◌, Option, none, some, List, [], ◌∷◌, map, filter, Text, trim, is_space,
  ◌==◌, if◌then◌else◌,
}
use mathlib.Core.List.{reverse}
use nocodb_middleware.Js.{Num, num_text}
use nocodb_middleware.Result.{Result, ok, err, unauthorized, ◌>>=◌}
use nocodb_middleware.Auth.{Provider, IdentityClaims}

-- A claim as the decoded token has it. Of an array only the strings among its entries count; all
-- that is neither a string, a number nor an array is `other`, but for `undefined` and `null`.
pub data Claim : Type 0 where
  absent other : Claim
  string : Text → Claim
  number : Num → Claim
  array : List (Option Text) → Claim

pub record TokenPayload : Type 0 where
  pub sub : Claim
  pub email : Claim
  pub username : Claim
  pub preferred_username : Claim
  pub roles : Claim
  pub role : Claim
  pub scope : Claim
  pub scp : Claim

non_empty : Text → Bool
non_empty [] = false
non_empty (c ∷ t) = true

abbrev non_empty_or_none : Text → Option Text
non_empty_or_none [] = none
non_empty_or_none (c ∷ t) = some (c ∷ t)

unfoldable pub coerce_string : Claim → Option Text
coerce_string (string t) = non_empty_or_none (trim t)
coerce_string (number n) = some (num_text n)
coerce_string _ = none

-- `t.split(/[…]+/)`: the pieces between runs of separators. In a run no piece is begun.
unfoldable pub split_runs : (ℕ → Bool) → Bool → Text → Text → List Text
split_runs sep in_run cur [] = reverse cur ∷ []
split_runs sep in_run cur (c ∷ t) =
    let behind = split_runs sep true [] t in
    let longer = split_runs sep false (c ∷ cur) t in
    if sep c then (if in_run then behind else reverse cur ∷ behind) else longer

text_or_empty : Option Text → Text
text_or_empty none = []
text_or_empty (some t) = trim t

unfoldable pub kept_entries : List Text → List Text
unfolding non_empty
kept_entries = filter non_empty

unfoldable pub parse_list : (ℕ → Bool) → Claim → List Text
unfolding split_runs text_or_empty kept_entries
parse_list sep (array entries) = kept_entries (map text_or_empty entries)
parse_list sep (string t) = kept_entries (map trim (split_runs sep false [] t))
parse_list sep _ = []

-- `[\s,]`
unfoldable pub is_role_separator : ℕ → Bool
is_role_separator c = is_space c || c == b','

unfoldable pub parse_roles : Claim → List Text
unfolding parse_list is_role_separator
parse_roles = parse_list is_role_separator

unfoldable pub parse_scope : Claim → List Text
unfolding parse_list
parse_scope = parse_list is_space

-- `a ?? b`
unfoldable pub claim_or : Claim → Claim → Claim
claim_or absent b = b
claim_or a b = a

unfoldable pub first_of : Option Text → Option Text → Option Text
first_of none b = b
first_of (some a) b = some a

-- `if (!subject) throw`
required : Option Text → Result Text
required none = err unauthorized
required (some []) = err unauthorized
required (some (c ∷ t)) = ok (c ∷ t)

unfoldable pub identity_of : TokenPayload → Provider → Text → IdentityClaims
unfolding coerce_string parse_roles parse_scope claim_or first_of
identity_of payload provider subject = record {
  subject = subject;
  provider = provider;
  email = coerce_string payload.email;
  username = first_of (coerce_string payload.preferred_username) (coerce_string payload.username);
  roles = parse_roles (claim_or payload.roles payload.role);
  scope = parse_scope (claim_or payload.scope payload.scp);
}

unfoldable pub normalize : TokenPayload → Provider → Result IdentityClaims
unfolding identity_of required
normalize payload provider = do
  subject ← required (coerce_string payload.sub)
  ok (identity_of payload provider subject)
