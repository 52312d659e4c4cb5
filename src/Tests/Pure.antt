-- ===== src/Tests/Pure.antt =====
-- Filters, names, retries, the cache, sessions and pages.
use nocodb_middleware.Filter.Built.{and_filters-of_built}
use nocodb_middleware.Retry.Safety.{retried_only, is_write, is_client_error}
use nocodb_middleware.Prelude.{◌*◌, ◌⊎◌, inl, inr}
use nocodb_middleware.Prelude.{
  ℕ, ◌+◌, ◌≤◌, ◌<◌, ◌≡◌, refl, inl, Bool, true, false, none, some, List, [], ◌∷◌, Text, codes,
  length, trim, leb, ◌&&◌, arith, same, is_space, trim_start, filter,
}
use nocodb_middleware.Js.{
  same_num, int, pos, text, is_finite, num_text, decimal, digits_from, num, nan, to_number, Num,
}
use nocodb_middleware.Result.{ok, map_result}
use nocodb_middleware.Filter
use nocodb_middleware.Filter.{
  sanitize_filter_field, format_filter_value, has_control_character, filter_eq, filter_in,
  and_filters, join,
}
use nocodb_middleware.Filter.Pattern.{is_expression, is_field_char, is_digit, run, step}
use nocodb_middleware.Filter.Contained.{IsContained, filter_eq-IsContained}
use nocodb_middleware.Nocodb.Setup.{RetrySettings, retry_delay, retry_delay-le}
use nocodb_middleware.Filter.Joining.{and_filters_injective}
use nocodb_middleware.TableName.{is_valid_table_name, code_points, last_or, is_word, is_inner}
use nocodb_middleware.TableName.Safety.{IsUnicode, filter_eq_of_valid}
use nocodb_middleware.Retry.{RequestError, should_retry_nocodb_request}
use nocodb_middleware.Types.{UserPermissions, NocoRecord, get}
use nocodb_middleware.Permissions.Cache.{
  get_entry, cache_permissions, fresh_value, make_room, drop_expired, delete_entry,
}
use nocodb_middleware.Permissions.Cache.History.{
  CacheEvent, Reachable, at_start, after_store, last_stored, Reachable-bound, get_entry-Refines,
}
use nocodb_middleware.Client.{
  Client, TokenPair, Event, rejected, refreshed, stored, history, new_client,
}
use nocodb_middleware.Client.Session.{signed_out-stays, sent_again-once, times_sent}

decimal_120 : decimal 120 ≡ codes "120"
unfolding decimal digits_from
decimal_120 = refl

eq_field : filter_eq (codes "name") (Filter.text (codes " Ann ")) ≡ ok (codes "(name,eq,\"Ann\")")
unfolding filter_eq sanitize_filter_field is_field_char format_filter_value trim trim_start is_space
    same has_control_character
eq_field = refl

filter_eq-IsContained_example : IsContained (codes " Ann ") (codes "(name,eq,\"Ann\")")
filter_eq-IsContained_example = filter_eq-IsContained (codes "name") (codes " Ann ") eq_field

abbrev retries : RetrySettings
retries = record { retries = 3; base_delay = 1000; max_delay = 10000 }

retry_delay-le_example : 4 * retry_delay retries 3 1 2 ≤ 5 * 10000 + 2
retry_delay-le_example = retry_delay-le retries 3 1 2 (omega arith)

abbrev two_filters : List Text
two_filters = codes "(Id,eq,1)" ∷ codes "(name,eq,\"x)~and(y\")" ∷ []

both : and_filters two_filters ≡ ok (codes "(Id,eq,1)~and(name,eq,\"x)~and(y\")")
unfolding and_filters is_expression run step is_field_char is_digit join
both = refl

and_filters_injective_example : two_filters ≡ two_filters
and_filters_injective_example = and_filters_injective two_filters two_filters both both

abbrev ids : List Filter.FilterValue
ids = Filter.number (int (pos 1)) ∷ Filter.number (int (pos 12)) ∷ []

in_ids : filter_in (codes "id") ids ≡ ok (codes "(Id,in,1,12)")
unfolding filter_in sanitize_filter_field is_field_char format_filter_value is_finite num_text
    decimal digits_from same join map_result
in_ids = refl

abbrev built : List Text
built = codes "(name,eq,\"Ann\")" ∷ codes "(Id,in,1,12)" ∷ []

and_filters-of_built_example : and_filters built ≡ ok (join (codes "~and") built)
and_filters-of_built_example = and_filters-of_built built (
  inl (codes "name", Filter.text (codes " Ann "), tt, eq_field),
  (inr (codes "id", ids, (tt, (tt, tt)), in_ids), tt),
)

abbrev letter : ℕ → Bool
letter c = leb b'a' c && leb c b'z'

letters-IsUnicode : IsUnicode letter
unfolding is_space
letters-IsUnicode = record {
  no_space = λ c h. ground arith;
  no_quote = refl;
  no_control = λ c h. ground arith;
}

my_table : is_valid_table_name letter (codes "my table") ≡ true
unfolding is_valid_table_name code_points is_word is_inner last_or
my_table = refl

filter_eq_of_valid_example :
    filter_eq (codes "table_name") (Filter.text (codes "my table"))
    ≡ ok (codes "(table_name,eq,\"my table\")")
filter_eq_of_valid_example = filter_eq_of_valid letter letters-IsUnicode (codes "my table") my_table

abbrev rejected_post : RequestError
rejected_post = record { status = some 429; method = some (codes "POST"); code = none }

abbrev ann : UserPermissions
ann = record { user_id = int (pos 1); username = text (codes "ann"); roles = []; permissions = [] }

two_users :
    Reachable
      (CacheEvent.stored 5 (int (pos 1)) ann ∷ CacheEvent.stored 3 (int (pos 2)) ann ∷ [])
      (cache_permissions 5 (int (pos 1)) ann (cache_permissions 3 (int (pos 2)) ann []))
two_users = after_store 5 (int (pos 1)) ann (after_store 3 (int (pos 2)) ann at_start)

Reachable-bound_example :
    length (cache_permissions 5 (int (pos 1)) ann (cache_permissions 3 (int (pos 2)) ann [])) ≤ 1000
Reachable-bound_example = Reachable-bound two_users

found_again :
    fresh_value 9 (
      get_entry
        (int (pos 2))
        (cache_permissions 5 (int (pos 1)) ann (cache_permissions 3 (int (pos 2)) ann [])))
    ≡ some ann
unfolding fresh_value get_entry cache_permissions make_room drop_expired delete_entry filter
    same_num
found_again = refl

get_entry-Refines_example :
    (now : ℕ) × (last_stored
        (CacheEvent.stored 5 (int (pos 1)) ann ∷ CacheEvent.stored 3 (int (pos 2)) ann ∷ [])
        (int (pos 2))
      ≡ some (now, ann))
    × (9 < now + 300_000)
get_entry-Refines_example = get_entry-Refines two_users (int (pos 2)) 9 ann found_again

retried_only_example :
    (rejected_post.status ≡ some 429)
    ⊎ ((is_write rejected_post.method ≡ false) × (is_client_error rejected_post.status ≡ false))
unfolding should_retry_nocodb_request
retried_only_example = retried_only rejected_post refl

abbrev tokens : TokenPair
tokens = record { access_token = codes "a"; refresh_token = none }

-- Signed out while a refresh is pending.
abbrev signed_out : Client
signed_out = record {
  storage = none;
  is_refreshing = true;
  flagged = 7 ∷ [];
  pending = some (some tokens, 7);
}

signed_out-stays_example :
    (history true (refreshed (codes "b") ∷ rejected 401 8 ∷ []) signed_out).1.storage ≡ none
signed_out-stays_example =
    signed_out-stays true (refreshed (codes "b") ∷ rejected 401 8 ∷ []) signed_out (tt, (tt, tt))
      refl

abbrev looping : List Event
looping =
    stored tokens
    ∷ rejected 401 7
    ∷ refreshed (codes "b")
    ∷ rejected 401 7
    ∷ refreshed (codes "c")
    ∷ []

sent_again-once_example : times_sent 7 (history true looping new_client).0 ≤ 1
sent_again-once_example = sent_again-once true looping 7

abbrev id_of : NocoRecord → Num
id_of r = to_number (λ t. nan) (get (codes "id") r)

abbrev role : ℕ → NocoRecord
role n = (codes "id", num (int (pos n))) ∷ []

abbrev requested : List Num
requested = int (pos 3) ∷ int (pos 1) ∷ int (pos 2) ∷ []
