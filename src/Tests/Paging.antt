-- ===== src/Tests/Paging.antt =====
-- A list of one record, page by page.
use nocodb_middleware.Prelude.{
  ℕ, zero, suc, ◌+◌, ◌/◌, ◌%◌, ◌≤◌, ◌≡◌, refl, sym, ap, inl, inr, Bool, true, false, some, List, [],
  ◌∷◌, map, Text, codes, length, same, ltb, take, drop, if◌then◌else◌, Bool-cases, arith,
}
use nocodb_middleware.Js.{decimal, digits_from}
use nocodb_middleware.Result.{ok}
use nocodb_middleware.Types.{V3Record}
use nocodb_middleware.Outside.{Outside, App, Payload, Param, received, plain}
use nocodb_middleware.Nocodb.Requests.{flatten_record}
use nocodb_middleware.Nocodb.Records.{no_options, list_params, list_all}
use nocodb_middleware.Nocodb.Paging.{IsQuiet, IsPaged, list_all_complete}
use nocodb_middleware.Tests.Fixtures.{server, stored_record}

abbrev rows : List V3Record
rows = stored_record ∷ []

abbrev is_first : Param → Bool
is_first (plain t) = same t (codes "0")
is_first _ = false

-- Whether the offset of the request is 0.
abbrev at_start : List (Text × Param) → Bool
at_start [] = false
at_start ((key, p) ∷ rest) = if same key (codes "offset") then is_first p else at_start rest

abbrev one_row : Outside
one_row = record server {
  World = Unit {0};
  send = λ r w. (received (Payload.records (some (if at_start r.params then rows else []))), w);
  now = λ w. (0, w);
  sleep = λ d w. w;
}

digits_from-longer : (f n : ℕ) (acc : Text) → length acc ≤ length (digits_from f n acc)
unfolding digits_from
digits_from-longer zero n acc = omega arith
digits_from-longer (suc f) n acc =
    let rest = digits_from-longer f (n / 10) ((b'0' + n % 10) ∷ acc) in
    elim (Bool-cases (ltb n 10)) [ inl k ↦ rw k (omega arith) | inr k ↦ rw k (omega arith) ]

digits_from-two : (f n d : ℕ) → 2 ≤ length (digits_from (suc f) n (d ∷ []))
unfolding digits_from
digits_from-two f n d =
    let rest = digits_from-longer f (n / 10) ((b'0' + n % 10) ∷ d ∷ []) in
    elim (Bool-cases (ltb n 10)) [ inl k ↦ rw k (omega arith) | inr k ↦ rw k (omega arith) ]

two_not_zero : (t : Text) → 2 ≤ length t → same t (codes "0") ≡ false
unfolding same
two_not_zero [] h = absurd (omega arith)
two_not_zero (c ∷ []) h = absurd (omega arith)
two_not_zero (c ∷ d ∷ t) h = ground arith

large_not_zero :
    (f n : ℕ) → ltb n 10 ≡ false → same (digits_from (suc (suc f)) n []) (codes "0") ≡ false
unfolding digits_from
large_not_zero f n k = rw k (
    two_not_zero (digits_from (suc f) (n / 10) ((b'0' + n % 10) ∷ []))
      (digits_from-two f (n / 10) (b'0' + n % 10)))

small_not_zero :
    (f n : ℕ) → ltb (suc n) 10 ≡ true → same (digits_from (suc f) (suc n) []) (codes "0") ≡ false
unfolding digits_from same
small_not_zero f n k = rw k (ground arith)

decimal_of_suc : (n : ℕ) → same (decimal (suc n)) (codes "0") ≡ false
unfolding decimal
decimal_of_suc n = elim (Bool-cases (ltb (suc n) 10)) [
  | inl k ↦ small_not_zero (suc n) n k
  | inr k ↦ large_not_zero n (suc n) k
]

no_rows : (n : ℕ) → take 1000 (drop {A = V3Record} n []) ≡ []
unfolding take drop
no_rows zero = refl
no_rows (suc n) = refl

-- The row is on the page that starts at 0, and on no other.
page_at :
    (offset : ℕ)
    → (if same (decimal offset) (codes "0") then rows else []) ≡ take 1000 (drop offset rows)
unfolding take drop decimal digits_from same
page_at zero = refl
page_at (suc n) = rw (decimal_of_suc n) (sym (no_rows n))

paged : IsPaged one_row (λ w. Unit) (codes "t") no_options 1000 rows
unfolding list_params same
paged offset = record {
  replies = λ w h. ap (λ p. received (Payload.records (some p))) (page_at offset);
  keeps = λ w h. tt;
}

quiet : IsQuiet one_row (λ w. Unit)
quiet = record { clock = λ w h. tt; timer = λ d w h. tt }

abbrev begin : App Unit
begin = record { world = tt; next_allowed_time = 0; permissions_cache = []; tables_cache = [] }

list_all_complete_example :
    (list_all one_row (codes "t") no_options begin).0 ≡ ok (map flatten_record rows)
list_all_complete_example =
    list_all_complete one_row (λ w. Unit) (codes "t") no_options rows begin quiet paged tt
      (omega arith)
