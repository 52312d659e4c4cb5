-- ===== src/Filter/Accepted.antt =====
-- The builders of src/nocodb/nocodb-filter.util.ts and the pattern that `andFilters` tests.
use mathlib.Core.List.{append_assoc}
use nocodb_middleware.Prelude.{
  ℕ, zero, suc, ◌+◌, ◌/◌, ◌%◌, ◌≡◌, ◌≢◌, refl, ◌∙◌, ap, inl, inr, true, false, some, List, [], ◌∷◌,
  ◌++◌, Text, codes, same, trim, any, all, All, ltb, ◌==◌, Bool-cases, arith,
}
use nocodb_middleware.Js.{ℤ, int, pos, negsuc, num_text, decimal, digits_from}
use nocodb_middleware.Result.{Result, ok, >>=-eq-ok, map_result}
use nocodb_middleware.Filter.{
  FilterValue, text, number, boolean, sanitize_filter_field, format_filter_value, filter_checked,
  filter_not_checked, filter_eq, filter_in, join,
}
use nocodb_middleware.Filter.Pattern.{
  State, minus, open_paren, field_rest, operator, value_first, quoted, quote_closed, whole, closed,
  is_field_char, is_digit, step, run, is_expression, is_expression_of_run,
}

-- Numbers whose text has digits only; a fraction may be written with an exponent.
abbrev pub IsSimple : FilterValue → Type 0
IsSimple (number (int z)) = Unit
IsSimple (number _) = ⊥
IsSimple _ = Unit

run_field : (f t : Text) → all is_field_char f ≡ true → run field_rest (f ++ t) ≡ run field_rest t
unfolding run step
run_field [] t h = refl
run_field (c ∷ f) t h = ground (arith, run_field f t)

run_quoted : (v t : Text) → any (λ c. c == b'"') v ≡ false → run quoted (v ++ t) ≡ run quoted t
unfolding run step
run_quoted [] t h = refl
run_quoted (c ∷ v) t h = ground (arith, run_quoted v t)

run_digits : (d t : Text) → all is_digit d ≡ true → run whole (d ++ t) ≡ run whole t
unfolding run step
run_digits [] t h = refl
run_digits (c ∷ d) t h = ground (arith, run_digits d t)

digits_from_digits :
    (f n : ℕ) (acc : Text) → all is_digit acc ≡ true → all is_digit (digits_from f n acc) ≡ true
unfolding digits_from is_digit
digits_from_digits zero n acc h = h
digits_from_digits (suc f) n acc h =
    ground (arith, digits_from_digits f (n / 10) ((b'0' + n % 10) ∷ acc))

-- The digits start with one.
abbrev Starts : Text → Type 0
Starts [] = ⊥
Starts (c ∷ t) = is_digit c ≡ true

digits_from-Starts : (f n : ℕ) (acc : Text) → Starts acc → Starts (digits_from f n acc)
unfolding digits_from is_digit
digits_from-Starts zero n acc h = h
digits_from-Starts (suc f) n acc h = elim (Bool-cases (ltb n 10)) [
  | inl small ↦ rw small (ground arith)
  | inr large ↦ rw large (digits_from-Starts f (n / 10) ((b'0' + n % 10) ∷ acc) (ground arith))
]

decimal-Starts : (n : ℕ) → Starts (decimal n)
unfolding decimal digits_from is_digit
decimal-Starts n = elim (Bool-cases (ltb n 10)) [
  | inl small ↦ rw small (ground arith)
  | inr large ↦ rw large (digits_from-Starts n (n / 10) ((b'0' + n % 10) ∷ []) (ground arith))
]

decimal_digits : (n : ℕ) → all is_digit (decimal n) ≡ true
unfolding decimal
decimal_digits n = digits_from_digits (suc n) n [] refl

run_first_digits :
    (d r : Text)
    → all is_digit d ≡ true
    → Starts d
    → (run value_first (d ++ r) ≡ run whole r) × (run minus (d ++ r) ≡ run whole r)
unfolding run step
run_first_digits [] r h s = absurd s
run_first_digits (c ∷ d) r h s = (ground (arith, run_digits d r), ground (arith, run_digits d r))

-- A state behind a whole value: `,` starts the next value and `)` ends the expression.
pub record Ends (s : State) : Type 0 where
  pub comma : step s b',' ≡ some value_first
  pub paren : step s b')' ≡ some closed

-- The text of a value takes the automaton over the whole value, whatever stands behind it.
abbrev pub ReadsValue : Text → Type 0
ReadsValue t = (s : State) × Ends s × ((r : Text) → run value_first (t ++ r) ≡ run s r)

reads_number : (z : ℤ) → ReadsValue (num_text (int z))
unfolding num_text step run
reads_number (pos n) = (
  whole,
  record { comma = refl; paren = refl },
  λ r. (run_first_digits (decimal n) r (decimal_digits n) (decimal-Starts n)).0,
)
reads_number (negsuc n) = (
  whole,
  record { comma = refl; paren = refl },
  λ r. (run_first_digits (decimal (n + 1)) r (decimal_digits (n + 1)) (decimal-Starts (n + 1))).1,
)

reads_quoted : (v : Text) → any (λ c. c == b'"') v ≡ false → ReadsValue (b'"' ∷ v ++ codes "\"")
unfolding run step
reads_quoted v h = (
  quote_closed,
  record { comma = refl; paren = refl },
  λ r. rw (append_assoc v (codes "\"") r, run_quoted v (b'"' ∷ r) h),
)

format_reads :
    (v : FilterValue) {t : Text} → IsSimple v → format_filter_value v ≡ ok t → ReadsValue t
unfolding format_filter_value
format_reads (number (int z)) {t} s h =
    let e : num_text (int z) ≡ t = ground arith in rw (← e) (reads_number z)
format_reads (number _) s h = absurd s
format_reads (boolean b) s h = cc
format_reads (text u) {t} s h =
    let e : b'"' ∷ trim u ++ codes "\"" ≡ t = ground arith in
    rw (← e) (reads_quoted (trim u) (ground arith))

run_whole_field :
    (f r : Text)
    → f ≢ []
    → all is_field_char f ≡ true
    → run open_paren (b'(' ∷ f ++ (b',' ∷ r)) ≡ run operator r
unfolding run step
run_whole_field [] r n h = absurd (n refl)
run_whole_field (c ∷ f) r n h = ground (arith, run_field f (b',' ∷ r))

-- A field that passes the check is not empty and has field characters only.
pub sanitized :
    (field : Text) {f : Text}
    → sanitize_filter_field field ≡ ok f
    → (f ≢ []) × (all is_field_char f ≡ true)
unfolding sanitize_filter_field is_field_char
sanitized [] h = cc
sanitized (c ∷ u) {f} h = elim (Bool-cases (same (c ∷ u) (codes "id"))) [
  | inl key ↦
      let e : codes "Id" ≡ f = ground arith in rw (← e) ((λ (p : codes "Id" ≡ []). cc), refl)
  | inr other ↦
      let e : c ∷ u ≡ f = ground arith in rw (← e) ((λ (p : c ∷ u ≡ []). cc), ground arith)
]

field_reads :
    (field : Text) {f : Text}
    → sanitize_filter_field field ≡ ok f
    → (r : Text) → run open_paren (b'(' ∷ f ++ (b',' ∷ r)) ≡ run operator r
field_reads field {f} h r = let (n, a) = sanitized field h in run_whole_field f r n a

closes : (t : Text) → ReadsValue t → run value_first (t ++ codes ")") ≡ some closed
unfolding run
closes t (s, ends, reads) = reads (codes ")") ∙ ground (arith, ends.paren)

-- The values of a list, joined by commas.
reads_joined :
    (t : Text) (ts : List Text)
    → ReadsValue t
    → All ReadsValue ts
    → run value_first (join (codes ",") (t ∷ ts) ++ codes ")") ≡ some closed
unfolding join run
reads_joined t [] h hs = closes t h
reads_joined t (u ∷ us) (s, ends, reads) (k, ks) = rw append_assoc (
    reads (b',' ∷ join (codes ",") (u ∷ us) ++ codes ")")
    ∙ ground (arith, ends.comma, reads_joined u us k ks))

formats_read :
    (vs : List FilterValue) (ts : List Text)
    → All IsSimple vs
    → map_result format_filter_value vs ≡ ok ts
    → All ReadsValue ts
unfolding map_result
formats_read [] [] s h = tt
formats_read [] (t ∷ ts) s h = cc
formats_read (v ∷ vs) ts (s, ss) h =
    let (t, et, rest) = >>=-eq-ok (format_filter_value v) _ h in
    let (us, eus, last) = >>=-eq-ok (map_result format_filter_value vs) _ rest in
    let e : t ∷ us ≡ ts = ground arith in rw (← e) (format_reads v s et, formats_read vs us ss eus)

module _ (field : Text) {f : Text} (clean : sanitize_filter_field field ≡ ok f) where
  -- The whole expression, from what stands behind the field.
  expression :
      (r e : Text)
      → run operator r ≡ some closed
      → Result.ok (b'(' ∷ f ++ (b',' ∷ r)) ≡ ok e
      → is_expression e ≡ true
  expression r e h built =
      is_expression_of_run e
        (ap (run open_paren) (ground (arith, built)) ∙ field_reads field clean r ∙ h)

  eq_expression :
      (v : FilterValue) {t e : Text}
      → IsSimple v
      → format_filter_value v ≡ ok t
      → Result.ok (b'(' ∷ f ++ (codes ",eq," ++ (t ++ codes ")"))) ≡ ok e
      → is_expression e ≡ true
  unfolding run step
  eq_expression v {t} {e} s shown built =
      expression (codes "eq," ++ (t ++ codes ")")) e (closes t (format_reads v s shown)) built

  in_expression :
      (vs : List FilterValue) (ts : List Text) {e : Text}
      → vs ≢ []
      → All IsSimple vs
      → map_result format_filter_value vs ≡ ok ts
      → Result.ok (b'(' ∷ f ++ (codes ",in," ++ (join (codes ",") ts ++ codes ")"))) ≡ ok e
      → is_expression e ≡ true
  unfolding run step map_result
  in_expression [] ts {e} n s shown built = absurd (n refl)
  in_expression (v ∷ vs) [] {e} n (s, ss) shown built = ground arith
  in_expression (v ∷ vs) (t ∷ ts) {e} n s shown built =
      let (r, rs) = formats_read (v ∷ vs) (t ∷ ts) s shown in
      expression (codes "in," ++ (join (codes ",") (t ∷ ts) ++ codes ")")) e
        (reads_joined t ts r rs) built

-- What the builder for equality returns matches the pattern, a number being an integer below
-- 10^21 in magnitude.
pub filter_eq-is_expression :
    (field : Text) (v : FilterValue) {e : Text}
    → IsSimple v
    → filter_eq field v ≡ ok e
    → is_expression e ≡ true
unfolding filter_eq filter_checked filter_not_checked run step
filter_eq-is_expression field (boolean true) {e} s h =
    let (f, ef, last) = >>=-eq-ok (sanitize_filter_field field) _ h in
    expression field ef (codes "checked)") e refl last
filter_eq-is_expression field (boolean false) {e} s h =
    let (f, ef, last) = >>=-eq-ok (sanitize_filter_field field) _ h in
    expression field ef (codes "notchecked)") e refl last
filter_eq-is_expression field (text u) {e} s h =
    let (f, ef, rest) = >>=-eq-ok (sanitize_filter_field field) _ h in
    let (t, et, last) = >>=-eq-ok (format_filter_value (text u)) _ rest in
    eq_expression field ef (text u) s et last
filter_eq-is_expression field (number n) {e} s h =
    let (f, ef, rest) = >>=-eq-ok (sanitize_filter_field field) _ h in
    let (t, et, last) = >>=-eq-ok (format_filter_value (number n)) _ rest in
    eq_expression field ef (number n) s et last

-- What the builder for membership returns matches the pattern, each number being an integer
-- below 10^21 in magnitude.
pub filter_in-is_expression :
    (field : Text) (vs : List FilterValue) {e : Text}
    → All IsSimple vs
    → filter_in field vs ≡ ok e
    → is_expression e ≡ true
unfolding filter_in
filter_in-is_expression field [] s h = cc
filter_in-is_expression field (v ∷ vs) {e} (s, ss) h =
    let (f, ef, rest) = >>=-eq-ok (sanitize_filter_field field) _ h in
    let (ts, ets, last) = >>=-eq-ok (map_result format_filter_value (v ∷ vs)) _ rest in
    in_expression field ef (v ∷ vs) ts (λ (p : v ∷ vs ≡ []). cc) (s, ss) ets last
