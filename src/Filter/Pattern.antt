-- ===== src/Filter/Pattern.antt =====
-- FILTER_EXPRESSION_PATTERN of src/nocodb/nocodb-filter.util.ts as the automaton that the regular
-- expression stands for: one comparison in parentheses, quoted values without `"`.
use nocodb_middleware.Prelude.{
  ℕ, ◌≡◌, refl, ap, Bool, true, false, ◌||◌, ◌&&◌, Option, none, some, [], ◌∷◌, Text, codes, leb,
  ◌==◌, if◌then◌else◌,
}

-- `[A-Za-z0-9_-]`
unfoldable pub is_field_char : ℕ → Bool
is_field_char c =
    (leb b'A' c && leb c b'Z')
    || (leb b'a' c && leb c b'z')
    || (leb b'0' c && leb c b'9')
    || c == b'_'
    || c == b'-'

unfoldable pub is_digit : ℕ → Bool
is_digit c = leb b'0' c && leb c b'9'

-- Where a match stands. `word w s` wants the rest `w` of an operator before it goes on at `s`.
pub data State : Type 0 where
  open_paren field_first field_rest operator : State
  word : Text → State → State
  value_first quoted quote_closed minus whole fraction_first fraction closed : State

after_value : ℕ → Option State
after_value c = if c == b',' then some value_first else if c == b')' then some closed else none

step_word : Text → State → ℕ → Option State
step_word [] s c = none
step_word (a ∷ []) s c = if c == a then some s else none
step_word (a ∷ b ∷ w) s c = if c == a then some (word (b ∷ w) s) else none

unfoldable pub step : State → ℕ → Option State
unfolding after_value step_word is_digit is_field_char
step open_paren c = if c == b'(' then some field_first else none
step field_first c = if is_field_char c then some field_rest else none
step field_rest c =
    if is_field_char c then some field_rest else if c == b',' then some operator else none
step operator c =
    if c == b'e'
    then some (word (codes "q,") value_first)
    else if c == b'i'
    then some (word (codes "n,") value_first)
    else if c == b'c'
    then some (word (codes "hecked)") closed)
    else if c == b'n'
    then some (word (codes "otchecked)") closed)
    else none
step (word w s) c = step_word w s c
step value_first c =
    if c == b'"'
    then some quoted
    else if c == b'-'
    then some minus
    else if is_digit c
    then some whole
    else none
step quoted c = if c == b'"' then some quote_closed else some quoted
step quote_closed c = after_value c
step minus c = if is_digit c then some whole else none
step whole c =
    if is_digit c then some whole else if c == b'.' then some fraction_first else after_value c
step fraction_first c = if is_digit c then some fraction else none
step fraction c = if is_digit c then some fraction else after_value c
step closed c = none

unfoldable pub run : State → Text → Option State
run s [] = some s
run s (c ∷ t) = elim (step s c) [ none ↦ none | some s' ↦ run s' t ]

is_closed : State → Bool
is_closed closed = true
is_closed _ = false

accepts : Option State → Bool
unfolding is_closed
accepts none = false
accepts (some s) = is_closed s

unfoldable pub is_expression : Text → Bool
unfolding accepts run step
is_expression t = accepts (run open_paren t)

pub run_of_is_expression : (t : Text) → is_expression t ≡ true → run open_paren t ≡ some closed
unfolding is_expression
run_of_is_expression t h = accepted (run open_paren t) h
  where
    state : (s : State) → is_closed s ≡ true → s ≡ closed
    state closed h = refl
    state _ h = cc

    accepted : (o : Option State) → accepts o ≡ true → o ≡ some closed
    accepted none h = cc
    accepted (some s) h = ap some (state s h)

pub is_expression_of_run : (t : Text) → run open_paren t ≡ some closed → is_expression t ≡ true
unfolding is_expression
is_expression_of_run t h = rw h
