-- ===== src/Filter/Contained.antt =====
-- A text in the expression that `filterEq` makes of it (src/nocodb/nocodb-filter.util.ts).
use nocodb_middleware.Prelude.{
  ℕ, suc, ◌+◌, ◌≤◌, ◌≡◌, ◌≢◌, refl, true, false, [], ◌∷◌, ◌++◌, Text, codes, trim, any, all, All,
  ◌==◌, if◌then◌else◌, arith,
}
use nocodb_middleware.Result.{ok, >>=-eq-ok}
use nocodb_middleware.Filter.{
  text, sanitize_filter_field, format_filter_value, has_control_character, filter_eq,
}
use nocodb_middleware.Filter.Pattern.{is_field_char}
use nocodb_middleware.Filter.Accepted.{sanitized}

-- No control character: neither one of the first 32 nor DEL.
abbrev pub IsPrintable : ℕ → Type 0
IsPrintable c = (32 ≤ c) × (c ≢ 127)

-- How many quotes a text has.
unfoldable pub quotes : Text → ℕ
quotes [] = 0
quotes (c ∷ t) = if c == b'"' then suc (quotes t) else quotes t

quotes-++ : (a b : Text) → quotes (a ++ b) ≡ quotes a + quotes b
unfolding quotes
quotes-++ [] b = omega arith
quotes-++ (c ∷ a) b = ground (arith, quotes-++ a b)

All-++ : (a b : Text) → All IsPrintable a → All IsPrintable b → All IsPrintable (a ++ b)
All-++ [] b h k = k
All-++ (c ∷ a) b (h, hs) k = (h, All-++ a b hs k)

quotes-none : (t : Text) → any (λ c. c == b'"') t ≡ false → quotes t ≡ 0
unfolding quotes
quotes-none [] h = omega arith
quotes-none (c ∷ t) h = ground (arith, quotes-none t)

printable : (t : Text) → has_control_character t ≡ false → All IsPrintable t
unfolding has_control_character
printable [] h = tt
printable (c ∷ t) h = ((ground arith, ground arith), printable t (ground arith))

field_plain : (f : Text) → all is_field_char f ≡ true → (quotes f ≡ 0) × All IsPrintable f
unfolding is_field_char quotes
field_plain [] h = (omega arith, tt)
field_plain (c ∷ f) h =
    let (none, rest) = field_plain f (ground arith) in
    (ground (arith, none), ((ground arith, ground arith), rest))

-- The expression holds the trimmed text, which is not empty, between its only two quotes, and no
-- control character.
abbrev pub IsContained : Text → Text → Type 0
IsContained u e =
    (field : Text) × (e
      ≡ b'(' ∷ field ++ (codes ",eq," ++ ((b'"' ∷ trim u ++ codes "\"") ++ codes ")")))
    × (trim u ≢ [])
    × (quotes e ≡ 2)
    × All IsPrintable e

-- What a text is formatted to.
formatted :
    (u : Text) {t : Text}
    → format_filter_value (text u) ≡ ok t
    → (b'"' ∷ trim u ++ codes "\"" ≡ t)
      × (trim u ≢ [])
      × (any (λ c. c == b'"') (trim u) ≡ false)
      × (has_control_character (trim u) ≡ false)
unfolding format_filter_value
formatted u h =
    (ground arith, (λ e. absurd (ground (arith, rw e at h))), ground arith, ground arith)

wrapped :
    (f v : Text)
    → quotes f ≡ 0
    → All IsPrintable f
    → quotes v ≡ 0
    → All IsPrintable v
    → let e = b'(' ∷ f ++ (codes ",eq," ++ ((b'"' ∷ v ++ codes "\"") ++ codes ")")) in
      (quotes e ≡ 2) × All IsPrintable e
unfolding quotes has_control_character
wrapped f v qf pf qv pv =
    let rest = codes ",eq," ++ ((b'"' ∷ v ++ codes "\"") ++ codes ")") in
    (
      omega (
        arith,
        quotes-++ f rest,
        quotes-++ (v ++ codes "\"") (codes ")"),
        quotes-++ v (codes "\""),
      ),
      (
        (printable (codes "(") refl).0,
        All-++ f rest pf (
            All-++ (codes ",eq,\"") ((v ++ codes "\"") ++ codes ")")
              (printable (codes ",eq,\"") refl)
              (All-++ (v ++ codes "\"") (codes ")")
                (All-++ v (codes "\"") pv (printable (codes "\"") refl))
                (printable (codes ")") refl))),
      ),
    )

-- A filter that compares a field with a text holds this text, trimmed and not empty, between its
-- only two quotes, and has no control character: the text cannot end its own literal.
pub filter_eq-IsContained : (f u : Text) {e : Text} → filter_eq f (text u) ≡ ok e → IsContained u e
unfolding filter_eq
filter_eq-IsContained f u {e} h =
    let (field, made, r) = >>=-eq-ok (sanitize_filter_field f) _ h in
    let (value, shown, l) = >>=-eq-ok (format_filter_value (text u)) _ r in
    let (literal, some_text, no_quote, no_control) = formatted u shown in
    let (none, plain) = field_plain field (sanitized f made).1 in
    let whole : b'(' ∷ field ++ (codes ",eq," ++ (value ++ codes ")")) ≡ e = ground (arith, l) in
    let (two, shows) =
      wrapped field (trim u) none plain (quotes-none (trim u) no_quote)
        (printable (trim u) no_control) in
    rw (← whole, ← literal) (field, refl, some_text, two, shows)
