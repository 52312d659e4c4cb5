-- ===== src/Auth/Claims/Normal.antt =====
-- The normal form of claims (src/auth/identity/identity-claims-normalizer.service.ts).
use nocodb_middleware.Prelude.{
  ℕ, ◌≡◌, ◌≢◌, refl, sym, ap, ◌∙◌, Bool, true, false, Option, none, some, List, [], ◌∷◌, ◌++◌, map,
  filter, any, All, Text, trim, is_space, if◌then◌else◌, arith,
}
use mathlib.Core.List.{reverse, reverse-cons, reverse-reverse, append_assoc, append-nil}
use nocodb_middleware.Prelude.Trimming.{trim_idem, trim-none}
use nocodb_middleware.Result.{ok, >>=-eq-ok}
use nocodb_middleware.Filter.{join}
use nocodb_middleware.Auth.{Provider, IdentityClaims}
use nocodb_middleware.Auth.Claims.{
  Claim, string, number, array, absent, other, TokenPayload, coerce_string, non_empty, split_runs,
  text_or_empty, kept_entries, parse_list, parse_roles, parse_scope, is_role_separator, claim_or,
  required, identity_of, normalize,
}

abbrev IsEntry : Text → Type 0
IsEntry t = (t ≢ []) × (trim t ≡ t)

text_or_empty-trimmed : (o : Option Text) → trim (text_or_empty o) ≡ text_or_empty o
unfolding text_or_empty trim
text_or_empty-trimmed none = refl
text_or_empty-trimmed (some t) = trim_idem t

kept_cons-IsEntry :
    (t : Text) (rest : List Text)
    → trim t ≡ t
    → All IsEntry rest
    → All IsEntry (if non_empty t then t ∷ rest else rest)
unfolding non_empty
kept_cons-IsEntry [] rest e k = k
kept_cons-IsEntry (c ∷ t) rest e k = ((ground arith, e), k)

-- Filtering a list of trimmed texts leaves entries.
kept-IsEntry :
    {A : Type 0} (f : A → Text) (xs : List A)
    → ((x : A) → trim (f x) ≡ f x)
    → All IsEntry (kept_entries (map f xs))
unfolding kept_entries filter
kept-IsEntry f [] h = tt
kept-IsEntry f (x ∷ xs) h =
    kept_cons-IsEntry (f x) (filter non_empty (map f xs)) (h x) (kept-IsEntry f xs h)

parse_list-IsEntry : (sep : ℕ → Bool) (c : Claim) → All IsEntry (parse_list sep c)
unfolding parse_list
parse_list-IsEntry sep absent = tt
parse_list-IsEntry sep other = tt
parse_list-IsEntry sep (number n) = tt
parse_list-IsEntry sep (array ts) = kept-IsEntry text_or_empty ts text_or_empty-trimmed
parse_list-IsEntry sep (string t) = kept-IsEntry trim (split_runs sep false [] t) trim_idem

required-some : (o : Option Text) (t : Text) → required o ≡ ok t → (o ≡ some t) × (t ≢ [])
unfolding required
required-some none t h = ground arith
required-some (some []) t h = ground arith
required-some (some (c ∷ u)) t h = (cc, ground arith)

-- The identity of a token: a subject, and roles and scopes that are trimmed and not empty.
pub IsNormal : IdentityClaims → Type 0
IsNormal claims = (claims.subject ≢ []) × All IsEntry claims.roles × All IsEntry claims.scope

-- Whatever a token holds, normalized claims have a subject that is not empty, the one of the token,
-- and only trimmed, non-empty roles and scopes.
pub normalize-IsNormal :
    (payload : TokenPayload) (provider : Provider) (claims : IdentityClaims)
    → normalize payload provider ≡ ok claims
    → IsNormal claims × (coerce_string payload.sub ≡ some claims.subject)
unfolding normalize IsNormal parse_roles parse_scope
normalize-IsNormal payload provider claims h =
    let (subject, got, made) = >>=-eq-ok (required (coerce_string payload.sub)) _ h in
    let e : identity_of payload provider subject ≡ claims = cc in
    let (found, some_text) = required-some (coerce_string payload.sub) subject got in
    rw (sym e) (
      (
        some_text,
        parse_list-IsEntry is_role_separator (claim_or payload.roles payload.role),
        parse_list-IsEntry is_space (claim_or payload.scope payload.scp),
      ),
      found,
    )

-- A word of a list of roles or scopes.
abbrev pub IsWord : (ℕ → Bool) → Text → Type 0
IsWord sep w = (w ≢ []) × (any sep w ≡ false)

-- A piece goes on as long as no separator comes.
split_runs-within :
    (sep : ℕ → Bool) (cur w t : Text)
    → any sep w ≡ false
    → split_runs sep false cur (w ++ t) ≡ split_runs sep false (reverse w ++ cur) t
unfolding split_runs
split_runs-within sep cur [] t k = refl
split_runs-within sep cur (c ∷ w) t k =
    let here : sep c ≡ false = ground arith in
    let rest = split_runs-within sep (c ∷ cur) w t (ground arith) in
    let turned : reverse (c ∷ w) ++ cur ≡ reverse w ++ (c ∷ cur) =
      ap (λ l. l ++ cur) (reverse-cons c w) ∙ append_assoc (reverse w) (c ∷ []) cur in
    rw here (rw turned rest)

-- A word is one piece, wherever it begins.
split_runs-word :
    (sep : ℕ → Bool) (in_run : Bool) (w t : Text)
    → IsWord sep w
    → split_runs sep in_run [] (w ++ t) ≡ split_runs sep false (reverse w) t
unfolding split_runs
split_runs-word sep in_run [] t (h, k) = absurd (h refl)
split_runs-word sep in_run (c ∷ w) t (h, k) =
    let here : sep c ≡ false = ground arith in
    let rest = split_runs-within sep (c ∷ []) w t (ground arith) in
    rw here (rw (reverse-cons c w) rest)

split_runs-join :
    (sep : ℕ → Bool) (in_run : Bool) (c : ℕ) (w : Text) (ws : List Text)
    → sep c ≡ true
    → IsWord sep w
    → All (IsWord sep) ws
    → split_runs sep in_run [] (join (c ∷ []) (w ∷ ws)) ≡ w ∷ ws
unfolding join split_runs
split_runs-join sep in_run c w [] h word words =
    ap (split_runs sep in_run []) (sym (append-nil w))
    ∙ split_runs-word sep in_run w [] word
    ∙ ap (λ l. l ∷ []) (reverse-reverse w)
split_runs-join sep in_run c w (v ∷ ws) h word (next, words) =
    let rest = split_runs-join sep true c v ws h next words in
    split_runs-word sep in_run w (c ∷ join (c ∷ []) (v ∷ ws)) word
    ∙ rw h (rw (reverse-reverse w) (ap (◌∷◌ w) rest))

none-any :
    (p q : ℕ → Bool) (t : Text)
    → ((c : ℕ) → p c ≡ true → q c ≡ true)
    → any q t ≡ false
    → any p t ≡ false
none-any p q [] h k = refl
none-any p q (c ∷ t) h k = ground (arith, h c, none-any p q t h)

non_empty_iff : (t : Text) → t ≢ [] → non_empty t ≡ true
unfolding non_empty
non_empty_iff [] h = absurd (h refl)
non_empty_iff (c ∷ t) h = refl

kept-words :
    (sep : ℕ → Bool) (ws : List Text)
    → ((c : ℕ) → is_space c ≡ true → sep c ≡ true)
    → All (IsWord sep) ws
    → kept_entries (map trim ws) ≡ ws
unfolding kept_entries filter
kept-words sep [] h words = refl
kept-words sep (w ∷ ws) h ((some_text, none_in), words) =
    let rest = kept-words sep ws h words in
    rw (trim-none w (none-any is_space sep w h none_in))
      (rw (non_empty_iff w some_text) (ap (◌∷◌ w) rest))

space-is_role_separator : (d : ℕ) → is_space d ≡ true → is_role_separator d ≡ true
unfolding is_role_separator
space-is_role_separator d h = ground arith

parse_list-join :
    (sep : ℕ → Bool) (c : ℕ) (ws : List Text)
    → ((d : ℕ) → is_space d ≡ true → sep d ≡ true)
    → sep c ≡ true
    → All (IsWord sep) ws
    → parse_list sep (string (join (c ∷ []) ws)) ≡ ws
unfolding parse_list join split_runs kept_entries filter non_empty trim
parse_list-join sep c [] spaces h words = refl
parse_list-join sep c (w ∷ ws) spaces h (word, words) =
    ap (λ l. kept_entries (map trim l)) (split_runs-join sep false c w ws h word words)
    ∙ kept-words sep (w ∷ ws) spaces (word, words)

-- Roles that are words, written behind one another with a comma or a blank between them, are read
-- back as they are, and so are scopes with a blank between them.
pub parse-join :
    (c b : ℕ) (ws vs : List Text)
    → is_role_separator c ≡ true
    → is_space b ≡ true
    → All (IsWord is_role_separator) ws
    → All (IsWord is_space) vs
    → (parse_roles (string (join (c ∷ []) ws)) ≡ ws)
      × (parse_scope (string (join (b ∷ []) vs)) ≡ vs)
unfolding parse_roles parse_scope
parse-join c b ws vs h k roles scopes = (
  parse_list-join is_role_separator c ws space-is_role_separator h roles,
  parse_list-join is_space b vs (λ d e. e) k scopes,
)
