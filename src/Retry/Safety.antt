-- ===== src/Retry/Safety.antt =====
-- Writes and client errors under the retry decision (src/nocodb/nocodb-retry.util.ts).
use nocodb_middleware.Prelude.{
  ℕ, ◌≤◌, ◌<◌, ◌≡◌, ◌≢◌, ◌⊎◌, refl, sym, ap, ◌∙◌, inl, inr, Bool, ◌&&◌, leb, ltb, true, false,
  Option, none, some, List, [], ◌∷◌, Text, codes, same, same_iff, In, Bool-cases, arith,
}
use nocodb_middleware.Retry.{
  RequestError, to_lower_case, has, read_methods, is_read, is_transient, is_too_many,
  should_retry_nocodb_request,
}

-- The methods that change data.
abbrev pub write_methods : List Text
write_methods = codes "post" ∷ codes "put" ∷ codes "patch" ∷ codes "delete" ∷ []

write-not_read : (t : Text) → In t write_methods → has read_methods t ≡ false
unfolding has same
write-not_read t (inl e) = rw e
write-not_read t (inr (inl e)) = rw e
write-not_read t (inr (inr (inl e))) = rw e
write-not_read t (inr (inr (inr (inl e)))) = rw e
write-not_read t (inr (inr (inr (inr h)))) = absurd h

not_read :
    (o : Option Text) (m : Text)
    → o ≡ some m
    → In (to_lower_case m) write_methods
    → is_read o ≡ false
unfolding is_read
not_read o m e w = rw e (write-not_read (to_lower_case m) w)

too_many : (s : Option ℕ) → is_too_many s ≡ true → s ≡ some 429
unfolding is_too_many
too_many none h = cc
too_many (some n) h = ap some (ground arith)

retried :
    (e : RequestError)
    → is_read e.method ≡ false
    → should_retry_nocodb_request e ≡ is_too_many e.status
unfolding should_retry_nocodb_request
retried e h = elim (Bool-cases (is_too_many e.status)) [
  | inl many ↦ rw many
  | inr few ↦ rw (few, h)
]

-- A failed request of a method that changes data, in any spelling of its letters, is sent again
-- only if the server answered 429.
pub write-retried_only_on_429 :
    (e : RequestError) (m : Text)
    → e.method ≡ some m
    → In (to_lower_case m) write_methods
    → should_retry_nocodb_request e ≡ true
    → e.status ≡ some 429
write-retried_only_on_429 e m em w h =
    too_many e.status (sym (retried e (not_read e.method m em w)) ∙ h)

-- No failed request is sent again after a client error other than 429.
pub client_error-final :
    (e : RequestError) (n : ℕ)
    → e.status ≡ some n
    → 400 ≤ n
    → n < 500
    → n ≢ 429
    → should_retry_nocodb_request e ≡ false
unfolding should_retry_nocodb_request
client_error-final e n en lo hi other = ground arith

abbrev pub is_write : Option Text → Bool
is_write none = false
is_write (some m) = has write_methods (to_lower_case m)

abbrev pub is_client_error : Option ℕ → Bool
is_client_error none = false
is_client_error (some n) = leb 400 n && ltb n 500

has-In : (t : Text) (ts : List Text) → has ts t ≡ true → In t ts
unfolding has
has-In t [] h = absurd (ground arith)
has-In t (u ∷ ts) h = elim (Bool-cases (same t u)) [
  | inl e ↦ inl ((same_iff t u).0 e)
  | inr e ↦ inr (has-In t ts (ground arith))
]

read-not_write : (t : Text) → In t read_methods → has write_methods t ≡ false
unfolding has same
read-not_write t (inl e) = rw e
read-not_write t (inr (inl e)) = rw e
read-not_write t (inr (inr (inl e))) = rw e
read-not_write t (inr (inr (inr h))) = absurd h

no_write : (o : Option Text) → is_read o ≡ true → is_write o ≡ false
unfolding is_read
no_write none h = refl
no_write (some m) h = read-not_write (to_lower_case m) (has-In (to_lower_case m) read_methods h)

transient-not_client :
    (s : Option ℕ) (c : Option Text) → is_transient s c ≡ true → is_client_error s ≡ false
unfolding is_transient
transient-not_client none c h = refl
transient-not_client (some n) c h = ground arith

-- A failed request is sent again only if the server answered 429, or if its method changes no data
-- and the answer, if there was one, was no client error.
pub retried_only :
    (e : RequestError)
    → should_retry_nocodb_request e ≡ true
    → (e.status ≡ some 429) ⊎ ((is_write e.method ≡ false) × (is_client_error e.status ≡ false))
unfolding should_retry_nocodb_request
retried_only e h = elim (Bool-cases (is_too_many e.status)) [
  | inl many ↦ inl (too_many e.status many)
  | inr few ↦
      inr (no_write e.method (ground arith), transient-not_client e.status e.code (ground arith))
]
