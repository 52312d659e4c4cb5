-- ===== src/Network/Addresses.antt =====
-- One client, one key (src/nocodb/middleware/rate-limit.middleware.ts).
use nocodb_middleware.Prelude.{
  ℕ, ◌≡◌, refl, sym, ap, ◌∙◌, inl, inr, Bool, true, false, Option, some, List, [], ◌∷◌, ◌++◌, Text,
  split, split_from, strip_prefix, ◌==◌, Option-cases, Bool-cases, arith,
}
use mathlib.Core.List.{reverse, reverse-cons, append_assoc, append-nil}
use nocodb_middleware.Network.{
  is_digit, is_number, are_four_numbers, is_dotted_quad, mapped_prefix, unmapped, client_ip_key,
  LimitedUser,
}

-- The first piece starts with what was read of it.
split_from-first :
    (sep : ℕ → Bool) (cur t : Text)
    → (p : Text) × (ps : List Text) × (split_from sep cur t ≡ (reverse cur ++ p) ∷ ps)
unfolding split_from
split_from-first sep cur [] = ([], [], ap (λ l. l ∷ []) (sym (append-nil (reverse cur))))
split_from-first sep cur (c ∷ t) = elim (Bool-cases (sep c)) [
  | inl k ↦
      rw k (
        [],
        split_from sep [] t,
        ap (λ l. l ∷ split_from sep [] t) (sym (append-nil (reverse cur))),
      )
  | inr k ↦
      let (p, ps, e) = split_from-first sep (c ∷ cur) t in
      let turned : reverse (c ∷ cur) ++ p ≡ reverse cur ++ (c ∷ p) =
        ap (λ l. l ++ p) (reverse-cons c cur) ∙ append_assoc (reverse cur) (c ∷ []) p in
      rw k (c ∷ p, ps, e ∙ ap (λ l. l ∷ ps) turned)
]

colon-not_number : (p : Text) → is_number (b':' ∷ p) ≡ false
unfolding is_number is_digit
colon-not_number p = refl

colon-not_four : (p : Text) (ps : List Text) → are_four_numbers ((b':' ∷ p) ∷ ps) ≡ false
unfolding are_four_numbers
colon-not_four p [] = refl
colon-not_four p (b ∷ []) = refl
colon-not_four p (b ∷ c ∷ []) = refl
colon-not_four p (b ∷ c ∷ d ∷ []) = rw (colon-not_number p) refl
colon-not_four p (b ∷ c ∷ d ∷ e ∷ ps) = refl

-- What starts with a colon is no IPv4 address.
colon-not_quad : (t : Text) → is_dotted_quad (b':' ∷ t) ≡ false
unfolding is_dotted_quad split split_from
colon-not_quad t =
    let (p, ps, e) = split_from-first (λ c. c == b'.') (b':' ∷ []) t in
    ap are_four_numbers e ∙ colon-not_four p ps

strip_prefix-colon :
    (t rest : Text) → strip_prefix mapped_prefix t ≡ some rest → (u : Text) × (t ≡ b':' ∷ u)
unfolding strip_prefix
strip_prefix-colon [] rest h = ground arith
strip_prefix-colon (c ∷ t) rest h = elim (Bool-cases (58 == c)) [
  | inl k ↦ (t, let e : 58 ≡ c = ground arith in ap (λ d. d ∷ t) (sym e))
  | inr k ↦ let e = rw k at h in absurd (ground arith)
]

unmapped-quad : (t : Text) → is_dotted_quad t ≡ true → unmapped t ≡ t
unfolding unmapped strip_prefix
unmapped-quad t h = elim (Option-cases (strip_prefix mapped_prefix t)) [
  | inl k ↦ rw k refl
  | inr (rest, k) ↦
      let (u, e) = strip_prefix-colon t rest k in
      let n = colon-not_quad u in absurd (ground (arith, h, e, n))
]

-- An IPv4 address and the same address mapped into IPv6 have the same key, so a client has one
-- budget of requests under both.
pub client_ip_key-mapped :
    (ip_key_generator : Text → Text) (ip : Text) (user : Option LimitedUser)
    → is_dotted_quad ip ≡ true
    → client_ip_key ip_key_generator (record { ip = some (mapped_prefix ++ ip); user = user })
      ≡ client_ip_key ip_key_generator (record { ip = some ip; user = user })
unfolding client_ip_key unmapped strip_prefix
client_ip_key-mapped ip_key_generator ip user h = rw h (rw (unmapped-quad ip h) refl)
