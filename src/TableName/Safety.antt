-- ===== src/TableName/Safety.antt =====
-- Valid table names in filters (src/common/validation/table-name.ts).
use mathlib.Core.List.{append_assoc, reverse, reverse-append, reverse-reverse}
use nocodb_middleware.Prelude.{
  ℕ, ◌+◌, ◌-◌, ◌*◌, ◌≤◌, ◌≡◌, ◌≢◌, refl, sym, ap, ◌∙◌, inl, inr, Bool, true, false, ◌&&◌, List, [],
  ◌∷◌, ◌++◌, Text, codes, trim, trim_start, is_space, all, any, All, leb, ◌==◌, Bool-cases, arith,
}
use nocodb_middleware.Result.{ok}
use nocodb_middleware.Filter.{text, format_filter_value, has_control_character, filter_eq}
use nocodb_middleware.Filter.Fields.{sanitize-table_name}
use nocodb_middleware.TableName.{
  is_high, is_low, code_points, last_or, is_word, is_inner, is_valid_table_name,
}

-- A unit that the check for filter values lets pass.
abbrev Safe : ℕ → Type 0
Safe c = (c ≢ b'"') × (32 ≤ c) × (c ≢ 127)

module _ (is_letter_or_number : ℕ → Bool) where
  -- What Unicode says of the letters and numbers: none is a blank, a quote or a control character.
  pub record IsUnicode : Type 0 where
    pub no_space : (c : ℕ) → is_letter_or_number c ≡ true → is_space c ≡ false
    pub no_quote : is_letter_or_number b'"' ≡ false
    pub no_control : (c : ℕ) → is_letter_or_number c ≡ true → (32 ≤ c) × (c ≢ 127)

  module _ (u : IsUnicode) where
    word_not_space : (c : ℕ) → is_word is_letter_or_number c ≡ true → is_space c ≡ false
    unfolding is_word is_space
    word_not_space c h = ground (arith, u.no_space c)

    inner-Safe : (c : ℕ) → is_inner is_letter_or_number c ≡ true → Safe c
    unfolding is_inner is_word
    inner-Safe c h =
        let letter : (q : ℕ) → c ≡ q → is_letter_or_number c ≡ is_letter_or_number q =
          λ q e. ap is_letter_or_number e in
        (
          λ (e : c ≡ b'"'). ground (arith, letter b'"' e, u.no_quote),
          ground (arith, u.no_control c),
          λ (e : c ≡ 127). ground (arith, u.no_control c),
        )

    surrogate-Safe : (c : ℕ) → leb 0xd800 c ≡ true → Safe c
    surrogate-Safe c h = ground arith

    surrogate_not_space : (c : ℕ) → leb 0xd800 c ≡ true → leb c 0xdfff ≡ true → is_space c ≡ false
    unfolding is_space
    surrogate_not_space c h k = ground arith

    pair_low :
        (c d : ℕ) → (is_high c && is_low d) ≡ true → (leb 0xd800 d ≡ true) × (leb d 0xdfff ≡ true)
    unfolding is_high is_low
    pair_low c d h = ground arith

    pair_high :
        (c d : ℕ) → (is_high c && is_low d) ≡ true → (leb 0xd800 c ≡ true) × (leb c 0xdfff ≡ true)
    unfolding is_high is_low
    pair_high c d h = ground arith

    units-Safe : (t : Text) → all (is_inner is_letter_or_number) (code_points t) ≡ true → All Safe t
    unfolding code_points
    units-Safe [] h = tt
    units-Safe (c ∷ []) h = (inner-Safe c (ground arith), tt)
    units-Safe (c ∷ d ∷ t) h = elim (Bool-cases (is_high c && is_low d)) [
      | inl pair ↦
          let h' = rw pair at h in
          (
            surrogate-Safe c (pair_high c d pair).0,
            (surrogate-Safe d (pair_low c d pair).0, units-Safe t (ground (arith, h'))),
          )
      | inr single ↦
          let h' = rw single at h in
          (inner-Safe c (ground (arith, h')), units-Safe (d ∷ t) (ground (arith, h')))
    ]

    first_not_space :
        (c : ℕ) (t : Text) (p : ℕ) (ps : List ℕ)
        → code_points (c ∷ t) ≡ p ∷ ps
        → is_word is_letter_or_number p ≡ true
        → is_space c ≡ false
    unfolding code_points
    first_not_space c [] p ps e h = let same : c ≡ p = ground arith in rw same (word_not_space p h)
    first_not_space c (d ∷ t) p ps e h = elim (Bool-cases (is_high c && is_low d)) [
      | inl pair ↦ let (lo, hi) = pair_high c d pair in surrogate_not_space c lo hi
      | inr single ↦
          let same : c ≡ p = ground (arith, rw single at e) in rw same (word_not_space p h)
    ]

    last_not_space :
        (x y c : ℕ) (t : Text)
        → is_word is_letter_or_number (last_or x (code_points (c ∷ t))) ≡ true
        → is_space (last_or y (c ∷ t)) ≡ false
    unfolding code_points last_or
    last_not_space x y c [] h = word_not_space c h
    last_not_space x y c (d ∷ []) h = elim (Bool-cases (is_high c && is_low d)) [
      | inl pair ↦ let (lo, hi) = pair_low c d pair in surrogate_not_space d lo hi
      | inr single ↦ last_not_space c c d [] (rw single at h)
    ]
    last_not_space x y c (d ∷ e ∷ t) h = elim (Bool-cases (is_high c && is_low d)) [
      | inl pair ↦
          last_not_space (0x10000 + (c - 0xd800) * 0x400 + (d - 0xdc00)) d e t (rw pair at h)
      | inr single ↦ last_not_space c c d (e ∷ t) (rw single at h)
    ]

-- Text with no blank at either end is what `trim` leaves.
split_last : (c : ℕ) (t : Text) → (i : Text) × (c ∷ t ≡ i ++ last_or c t ∷ [])
unfolding last_or
split_last c [] = ([], refl)
split_last c (d ∷ t) = let (i, e) = split_last d t in (c ∷ i, ap (◌∷◌ c) e)

trim_start_kept : (c : ℕ) (t : Text) → is_space c ≡ false → trim_start (c ∷ t) ≡ c ∷ t
unfolding trim_start
trim_start_kept c t h = rw h

trim_kept :
    (c : ℕ) (t : Text) → is_space c ≡ false → is_space (last_or c t) ≡ false → trim (c ∷ t) ≡ c ∷ t
unfolding trim
trim_kept c t first last =
    let (i, e) = split_last c t in
    let back : reverse (c ∷ t) ≡ last_or c t ∷ reverse i =
      ap reverse e ∙ reverse-append i (last_or c t ∷ []) in
    rw (trim_start_kept c t first) (
      rw back (
        rw (trim_start_kept (last_or c t) (reverse i) last)
          (ap reverse (sym back) ∙ reverse-reverse (c ∷ t))))

Safe-no_quote : (t : Text) → All Safe t → any (λ c. c == b'"') t ≡ false
Safe-no_quote [] h = refl
Safe-no_quote (c ∷ t) (s, ss) = ground (arith, Safe-no_quote t ss)

Safe-no_control : (t : Text) → All Safe t → has_control_character t ≡ false
unfolding has_control_character
Safe-no_control [] h = refl
Safe-no_control (c ∷ t) (s, ss) = ground (arith, Safe-no_control t ss)

module _ (is_letter_or_number : ℕ → Bool) where
  record Matched (name : Text) : Type 0 where
    first : ℕ
    others : List ℕ
    points : code_points name ≡ first ∷ others
    first_word : is_word is_letter_or_number first ≡ true
    last_word : is_word is_letter_or_number (last_or first others) ≡ true
    inner : all (is_inner is_letter_or_number) (first ∷ others) ≡ true

  matched :
      (name : Text) (cs : List ℕ)
      → code_points name ≡ cs
      → is_valid_table_name is_letter_or_number name ≡ true
      → Matched name
  unfolding is_valid_table_name
  matched name [] e h = absurd (ground (arith, rw e at h))
  matched name (c ∷ cs) e h =
      let h' = rw e at h in
      record {
        first = c;
        others = cs;
        points = e;
        first_word = ground (arith, h');
        last_word = ground (arith, h');
        inner = ground (arith, h');
      }

  module _ (u : IsUnicode is_letter_or_number) where
    format_valid :
        (c : ℕ) (t : Text)
        → Matched (c ∷ t)
        → format_filter_value (text (c ∷ t)) ≡ ok (b'"' ∷ (c ∷ t) ++ codes "\"")
    unfolding format_filter_value last_or
    format_valid c t m =
        let kept : trim (c ∷ t) ≡ c ∷ t =
          trim_kept c t
            (first_not_space is_letter_or_number u c t m.first m.others m.points m.first_word)
            (last_not_space is_letter_or_number u m.first c c t (rw m.points m.last_word)) in
        let safe : All Safe (c ∷ t) =
          units-Safe is_letter_or_number u (c ∷ t) (rw m.points m.inner) in
        rw kept (rw (Safe-no_quote (c ∷ t) safe, Safe-no_control (c ∷ t) safe))

    -- If no letter or number of Unicode is a blank, a quote or a control character, the builder
    -- never refuses a valid table name, and puts it into the filter unchanged.
    pub filter_eq_of_valid :
        (name : Text)
        → is_valid_table_name is_letter_or_number name ≡ true
        → filter_eq (codes "table_name") (text name)
          ≡ ok (codes "(table_name,eq,\"" ++ (name ++ codes "\")"))
    unfolding filter_eq is_valid_table_name code_points
    filter_eq_of_valid [] h = absurd (ground arith)
    filter_eq_of_valid (c ∷ t) h =
        rw (format_valid c t (matched (c ∷ t) (code_points (c ∷ t)) refl h), sanitize-table_name)
          (ap (λ r. ok (codes "(table_name,eq,\"" ++ (c ∷ r)))
            (append_assoc t (codes "\"") (codes ")")))
