-- ===== src/Filter/Joining.antt =====
-- Reading joined filters back (`andFilters` of src/nocodb/nocodb-filter.util.ts).
use mathlib.Core.List.{append-nil}
use mathlib.Core.Path.{ap₂}
use nocodb_middleware.Prelude.{
  ℕ, ◌≡◌, ◌≢◌, refl, sym, ◌∙◌, true, some, List, [], ◌∷◌, ◌++◌, Text, codes, all, All, Bool-cases,
  Option-cases, inl, inr, arith,
}
use nocodb_middleware.Result.{ok}
use nocodb_middleware.Filter.{and_filters, join}
use nocodb_middleware.Filter.Pattern.{
  State, open_paren, closed, step, run, is_expression, run_of_is_expression,
}

-- Nothing can be read behind a closed expression.
ends_there : (s : State) (c : ℕ) (b : Text) → run s [] ≡ some closed → run s (c ∷ b) ≢ some closed
unfolding run step
ends_there closed c b ha hb = cc
ends_there _ c b ha hb = cc

some-injective' : {s t : State} → some s ≡ some t → s ≡ t
some-injective' h = cc

cons_parts : {c d : ℕ} {a b : Text} → c ∷ a ≡ d ∷ b → (c ≡ d) × (a ≡ b)
cons_parts h = (ground arith, ground arith)

-- Two texts on which the automaton closes, each before a rest: if the wholes agree, the parts do.
closed_prefix :
    (s : State) (a b r q : Text)
    → run s a ≡ some closed
    → run s b ≡ some closed
    → a ++ r ≡ b ++ q
    → (a ≡ b) × (r ≡ q)
unfolding run
closed_prefix s [] [] r q ha hb e = (refl, e)
closed_prefix s [] (c ∷ b) r q ha hb e = absurd (ends_there s c b ha hb)
closed_prefix s (c ∷ a) [] r q ha hb e = absurd (ends_there s c a hb ha)
closed_prefix s (c ∷ a) (d ∷ b) r q ha hb e =
    let (same_head, same_tail) = cons_parts e in
    elim (Option-cases (step s c)) [
      | inl stuck ↦ absurd (ground arith)
      | inr (s', moved) ↦
          let (same_text, rest) =
            closed_prefix s' a b r q (rw (moved, run) at ha) (ground (arith, hb, same_head, moved))
              same_tail in
          (ground (arith, same_head, same_text), rest)
    ]

-- What `join` puts behind the first text.
joined_rest : List Text → Text
joined_rest [] = []
joined_rest (t ∷ ts) = codes "~and" ++ join (codes "~and") (t ∷ ts)

join_cons : (t : Text) (ts : List Text) → join (codes "~and") (t ∷ ts) ≡ t ++ joined_rest ts
unfolding join joined_rest
join_cons t [] = sym (append-nil t)
join_cons t (u ∷ ts) = refl

abbrev AreClosed : List Text → Type 0
AreClosed = All (λ t. run open_paren t ≡ some closed)

join-ne-nil : (t : Text) (r : Text) → run open_paren t ≡ some closed → [] ≢ t ++ r
unfolding run
join-ne-nil [] r h = cc
join-ne-nil (c ∷ t) r h = cc

join_of_rest :
    (fs gs : List Text)
    → joined_rest fs ≡ joined_rest gs
    → join (codes "~and") fs ≡ join (codes "~and") gs
unfolding joined_rest
join_of_rest [] [] e = refl
join_of_rest [] (g ∷ gs) e = ground arith
join_of_rest (f ∷ fs) [] e = ground arith
join_of_rest (f ∷ fs) (g ∷ gs) e = ground arith

join_inj :
    (fs gs : List Text)
    → AreClosed fs
    → AreClosed gs
    → join (codes "~and") fs ≡ join (codes "~and") gs
    → fs ≡ gs
join_inj [] [] hf hg e = refl
join_inj [] (g ∷ gs) hf hg e =
    absurd (join-ne-nil g (joined_rest gs) hg.0 (unfold join in (e ∙ join_cons g gs)))
join_inj (f ∷ fs) [] hf hg e =
    absurd (join-ne-nil f (joined_rest fs) hf.0 (unfold join in (sym e ∙ join_cons f fs)))
join_inj (f ∷ fs) (g ∷ gs) (hf, hfs) (hg, hgs) e =
    let (first, rest) =
      closed_prefix open_paren f g (joined_rest fs) (joined_rest gs) hf hg
        (sym (join_cons f fs) ∙ e ∙ join_cons g gs) in
    ap₂ ◌∷◌ first (join_inj fs gs hfs hgs (join_of_rest fs gs rest))

closed_of_expressions : (fs : List Text) → all is_expression fs ≡ true → AreClosed fs
closed_of_expressions [] h = tt
closed_of_expressions (f ∷ fs) h =
    (run_of_is_expression f (ground arith), closed_of_expressions fs (ground arith))

-- A successful join passed the pattern on every filter.
joined :
    (fs : List Text) {e : Text}
    → and_filters fs ≡ ok e
    → (all is_expression fs ≡ true) × (join (codes "~and") fs ≡ e)
unfolding and_filters
joined fs h = elim (Bool-cases (all is_expression fs)) [
  | inl good ↦ (good, ground (arith, good))
  | inr bad ↦ absurd (ground (arith, bad))
]

-- Two lists of filters that are accepted and give the same joined expression are the same list,
-- whatever values the filters hold.
pub and_filters_injective :
    (fs gs : List Text) {e : Text} → and_filters fs ≡ ok e → and_filters gs ≡ ok e → fs ≡ gs
and_filters_injective fs gs hf hg =
    let (af, jf) = joined fs hf in
    let (ag, jg) = joined gs hg in
    join_inj fs gs (closed_of_expressions fs af) (closed_of_expressions gs ag) (jf ∙ sym jg)
