-- ===== src/Prelude/Trimming.antt =====
-- Trimmed texts, and texts without separators.
use mathlib.Core.Path.{◌≡◌, refl, ap, ◌∙◌}
use mathlib.Core.Logic.{inl, inr}
use mathlib.Core.Bool.{Bool, false, ◌||◌}
use mathlib.Core.List.{[], ◌∷◌, ◌++◌, reverse, reverse-cons, reverse-append, reverse-reverse}
use Prim.Native.Nat.{ℕ}
use native.Mathlib.Omega.{arith}
use nocodb_middleware.Prelude.Tests.{Bool-cases}
use nocodb_middleware.Prelude.Lists.{any}
use nocodb_middleware.Prelude.Units.{Text, is_space, trim_start, trim}

trim_start_idem : (t : Text) → trim_start (trim_start t) ≡ trim_start t
unfolding trim_start
trim_start_idem [] = refl
trim_start_idem (c ∷ t) = elim (Bool-cases (is_space c)) [
  | inl k ↦ rw k (trim_start_idem t)
  | inr k ↦ rw k (rw k refl)
]

-- A last unit that is no space stops the trimming.
trim_start-last :
    (t : Text) (c : ℕ) → is_space c ≡ false → trim_start (t ++ (c ∷ [])) ≡ trim_start t ++ (c ∷ [])
unfolding trim_start
trim_start-last [] c h = rw h refl
trim_start-last (d ∷ t) c h = elim (Bool-cases (is_space d)) [
  | inl k ↦ rw k (trim_start-last t c h)
  | inr k ↦ rw k refl
]

-- What is left behind leading spaces, trimmed from its end, keeps its start.
trim-end :
    (t : Text)
    → trim_start (reverse (trim_start (reverse (trim_start t))))
      ≡ reverse (trim_start (reverse (trim_start t)))
unfolding trim_start
trim-end [] = refl
trim-end (c ∷ t) = elim (Bool-cases (is_space c)) [
  | inl k ↦ rw k (trim-end t)
  | inr k ↦
      let last : trim_start (reverse (c ∷ t)) ≡ trim_start (reverse t) ++ (c ∷ []) =
        ap trim_start (reverse-cons c t) ∙ trim_start-last (reverse t) c k in
      rw k (rw last (rw (reverse-append (trim_start (reverse t)) (c ∷ [])) (rw k refl)))
]

pub trim_idem : (t : Text) → trim (trim t) ≡ trim t
unfolding trim
trim_idem t = rw (trim-end t) (
    rw (reverse-reverse (trim_start (reverse (trim_start t))))
      (ap reverse (trim_start_idem (reverse (trim_start t)))))

any-append : (p : ℕ → Bool) (s t : Text) → any p (s ++ t) ≡ (any p s || any p t)
any-append p [] t = refl
any-append p (c ∷ s) t = ground (arith, any-append p s t)

any-reverse : (p : ℕ → Bool) (t : Text) → any p (reverse t) ≡ any p t
any-reverse p [] = refl
any-reverse p (c ∷ t) =
    let e : any p (reverse (c ∷ t)) ≡ (any p (reverse t) || (p c || false)) =
      ap (any p) (reverse-cons c t) ∙ any-append p (reverse t) (c ∷ []) in
    ground (arith, e, any-reverse p t)

trim_start-none : (t : Text) → any is_space t ≡ false → trim_start t ≡ t
unfolding trim_start
trim_start-none [] h = refl
trim_start-none (c ∷ t) h = ground arith

pub trim-none : (t : Text) → any is_space t ≡ false → trim t ≡ t
unfolding trim
trim-none t h =
    rw (trim_start-none t h)
      (rw (trim_start-none (reverse t) (any-reverse is_space t ∙ h)) (reverse-reverse t))
