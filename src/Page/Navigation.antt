-- ===== src/Page/Navigation.antt =====
-- The flags of a page (src/nocodb/dto/page-meta.dto.ts) and the rows before and behind it.
use native.Mathlib.Nat.{
  add-mul, div-add-mod', lt_of_mul-lt-mul_right, mod-lt, mul-le-mul_right, mul-lt-mul_of_pos_right,
  mul-pos, suc-mul, zero-mul,
}
use nocodb_middleware.Prelude.{
  ℕ, zero, suc, ◌+◌, ◌-◌, ◌*◌, ◌/◌, ◌%◌, ◌≤◌, ◌<◌, ◌≡◌, sym, ◌↔◌, true, Option, none, some, ◌==◌,
  arith, Bool-cases, inl, inr, ◌≢◌,
}
use nocodb_middleware.Page.{PageOptions, or_else, skip, ceil_div, page_meta}

or_else-pos : (o : Option ℕ) (d : ℕ) → 0 < d → 0 < or_else o d
unfolding or_else
or_else-pos none d h = h
or_else-pos (some zero) d h = h
or_else-pos (some (suc n)) d h = omega arith

-- The rounded quotient is the least number of pages that holds the rows.
lt_of_lt-ceil_div : (p n t : ℕ) → 0 < t → p < ceil_div n t → p * t < n
unfolding ceil_div
lt_of_lt-ceil_div p n t h l =
    let e = div-add-mod' n t in
    elim (Bool-cases (n % t == 0)) [
      | inl z ↦
          let l' : p < n / t = rw z at l in let m = mul-lt-mul_of_pos_right l' h in grind arith
      | inr z ↦
          let l' : p < n / t + 1 = rw z at l in
          let p_le : p ≤ n / t = omega arith in
          let m = mul-le-mul_right t p_le in let r : n % t ≢ 0 = ground arith in grind arith
    ]

lt-ceil_div_of_lt : (p n t : ℕ) → 0 < t → p * t < n → p < ceil_div n t
unfolding ceil_div
lt-ceil_div_of_lt p n t h l =
    let e = div-add-mod' n t in
    elim (Bool-cases (n % t == 0)) [
      | inl z ↦
          let r : n % t ≡ 0 = ground arith in
          let k : p * t < n / t * t = grind arith in rw z (lt_of_mul-lt-mul_right t k)
      | inr z ↦
          let b = mod-lt n h in
          let s = add-mul (n / t) 1 t in
          let k : p * t < (n / t + 1) * t = grind arith in rw z (lt_of_mul-lt-mul_right t k)
    ]

rows_before_next : (p t : ℕ) → 0 < p → (p - 1) * t + t ≡ p * t
rows_before_next zero t h = omega arith
rows_before_next (suc q) t h = let e : suc q - 1 ≡ q = omega arith in rw e (sym (suc-mul q t))

skipped_iff : (p t : ℕ) → 0 < p → 0 < t → (1 < p) ↔ (0 < (p - 1) * t)
skipped_iff zero t h l = omega arith
skipped_iff (suc zero) t h l =
    let z = zero-mul t in ((λ k. omega arith), λ (k : 0 < 0 * t). grind arith)
skipped_iff (suc (suc q)) t h l =
    let q_pos : 0 < suc q = omega arith in
    let m = mul-pos q_pos l in
    let e : suc (suc q) - 1 ≡ suc q = omega arith in ((λ k. rw e m), λ k. omega arith)

-- There is a next page exactly when rows are left behind those of this page, and a previous one
-- exactly when rows are skipped before it.
pub page_meta_flags :
    (o : PageOptions) (n : ℕ)
    → ((page_meta o n).has_next_page ≡ true ↔ (skip o + (page_meta o n).take < n))
      × ((page_meta o n).has_previous_page ≡ true ↔ (0 < skip o))
unfolding page_meta skip
page_meta_flags o n =
    let page = or_else o.page 1 in
    let take = or_else o.take 10 in
    let page_pos = or_else-pos o.page 1 (omega arith) in
    let take_pos = or_else-pos o.take 10 (omega arith) in
    let e = rows_before_next page take page_pos in
    let to = lt_of_lt-ceil_div page n take take_pos in
    let from = lt-ceil_div_of_lt page n take take_pos in
    let before = skipped_iff page take page_pos take_pos in
    (
      ((λ k. grind (arith, to)), λ k. grind (arith, from)),
      ((λ k. before.0 (ground arith)), λ k. ground (arith, before.1)),
    )
