-- ===== src/Js.antt =====
-- The values of the source's language that cross its interfaces: numbers, and the cells of records
-- (src/nocodb/nocodb.types.ts types a cell `unknown`).
use nocodb_middleware.Prelude.{
  ℕ, zero, suc, ◌+◌, ◌/◌, ◌%◌, ◌≡◌, refl, ◌↔◌, Bool, true, false, not, [], ◌∷◌, Text, codes, same,
  same_iff, starts_with, ◌==◌, ltb, if◌then◌else◌, arith,
}

-- `negsuc n` is -(n + 1).
pub data ℤ : Type 0 where
  pos negsuc : ℕ → ℤ

-- A number of the source. Integers below 10^21 in magnitude are `int`; a larger one, and a
-- fraction, is given by its shortest decimal text, which tells the values apart. -0 is 0.
pub data Num : Type 0 where
  nan : Num
  infinite : Bool → Num
  int : ℤ → Num
  large frac : Text → Num

-- What stands in a field of a record or a payload. An array or object is given by the text that
-- the language converts it to.
pub data Value : Type 0 where
  undefined null : Value
  bool : Bool → Value
  num : Num → Value
  text : Text → Value
  structured : Text → Value

-- `Number.isInteger`, `Number.isFinite`, `n > 0`.
unfoldable pub is_integer : Num → Bool
is_integer (int z) = true
is_integer (large t) = true
is_integer _ = false

unfoldable pub is_finite : Num → Bool
is_finite nan = false
is_finite (infinite s) = false
is_finite _ = true

minus : Text → Bool
minus t = starts_with (codes "-") t

unfoldable pub is_positive : Num → Bool
unfolding minus
is_positive nan = false
is_positive (infinite negative) = not negative
is_positive (int (pos zero)) = false
is_positive (int (pos (suc n))) = true
is_positive (int (negsuc n)) = false
is_positive (large t) = not (minus t)
is_positive (frac t) = not (minus t)

-- Keys of a `Map` or `Set` of numbers: `===`, but that NaN is itself.
unfoldable pub same_num : Num → Num → Bool
same_num nan nan = true
same_num (infinite true) (infinite true) = true
same_num (infinite false) (infinite false) = true
same_num (int (pos m)) (int (pos n)) = m == n
same_num (int (negsuc m)) (int (negsuc n)) = m == n
same_num (large s) (large t) = same s t
same_num (frac s) (frac t) = same s t
same_num _ _ = false

-- `===` on numbers.
unfoldable pub equal_num : Num → Num → Bool
unfolding same_num
equal_num nan _ = false
equal_num m n = same_num m n

unfoldable pub truthy_num : Num → Bool
truthy_num nan = false
truthy_num (int (pos zero)) = false
truthy_num _ = true

unfoldable pub truthy_text : Text → Bool
truthy_text [] = false
truthy_text (c ∷ t) = true

unfoldable pub truthy : Value → Bool
unfolding truthy_num truthy_text
truthy undefined = false
truthy null = false
truthy (bool b) = b
truthy (num n) = truthy_num n
truthy (text t) = truthy_text t
truthy (structured t) = true

-- `v ?? w`.
unfoldable pub or_default : Value → Value → Value
or_default undefined w = w
or_default null w = w
or_default v w = v

-- `Number(v)`; `parse` is the language's conversion of text.
unfoldable pub to_number : (Text → Num) → Value → Num
to_number parse undefined = nan
to_number parse null = int (pos 0)
to_number parse (bool true) = int (pos 1)
to_number parse (bool false) = int (pos 0)
to_number parse (num n) = n
to_number parse (text t) = parse t
to_number parse (structured t) = parse t

-- The decimal digits of a number before what stands behind them. The fuel `n + 1` is more than
-- the number of digits.
unfoldable pub digits_from : ℕ → ℕ → Text → Text
digits_from zero n acc = acc
digits_from (suc f) n acc =
    let rest = digits_from f (n / 10) ((b'0' + n % 10) ∷ acc) in
    if ltb n 10 then (b'0' + n) ∷ acc else rest

unfoldable pub decimal : ℕ → Text
unfolding digits_from
decimal n = digits_from (suc n) n []

-- `String(n)`.
unfoldable pub num_text : Num → Text
unfolding decimal
num_text nan = codes "NaN"
num_text (infinite true) = codes "-Infinity"
num_text (infinite false) = codes "Infinity"
num_text (int (pos n)) = decimal n
num_text (int (negsuc n)) = b'-' ∷ decimal (n + 1)
num_text (large t) = t
num_text (frac t) = t

-- `String(v)`, as in a template literal.
unfoldable pub value_string : Value → Text
unfolding num_text
value_string undefined = codes "undefined"
value_string null = codes "null"
value_string (bool true) = codes "true"
value_string (bool false) = codes "false"
value_string (num n) = num_text n
value_string (text t) = t
value_string (structured t) = t

pub same_num_iff : (m n : Num) → (same_num m n ≡ true) ↔ (m ≡ n)
unfolding same_num
same_num_iff nan n = ground arith
same_num_iff (infinite true) n = ground arith
same_num_iff (infinite false) n = ground arith
same_num_iff (int (pos i)) n = ground arith
same_num_iff (int (negsuc i)) n = ground arith
same_num_iff (large s) (large t) = ground (arith, same_iff s t)
same_num_iff (large s) _ = ground arith
same_num_iff (frac s) (frac t) = ground (arith, same_iff s t)
same_num_iff (frac s) _ = ground arith

pub same_num_refl : (n : Num) → same_num n n ≡ true
same_num_refl n = (same_num_iff n n).1 refl
