-- ===== src/TableName.antt =====
-- The rule for logical table names (src/common/validation/table-name.ts).
pub mod Safety
use nocodb_middleware.Prelude.{
  ℕ, ◌+◌, ◌-◌, ◌*◌, Bool, true, false, ◌&&◌, ◌||◌, List, [], ◌∷◌, Text, length, all, leb, ◌==◌,
  if◌then◌else◌,
}

is_high : ℕ → Bool
is_high c = leb 0xd800 c && leb c 0xdbff

is_low : ℕ → Bool
is_low c = leb 0xdc00 c && leb c 0xdfff

-- A regular expression with the flag `u` reads code points.
unfoldable pub code_points : Text → List ℕ
unfolding is_high is_low
code_points [] = []
code_points (c ∷ []) = c ∷ []
code_points (c ∷ d ∷ t) =
    let pair = (0x10000 + (c - 0xd800) * 0x400 + (d - 0xdc00)) ∷ code_points t in
    let single = c ∷ code_points (d ∷ t) in if is_high c && is_low d then pair else single

unfoldable pub last_or : ℕ → List ℕ → ℕ
last_or d [] = d
last_or d (c ∷ cs) = last_or c cs

-- `\p{L}` and `\p{N}` are tables of the language's runtime.
module _ (is_letter_or_number : ℕ → Bool) where
  -- `[\p{L}\p{N}_-]`, and with a space
  unfoldable pub is_word : ℕ → Bool
  is_word c = is_letter_or_number c || c == b'_' || c == b'-'

  unfoldable pub is_inner : ℕ → Bool
  is_inner c = is_word c || c == 32

  -- One character of the class, or two with at most 253 inner characters between them.
  matches_name : List ℕ → Bool
  matches_name [] = false
  matches_name (c ∷ cs) =
      is_word c && is_word (last_or c cs) && all is_inner (c ∷ cs) && leb (length (c ∷ cs)) 255

  unfoldable pub is_valid_table_name : Text → Bool
  unfolding matches_name is_word is_inner
  is_valid_table_name name = matches_name (code_points name)
