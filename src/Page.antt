-- ===== src/Page.antt =====
-- Pages of the admin endpoints (src/nocodb/dto/page-options.dto.ts, page-meta.dto.ts, page.dto.ts).
pub mod Navigation
use nocodb_middleware.Prelude.{
  ℕ, zero, suc, ◌+◌, ◌-◌, ◌*◌, ◌/◌, ◌%◌, Bool, true, false, Option, none, some, List, [], length,
  ltb, ◌==◌, if◌then◌else◌,
}

-- Validated: whole numbers, if given.
pub record PageOptions : Type 0 where
  pub page : Option ℕ
  pub take : Option ℕ

abbrev pub default_page_options : PageOptions
default_page_options = record { page = some 1; take = some 10 }

-- `n || d`
unfoldable pub or_else : Option ℕ → ℕ → ℕ
or_else none d = d
or_else (some zero) d = d
or_else (some (suc n)) d = suc n

unfoldable pub skip : PageOptions → ℕ
unfolding or_else
skip o = (or_else o.page 1 - 1) * or_else o.take 10

-- `Math.ceil(a / b)`
unfoldable pub ceil_div : ℕ → ℕ → ℕ
ceil_div a b = if a % b == 0 then a / b else a / b + 1

pub record PageMeta : Type 0 where
  pub page : ℕ
  pub take : ℕ
  pub item_count : ℕ
  pub page_count : ℕ
  pub has_previous_page : Bool
  pub has_next_page : Bool

unfoldable pub page_meta : PageOptions → ℕ → PageMeta
unfolding or_else ceil_div
page_meta o item_count =
    let page = or_else o.page 1 in
    let take = or_else o.take 10 in
    let page_count = ceil_div item_count take in
    record {
      page = page;
      take = take;
      item_count = item_count;
      page_count = page_count;
      has_previous_page = ltb 1 page;
      has_next_page = ltb page page_count;
    }

pub record Page {ℓ} (A : Type ℓ) : Type ℓ where
  pub rows : List A
  pub meta : PageMeta

-- `pageOptionsDto || new PageOptionsDto()`
options_or_default : Option PageOptions → PageOptions
options_or_default none = default_page_options
options_or_default (some o) = o

-- `pageOptionsDto?.take ?? 10` and `pageOptionsDto?.skip ?? 0`
unfoldable pub limit_of : Option PageOptions → ℕ
limit_of none = 10
limit_of (some o) = elim o.take [ none ↦ 10 | some n ↦ n ]

unfoldable pub offset_of : Option PageOptions → ℕ
offset_of none = 0
offset_of (some o) = skip o

-- Without page options the rows are counted, else the server's total, if there is one.
item_count {ℓ} : {A : Type ℓ} → Option PageOptions → Option ℕ → List A → ℕ
item_count none total rows = length rows
item_count (some o) none rows = length rows
item_count (some o) (some n) rows = n

unfoldable pub empty_page {ℓ} : {A : Type ℓ} → Option PageOptions → Page A
unfolding options_or_default
empty_page o = record { rows = []; meta = page_meta (options_or_default o) 0 }

unfoldable pub page_of {ℓ} : {A : Type ℓ} → Option PageOptions → Option ℕ → List A → Page A
unfolding options_or_default item_count
page_of o total rows = record {
  rows = rows;
  meta = page_meta (options_or_default o) (item_count o total rows);
}
