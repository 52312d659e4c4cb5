-- ===== src/Example/Pages.antt =====
-- Pages of the example backend (example/src/shared/interfaces/book.interface.ts, and the private
-- helpers that its three services repeat). Page numbers and limits are natural numbers, as
-- `PageOptionsDto` declares them.
use nocodb_middleware.Prelude.{
  ℕ, zero, suc, ◌*◌, Bool, true, false, Option, none, some, List, Text, codes, same, ltb,
  if◌then◌else◌,
}
use nocodb_middleware.Js.{ℤ, pos, negsuc, Num, nan, infinite, int, Value, text}
use nocodb_middleware.Result.{Result, ok, err}
use nocodb_middleware.Effects.{Exec}
use nocodb_middleware.Page.{ceil_div}
use nocodb_middleware.Example.Backend.{JwtPayload}

pub record PageOptions : Type 0 where
  pub page : Option ℕ
  pub limit : Option ℕ
  pub sort_by : Option Text
  pub sort_order : Option Text
  pub search : Option Text

pub record Meta : Type 0 where
  pub total : ℕ
  pub page : ℕ
  pub limit : ℕ
  pub total_pages : Num
  pub has_next_page : Bool
  pub has_prev_page : Bool

pub record Paged (T : Type 0) : Type 0 where
  pub rows : List T
  pub meta : Meta

-- `Math.ceil(total / limit)`
unfoldable pub pages_of : ℕ → ℕ → Num
unfolding ceil_div
pages_of zero zero = nan
pages_of (suc total) zero = infinite false
pages_of total (suc limit) = int (pos (ceil_div total (suc limit)))

-- `page < totalPages`
unfoldable pub before_last : ℕ → Num → Bool
before_last page (int (pos n)) = ltb page n
before_last page (infinite negative) = if negative then false else true
before_last page _ = false

unfoldable pub build_pagination_meta : {T : Type 0} → List T → ℕ → ℕ → ℕ → Paged T
unfolding pages_of before_last
build_pagination_meta rows total page limit = record {
  rows = rows;
  meta = record {
    total = total;
    page = page;
    limit = limit;
    total_pages = pages_of total limit;
    has_next_page = before_last page (pages_of total limit);
    has_prev_page = ltb 1 page;
  };
}

pub record PaginationParams : Type 0 where
  pub page : ℕ
  pub limit : ℕ
  pub sort_by : Text
  pub sort_order : Text
  pub offset : ℤ

given : {A : Type 0} → Option A → A → A
given none d = d
given (some a) d = a

-- `(page - 1) * limit`
unfoldable pub offset_of : ℕ → ℕ → ℤ
offset_of zero zero = pos 0
offset_of zero (suc n) = negsuc n
offset_of (suc p) limit = pos (p * limit)

unfoldable pub get_pagination_params : PageOptions → Text → PaginationParams
unfolding given offset_of
get_pagination_params o default_sort = record {
  page = given o.page 1;
  limit = given o.limit 10;
  sort_by = given o.sort_by default_sort;
  sort_order = given o.sort_order (codes "ASC");
  offset = offset_of (given o.page 1) (given o.limit 10);
}

-- `role === name`
unfoldable pub role_is : Text → Value → Bool
role_is name (text t) = same t name
role_is name _ = false

unfoldable pub is_guest : JwtPayload → Bool
unfolding role_is
is_guest user = role_is (codes "guest") user.role

-- `Promise.all([first, second])`: both are started, whatever becomes of the other; here the first
-- one runs first.
join_results : {A B : Type 0} → Result A → Result B → Result (A × B)
join_results (err e) second = err e
join_results (ok a) (err e) = err e
join_results (ok a) (ok b) = ok (a, b)

unfoldable pub both : {W A B : Type 0} → Exec W A → Exec W B → Exec W (A × B)
unfolding join_results
both first second w = let (a, w') = first w in let (b, w'') = second w' in (join_results a b, w'')
