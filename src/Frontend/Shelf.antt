-- ===== src/Frontend/Shelf.antt =====
-- The store of the books (example/frontend/src/stores/books.ts). Of a book the store reads only
-- the id; its other members are a record.
pub mod Removal
use nocodb_middleware.Prelude.{
  ℕ, zero, suc, Bool, true, false, not, Option, none, some, List, [], ◌∷◌, ◌++◌, Text, codes,
  filter, if◌then◌else◌,
}
use nocodb_middleware.Js.{ℤ, Num, Value, int, pos, negsuc, num, num_text, text, equal_num}
use nocodb_middleware.Types.{NocoRecord}

pub record Book : Type 0 where
  pub id : Num
  pub members : NocoRecord

pub record PageInfo : Type 0 where
  pub total : ℤ
  pub page : ℕ
  pub limit : ℕ
  pub total_pages : Num
  pub has_next_page : Bool
  pub has_prev_page : Bool

pub record PageOptions : Type 0 where
  pub page : Option ℕ
  pub limit : Option ℕ
  pub sort_by : Option Text
  pub sort_order : Option Text
  pub search : Option Text

pub record Shelf : Type 0 where
  pub books : List Book
  pub current_book : Option Book
  pub loading : Bool
  pub error : Option Text
  pub page_info : PageInfo

abbrev pub new_shelf : Shelf
new_shelf = record {
  books = [];
  current_book = none;
  loading = false;
  error = none;
  page_info = record {
    total = pos 0;
    page = 1;
    limit = 10;
    total_pages = int (pos 0);
    has_next_page = false;
    has_prev_page = false;
  };
}

-- `if (options.key) params.key = options.key`
number_option : Text → Option ℕ → List (Text × Value)
number_option key (some (suc n)) = (key, num (int (pos (suc n)))) ∷ []
number_option key _ = []

text_option : Text → Option Text → List (Text × Value)
text_option key (some (c ∷ t)) = (key, text (c ∷ t)) ∷ []
text_option key _ = []

unfoldable pub page_params : PageOptions → List (Text × Value)
unfolding number_option text_option
page_params o =
    number_option (codes "page") o.page
    ++ (number_option (codes "limit") o.limit
        ++ (text_option (codes "sortBy") o.sort_by ++ text_option (codes "sortOrder") o.sort_order))

-- A request of `authStore.api`.
pub record ApiRequest : Type 0 where
  pub verb : Text
  pub path : Text
  pub params : List (Text × Value)

-- What an action asks for.
pub data Ask : Type 0 where
  fetch_books : PageOptions → Ask
  fetch_books_by_price_range : Num → Num → PageOptions → Ask
  search_books : Text → PageOptions → Ask
  fetch_books_by_author : Num → PageOptions → Ask
  fetch_book : Num → Ask
  create_book : Ask
  update_book : Num → Ask
  delete_book : Num → Ask

get_from : Text → List (Text × Value) → ApiRequest
get_from path params = record { verb = codes "GET"; path = path; params = params }

send_to : Text → Text → ApiRequest
send_to verb path = record { verb = verb; path = path; params = [] }

book_path : Num → Text
book_path id = codes "/books/" ++ num_text id

unfoldable pub request_of : Ask → ApiRequest
unfolding text_option get_from send_to book_path
request_of (fetch_books o) =
    get_from (codes "/books") (page_params o ++ text_option (codes "search") o.search)
request_of (fetch_books_by_price_range low high o) =
    get_from (codes "/books/price-range")
      ((codes "min", num low) ∷ ((codes "max", num high) ∷ page_params o))
request_of (search_books q o) =
    get_from (codes "/books/search") ((codes "q", text q) ∷ page_params o)
request_of (fetch_books_by_author id o) =
    get_from (codes "/books/author/" ++ num_text id) (page_params o)
request_of (fetch_book id) = get_from (book_path id) []
request_of create_book = send_to (codes "POST") (codes "/books")
request_of (update_book id) = send_to (codes "PUT") (book_path id)
request_of (delete_book id) = send_to (codes "DELETE") (book_path id)

default_message : Ask → Text
default_message (fetch_books o) = codes "Failed to fetch books"
default_message (fetch_books_by_price_range l h o) = codes "Failed to fetch books by price range"
default_message (search_books q o) = codes "Failed to search books"
default_message (fetch_books_by_author id o) = codes "Failed to fetch books by author"
default_message (fetch_book id) = codes "Failed to fetch book"
default_message create_book = codes "Failed to create book"
default_message (update_book id) = codes "Failed to update book"
default_message (delete_book id) = codes "Failed to delete book"

-- The actions, cut at their awaits: what starts, what is answered to a listing, to `fetchBook`,
-- `createBook`, `updateBook` and `deleteBook`, and failures, with the message if there is one.
pub data Event : Type 0 where
  asked : Ask → Event
  listed : List Book → PageInfo → Event
  fetched created : Book → Event
  updated : Num → Book → Event
  deleted : Num → Event
  failed : Ask → Option Text → Event
  clear_error : Event

unfoldable pub is_book : Num → Book → Bool
is_book id b = equal_num b.id id

-- The first book with the id is replaced.
unfoldable pub replace_first : Num → Book → List Book → List Book
replace_first id b [] = []
replace_first id b (c ∷ cs) = if is_book id c then b ∷ cs else c ∷ replace_first id b cs

-- `currentBook?.id === id`
unfoldable pub is_current : Num → Option Book → Bool
is_current id none = false
is_current id (some b) = is_book id b

plus_one : ℤ → ℤ
plus_one (pos n) = pos (suc n)
plus_one (negsuc zero) = pos 0
plus_one (negsuc (suc n)) = negsuc n

minus_one : ℤ → ℤ
minus_one (pos zero) = negsuc 0
minus_one (pos (suc n)) = pos n
minus_one (negsuc n) = negsuc (suc n)

message_or : Text → Option Text → Text
message_or d (some (c ∷ t)) = c ∷ t
message_or d _ = d

unfoldable pub on_event : Event → Shelf → Shelf
unfolding default_message plus_one minus_one message_or
on_event (asked a) s = record s { loading = true; error = none }
on_event (listed bs info) s = record s { books = bs; page_info = info; loading = false }
on_event (fetched b) s = record s { current_book = some b; loading = false }
on_event (created b) s = record s {
  books = b ∷ s.books;
  page_info = record (s.page_info) { total = plus_one s.page_info.total };
  loading = false;
}
on_event (updated id b) s = record s {
  books = replace_first id b s.books;
  current_book = if is_current id s.current_book then some b else s.current_book;
  loading = false;
}
on_event (deleted id) s = record s {
  books = filter (λ b. not (is_book id b)) s.books;
  current_book = if is_current id s.current_book then none else s.current_book;
  page_info = record (s.page_info) { total = minus_one s.page_info.total };
  loading = false;
}
on_event (failed a message) s = record s {
  error = some (message_or (default_message a) message);
  loading = false;
}
on_event clear_error s = record s { error = none }

unfoldable pub after : List Event → Shelf → Shelf
after [] s = s
after (e ∷ es) s = after es (on_event e s)
