-- ===== src/Frontend/Shelf/Removal.antt =====
-- Books that were deleted (example/frontend/src/stores/books.ts).
use nocodb_middleware.Prelude.{
  ◌≡◌, refl, Bool, true, false, not, Bool-cases, inl, inr, Option, none, some, List, [], ◌∷◌, All,
  filter, if◌then◌else◌,
}
use nocodb_middleware.Js.{Num}
use nocodb_middleware.Frontend.Shelf.{
  Book, Shelf, Event, is_book, is_current, replace_first, on_event, after,
}

-- The book is neither listed nor the current one.
abbrev pub Absent : Num → Shelf → Type 0
Absent id s = All (λ b. is_book id b ≡ false) s.books × (is_current id s.current_book ≡ false)

-- The event brings no book with the id.
abbrev pub BringsNone : Num → Event → Type 0
BringsNone id (Event.listed bs info) = All (λ b. is_book id b ≡ false) bs
BringsNone id (Event.fetched b) = is_book id b ≡ false
BringsNone id (Event.created b) = is_book id b ≡ false
BringsNone id (Event.updated i b) = is_book id b ≡ false
BringsNone id _ = Unit

filter-Absent :
    (id : Num) (bs : List Book)
    → All (λ b. is_book id b ≡ false) (filter (λ b. not (is_book id b)) bs)
unfolding filter
filter-Absent id [] = tt
filter-Absent id (b ∷ bs) = elim (Bool-cases (is_book id b)) [
  | inl e ↦ rw e (filter-Absent id bs)
  | inr e ↦ rw e (e, filter-Absent id bs)
]

kept-Absent :
    (id i : Num) (bs : List Book)
    → All (λ b. is_book id b ≡ false) bs
    → All (λ b. is_book id b ≡ false) (filter (λ b. not (is_book i b)) bs)
unfolding filter
kept-Absent id i [] h = tt
kept-Absent id i (b ∷ bs) (h, hs) = elim (Bool-cases (is_book i b)) [
  | inl e ↦ rw e (kept-Absent id i bs hs)
  | inr e ↦ rw e (h, kept-Absent id i bs hs)
]

replaced-Absent :
    (id i : Num) (c : Book) (bs : List Book)
    → is_book id c ≡ false
    → All (λ b. is_book id b ≡ false) bs
    → All (λ b. is_book id b ≡ false) (replace_first i c bs)
unfolding replace_first
replaced-Absent id i c [] k h = tt
replaced-Absent id i c (b ∷ bs) k (h, hs) = elim (Bool-cases (is_book i b)) [
  | inl e ↦ rw e (k, hs)
  | inr e ↦ rw e (h, replaced-Absent id i c bs k hs)
]

current-Absent :
    (id : Num) (t : Bool) (a c : Option Book)
    → is_current id a ≡ false
    → is_current id c ≡ false
    → is_current id (if t then a else c) ≡ false
current-Absent id true a c h k = h
current-Absent id false a c h k = k

deleted-Absent : (id : Num) (s : Shelf) → Absent id (on_event (Event.deleted id) s)
unfolding on_event is_current
deleted-Absent id s = (
  filter-Absent id s.books,
  elim (Bool-cases (is_current id s.current_book)) [ inl e ↦ rw e refl | inr e ↦ rw e e ],
)

on_event-Absent :
    (id : Num) (e : Event) (s : Shelf) → BringsNone id e → Absent id s → Absent id (on_event e s)
unfolding on_event is_current
on_event-Absent id (Event.asked a) s n h = h
on_event-Absent id (Event.listed bs info) s n h = (n, h.1)
on_event-Absent id (Event.fetched b) s n h = (h.0, n)
on_event-Absent id (Event.created b) s n h = ((n, h.0), h.1)
on_event-Absent id (Event.updated i b) s n h = (
  replaced-Absent id i b s.books n h.0,
  current-Absent id (is_current i s.current_book) (some b) s.current_book n h.1,
)
on_event-Absent id (Event.deleted i) s n h = (
  kept-Absent id i s.books h.0,
  current-Absent id (is_current i s.current_book) none s.current_book refl h.1,
)
on_event-Absent id (Event.failed a m) s n h = h
on_event-Absent id Event.clear_error s n h = h

after-Absent :
    (id : Num) (es : List Event) (s : Shelf)
    → All (BringsNone id) es
    → Absent id s
    → Absent id (after es s)
unfolding after
after-Absent id [] s n h = h
after-Absent id (e ∷ es) s (n, ns) h =
    after-Absent id es (on_event e s) ns (on_event-Absent id e s n h)

-- A book whose deletion was answered is neither listed nor the current one, and stays so in any
-- history whose answers bring no book with its id.
pub deleted-stays_Absent :
    (id : Num) (es : List Event) (s : Shelf)
    → All (BringsNone id) es
    → Absent id (after (Event.deleted id ∷ es) s)
unfolding after
deleted-stays_Absent id es s n =
    after-Absent id es (on_event (Event.deleted id) s) n (deleted-Absent id s)
