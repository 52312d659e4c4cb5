-- ===== src/Tests/Web.antt =====
-- Runs of the example frontend.
use nocodb_middleware.Prelude.{filter}
use nocodb_middleware.Js.{equal_num}
use nocodb_middleware.Frontend.Session.{log_out_of}
use nocodb_middleware.Prelude.{same}
use nocodb_middleware.Frontend.Session.{has_role}
use nocodb_middleware.Frontend.Session.{start}
use nocodb_middleware.Frontend.Session.{on_event}
use nocodb_middleware.Frontend.Router.{meta_of}
use nocodb_middleware.Frontend.Router.{decide}
use nocodb_middleware.Frontend.Router.{needs_user}
use nocodb_middleware.Frontend.Router.{initialize}
use nocodb_middleware.Frontend.Router.{visit}
use nocodb_middleware.Prelude.{◌≡◌, refl, none, some, List, [], ◌∷◌, codes, All}
use mathlib.Core.Option
use nocodb_middleware.Js.{int, pos}
use nocodb_middleware.Frontend.Session.{
  Session, User, Effect, Event, new_session, history, is_authenticated, RouteName,
}
use nocodb_middleware.Frontend.Session.Storage.{IsSynced, new_session-IsSynced}
use nocodb_middleware.Frontend.Router.{Target, named, Server, navigate}
use nocodb_middleware.Frontend.Router.Arrival.{Lands, navigate-Lands}
use nocodb_middleware.Frontend.Shelf
use nocodb_middleware.Frontend.Shelf.Removal.{Absent, deleted-stays_Absent}
use nocodb_middleware.Frontend.Shelf.{Book, new_shelf, after, is_book}

abbrev ann : User
ann = record { id = int (pos 1); username = codes "ann"; email = codes "a@b"; role = codes "user" }

-- A server that answers with the user the given number of times, and then fails.
abbrev server : Server
server = record {
  World = List User;
  me = λ token w. elim w [ [] ↦ (none, []) | u ∷ us ↦ (some (some u), us) ];
}

abbrev with_token : Session
with_token = new_session (some (codes "t"))

-- The page of administrators leads a user home, and a session whose token is refused to the login.
admin_to_home :
    Option.map
      (λ (p : Session × List User × Target). p.2.route)
      (navigate server 3 with_token (ann ∷ []) (named RouteName.admin (codes "/admin")))
    ≡ some RouteName.home
unfolding navigate visit initialize needs_user is_authenticated new_session decide meta_of on_event
    start has_role same
admin_to_home = refl

admin_to_login :
    Option.map
      (λ (p : Session × List User × Target). p.2.route)
      (navigate server 3 with_token [] (named RouteName.admin (codes "/admin")))
    ≡ some RouteName.login
unfolding navigate visit initialize needs_user is_authenticated new_session on_event log_out_of
    decide meta_of
admin_to_login = refl

navigate-Lands_example :
    Lands server (navigate server 3 with_token [] (named RouteName.admin (codes "/admin")))
navigate-Lands_example =
    navigate-Lands server 0 with_token [] (named RouteName.admin (codes "/admin"))

abbrev answer : List Event
answer =
    Event.sign_in
    ∷ Event.signed_in (record { access_token = codes "new"; user = ann })
    ∷ Event.settled
    ∷ Event.update_profile
    ∷ Event.log_out
    ∷ Event.sign_up
    ∷ []

new_session-IsSynced_example : All IsSynced (history answer (new_session (some (codes "old"))))
new_session-IsSynced_example = new_session-IsSynced (some (codes "old")) answer

-- An answer to `initialize` behind a logout: there is a user, and no token.
abbrev late_answer : List Event
late_answer = Event.initialize ∷ Event.log_out ∷ Event.initialized (some ann) ∷ []

abbrev last_session : List (List Effect × Session) → Session → Session
last_session [] s = s
last_session ((effects, s) ∷ rest) t = last_session rest s

user_without_token :
    let s = last_session (history late_answer with_token) with_token in
    (s.token ≡ none) × (s.user ≡ some ann)
unfolding history on_event log_out_of
user_without_token = (refl, refl)

abbrev book : Book
book = record { id = int (pos 1); members = [] }

abbrev other : Book
other = record { id = int (pos 2); members = [] }

abbrev events : List Shelf.Event
events = Shelf.Event.created other ∷ Shelf.Event.updated (int (pos 2)) other ∷ []

deleted_absent :
    (after
      (Shelf.Event.deleted (int (pos 1)) ∷ events)
      (record new_shelf { books = book ∷ other ∷ [] })).books
    ≡ other ∷ other ∷ []
unfolding after Shelf.on_event Shelf.replace_first is_book equal_num filter
deleted_absent = refl

abbrev shelved : Shelf.Shelf
shelved = record new_shelf { books = book ∷ other ∷ [] }

deleted-stays_Absent_example :
    Absent (int (pos 1)) (after (Shelf.Event.deleted (int (pos 1)) ∷ events) shelved)
unfolding is_book equal_num
deleted-stays_Absent_example = deleted-stays_Absent (int (pos 1)) events shelved (refl, (refl, tt))
