-- ===== src/Frontend/Router.antt =====
-- The routes and the navigation guard of the example frontend
-- (example/frontend/src/router/index.ts). A navigation of the guard replaces the one that it
-- interrupts, and so does the navigation to the login page with which the store's `logout` ends.
pub mod Arrival
use nocodb_middleware.Prelude.{
  ℕ, zero, suc, Bool, true, false, not, ◌&&◌, Option, none, some, List, [], ◌∷◌, Text, codes, same,
  if◌then◌else◌,
}
use nocodb_middleware.Frontend.Session.{
  Session, User, RouteName, home, login, register, books, authors, profile, favorites, admin, Event,
  is_authenticated, has_role, on_event,
}

pub record RouteMeta : Type 0 where
  pub requires_auth : Bool
  pub hide_for_auth : Bool
  pub requires_admin : Bool

meta : Bool → Bool → Bool → RouteMeta
meta auth hide adm = record { requires_auth = auth; hide_for_auth = hide; requires_admin = adm }

unfoldable pub meta_of : RouteName → RouteMeta
unfolding meta
meta_of home = meta false false false
meta_of login = meta false true false
meta_of register = meta false true false
meta_of books = meta true false false
meta_of authors = meta true false false
meta_of profile = meta true false false
meta_of favorites = meta true false false
meta_of admin = meta true false true

-- The route of a path; any other path is redirected to `/`.
unfoldable pub route_of : Text → RouteName
route_of path =
    if same path (codes "/login")
    then login
    else if same path (codes "/register")
    then register
    else if same path (codes "/books")
    then books
    else if same path (codes "/authors")
    then authors
    else if same path (codes "/profile")
    then profile
    else if same path (codes "/favorites")
    then favorites
    else if same path (codes "/admin")
    then admin
    else home

-- A navigation, with the query `redirect` of the login page.
pub record Target : Type 0 where
  pub route : RouteName
  pub full_path : Text
  pub redirect : Option Text

abbrev pub named : RouteName → Text → Target
named r path = record { route = r; full_path = path; redirect = none }

pub data Decision : Type 0 where
  proceed : Decision
  go_to : Target → Decision

-- The tests of the guard, behind the initialization.
unfoldable pub decide : Session → Target → Decision
decide s to =
    let m = meta_of to.route in
    if m.requires_auth && not (is_authenticated s)
    then go_to (record { route = login; full_path = codes "/login"; redirect = some to.full_path })
    else if m.hide_for_auth && is_authenticated s
    then go_to (named home (codes "/"))
    else if m.requires_admin && (is_authenticated s && not (has_role (codes "admin") s.user))
    then go_to (named home (codes "/"))
    else proceed

-- What `/users/me` answers: `none` is an error.
pub record Server : Type 1 where
  pub World : Type 0
  pub me : Option Text → World → Option (Option User) × World

is_none : Option User → Bool
is_none none = true
is_none (some u) = false

-- `token && !user`
unfoldable pub needs_user : Session → Bool
unfolding is_none
needs_user s = is_authenticated s && is_none s.user

module _ (server : Server) where
  open server use {World, me}

  -- The end of `initialize`; the second part tells whether it logged out.
  finish : Session → Option (Option User) × World → (Session × Bool) × World
  finish s (none, w) = (((on_event Event.initialize_failed s).1, true), w)
  finish s (some u, w) = (((on_event (Event.initialized u) s).1, false), w)

  unfoldable pub initialize : Session → World → (Session × Bool) × World
  unfolding finish
  initialize s w =
      if needs_user s
      then finish (on_event Event.initialize s).1 (me s.token w)
      else ((s, false), w)

  -- Where a navigation leads, or the next one.
  pub data Step : Type 0 where
    arrived : Session → World → Step
    moved : Session → World → Target → Step

  after_decision : Session → World → Decision → Step
  after_decision s w proceed = arrived s w
  after_decision s w (go_to next) = moved s w next

  before_each : (Session × Bool) × World → Target → Step
  unfolding after_decision
  before_each ((s, true), w) to = moved s w (named login (codes "/login"))
  before_each ((s, false), w) to = after_decision s w (decide s to)

  unfoldable pub visit : Session → World → Target → Step
  unfolding before_each
  visit s w to = before_each (initialize s w) to

  continue :
      (Session → World → Target → Option (Session × World × Target))
      → Step
      → Target
      → Option (Session × World × Target)
  continue next (arrived s w) to = some (s, w, to)
  continue next (moved s w t) to = next s w t

  -- The page on which a navigation ends, on fuel: the number of its redirections.
  unfoldable pub navigate : ℕ → Session → World → Target → Option (Session × World × Target)
  unfolding continue
  navigate zero s w to = none
  navigate (suc fuel) s w to = continue (navigate fuel) (visit s w to) to
