-- ===== src/Frontend/Router/Arrival.antt =====
-- Where navigations end (example/frontend/src/router/index.ts).
use nocodb_middleware.Prelude.{
  ℕ, suc, ◌≡◌, ◌⊎◌, inl, inr, refl, ap, ◌∙◌, true, false, Bool-cases, Option, none, some, Text,
  codes,
}
use nocodb_middleware.Frontend.Session.{
  Session, User, RouteName, home, login, register, admin, is_authenticated, is_token, has_role,
  on_event, log_out_of,
}
use nocodb_middleware.Frontend.Router.{
  Target, Decision, proceed, go_to, Server, decide, meta_of, meta, needs_user, initialize, finish,
  Step, arrived, moved, after_decision, before_each, visit, continue, navigate,
}

-- Which pages a session may see.
abbrev pub MayShow : Session → RouteName → Type 0
MayShow s home = Unit
MayShow s login = is_authenticated s ≡ false
MayShow s register = is_authenticated s ≡ false
MayShow s admin = (is_authenticated s ≡ true) × (has_role (codes "admin") s.user ≡ true)
MayShow s _ = is_authenticated s ≡ true

-- What the tests of the guard come to: the page may be shown, or the next target is the login
-- page for a session without a token, or home.
abbrev Leads : Session → RouteName → Decision → Type 0
Leads s r proceed = MayShow s r
Leads s r (go_to t) = ((is_authenticated s ≡ false) × (t.route ≡ login)) ⊎ (t.route ≡ home)

decide-Leads :
    (s : Session) (r : RouteName) (path : Text) (q : Option Text)
    → Leads s r (decide s (record { route = r; full_path = path; redirect = q }))
unfolding decide meta_of meta
decide-Leads s home path q = tt
decide-Leads s login path q = elim (Bool-cases (is_authenticated s)) [
  | inl e ↦ rw e (inr refl)
  | inr e ↦ rw e e
]
decide-Leads s register path q = elim (Bool-cases (is_authenticated s)) [
  | inl e ↦ rw e (inr refl)
  | inr e ↦ rw e e
]
decide-Leads s admin path q = elim (Bool-cases (is_authenticated s)) [
  | inl e ↦ elim (Bool-cases (has_role (codes "admin") s.user)) [
    | inl k ↦ rw (e, k) (e, k)
    | inr k ↦ rw (e, k) (inr refl)
  ]
  | inr e ↦ rw e (inl (e, refl))
]
decide-Leads s _ path q = elim (Bool-cases (is_authenticated s)) [
  | inl e ↦ rw e e
  | inr e ↦ rw e (inl (e, refl))
]

decide-login :
    (s : Session) (to : Target)
    → is_authenticated s ≡ false
    → to.route ≡ login
    → decide s to ≡ proceed
unfolding decide meta_of meta
decide-login s to e k = rw (k, e) refl

decide-home : (s : Session) (to : Target) → to.route ≡ home → decide s to ≡ proceed
unfolding decide meta_of meta
decide-home s to h = rw h refl

module _ (server : Server) where
  open server use {World, me}

  -- The same, of a step.
  abbrev StepLeads : RouteName → Step server → Type 0
  StepLeads r (arrived s w) = MayShow s r
  StepLeads r (moved s w t) = ((is_authenticated s ≡ false) × (t.route ≡ login)) ⊎ (t.route ≡ home)

  after_decision-Leads :
      (s : Session) (w : World) (r : RouteName) (d : Decision)
      → Leads s r d
      → StepLeads r (after_decision server s w d)
  unfolding after_decision
  after_decision-Leads s w r proceed h = h
  after_decision-Leads s w r (go_to t) h = h

  finish-Leads :
      (s : Session) (a : Option (Option User) × World) (to : Target)
      → StepLeads to.route (before_each server (finish server s a) to)
  unfolding finish before_each on_event log_out_of is_authenticated
  finish-Leads s (none, w) to = inl (refl, refl)
  finish-Leads s (some u, w) to =
      after_decision-Leads _ w to.route _ (decide-Leads _ to.route to.full_path to.redirect)

  visit-Leads : (s : Session) (w : World) (to : Target) → StepLeads to.route (visit server s w to)
  unfolding visit initialize before_each
  visit-Leads s w to = elim (Bool-cases (needs_user s)) [
    | inl e ↦ rw e (finish-Leads _ (me s.token w) to)
    | inr e ↦
        rw e
          (after_decision-Leads s w to.route _ (decide-Leads s to.route to.full_path to.redirect))
  ]

  visit_known :
      (s : Session) (w : World) (to : Target)
      → needs_user s ≡ false
      → visit server s w to ≡ after_decision server s w (decide s to)
  unfolding visit initialize before_each
  visit_known s w to e = rw e refl

  -- Home is shown, or else the login page to a session without a token.
  abbrev HomeLeads : Step server → Type 0
  HomeLeads (arrived s w) = Unit
  HomeLeads (moved s w t) = (is_authenticated s ≡ false) × (t.route ≡ login)

  finish-home :
      (s : Session) (a : Option (Option User) × World) (to : Target)
      → to.route ≡ home
      → HomeLeads (before_each server (finish server s a) to)
  unfolding finish before_each on_event log_out_of is_authenticated is_token after_decision
  finish-home s (none, w) to h = (refl, refl)
  finish-home s (some u, w) to h = rw (decide-home _ to h) tt

  visit-home :
      (s : Session) (w : World) (to : Target) → to.route ≡ home → HomeLeads (visit server s w to)
  unfolding visit initialize before_each after_decision
  visit-home s w to h = elim (Bool-cases (needs_user s)) [
    | inl e ↦ rw e (finish-home _ (me s.token w) to h)
    | inr e ↦ rw e (rw (decide-home s to h) tt)
  ]

  -- A navigation that ended, at a page that may be shown.
  abbrev pub Lands : Option (Session × World × Target) → Type 0
  Lands o = (s : Session) × (w : World) × (to : Target) × (o ≡ some (s, w, to)) × MayShow s to.route

  login-Lands :
      (n : ℕ) (s : Session) (w : World) (to : Target)
      → is_authenticated s ≡ false
      → to.route ≡ login
      → Lands (navigate server (suc n) s w to)
  unfolding navigate continue after_decision needs_user
  login-Lands n s w to e k =
      let known : needs_user s ≡ false = rw e refl in
      let here : visit server s w to ≡ arrived s w =
        visit_known s w to known ∙ ap (after_decision server s w) (decide-login s to e k) in
      (s, w, to, rw here refl, rw k e)

  home-Lands :
      (n : ℕ) (step : Step server) (to : Target)
      → to.route ≡ home
      → HomeLeads step
      → Lands (continue server (navigate server (suc n)) step to)
  unfolding continue
  home-Lands n (arrived s w) to h k = (s, w, to, refl, rw h tt)
  home-Lands n (moved s w t) to h k = login-Lands n s w t k.0 k.1

  navigate_home-Lands :
      (n : ℕ) (s : Session) (w : World) (to : Target)
      → to.route ≡ home
      → Lands (navigate server (suc (suc n)) s w to)
  unfolding navigate
  navigate_home-Lands n s w to h = home-Lands n (visit server s w to) to h (visit-home s w to h)

  step-Lands :
      (n : ℕ) (step : Step server) (to : Target)
      → StepLeads to.route step
      → Lands (continue server (navigate server (suc (suc n))) step to)
  unfolding continue
  step-Lands n (arrived s w) to k = (s, w, to, refl, k)
  step-Lands n (moved s w t) to (inl k) = login-Lands (suc n) s w t k.0 k.1
  step-Lands n (moved s w t) to (inr k) = navigate_home-Lands n s w t k

-- Whatever the server answers on the way, a navigation ends after at most two redirections, at a
-- page that the session may then see: the pages of books, authors, the profile and favorites with
-- a token, the admin page with a token and an administrator as the user, the pages of login and
-- registration without a token.
pub navigate-Lands :
    (server : Server) (n : ℕ) (s : Session) (w : Server.World server) (to : Target)
    → Lands server (navigate server (suc (suc (suc n))) s w to)
unfolding navigate
navigate-Lands server n s w to =
    step-Lands server n (visit server s w to) to (visit-Leads server s w to)
