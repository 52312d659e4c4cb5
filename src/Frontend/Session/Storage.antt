-- ===== src/Frontend/Session/Storage.antt =====
-- The token in memory and the stored one (example/frontend/src/stores/auth.ts).
use nocodb_middleware.Prelude.{
  ◌≡◌, refl, Bool-cases, inl, inr, Option, none, some, List, [], ◌∷◌, Text, All,
}
use nocodb_middleware.Js.{truthy_num}
use nocodb_middleware.Frontend.Session.{
  Session, User, Effect, request, push, bearer, Event, start, send, fail, log_out_of, start_update,
  is_token, on_event, new_session, history,
}

-- The token of a request is the stored one; there is none if none is stored or the stored one is
-- empty.
abbrev pub IsStored : Option Text → Option Text → Type 0
IsStored token none = token ≡ none
IsStored token (some []) = token ≡ none
IsStored token (some (c ∷ t)) = token ≡ some (c ∷ t)

abbrev pub Carries : Option Text → Effect → Type 0
Carries stored (request verb path token) = IsStored token stored
Carries stored (push name) = Unit

bearer-IsStored : (token stored : Option Text) → token ≡ stored → IsStored (bearer token) stored
unfolding bearer
bearer-IsStored token none h = rw h refl
bearer-IsStored token (some []) h = rw h refl
bearer-IsStored token (some (c ∷ t)) h = rw h refl

-- The token in memory is the stored one, and the requests carried it.
abbrev pub IsSynced : List Effect × Session → Type 0
IsSynced (effects, s) = (s.token ≡ s.stored_token) × All (Carries s.stored_token) effects

fail-IsSynced :
    (t : Text) (m : Option Text) (s : Session)
    → s.token ≡ s.stored_token
    → IsSynced ([], fail t m s)
unfolding fail
fail-IsSynced t (some (c ∷ m)) s h = (h, tt)
fail-IsSynced t (some []) s h = (h, tt)
fail-IsSynced t none s h = (h, tt)

update-IsSynced :
    (u : Option User) (s : Session) → s.token ≡ s.stored_token → IsSynced (start_update u s)
unfolding start_update start send
update-IsSynced none s h = (h, tt)
update-IsSynced (some u) s h = elim (Bool-cases (truthy_num u.id)) [
  | inl e ↦ rw e (h, (bearer-IsStored _ _ h, tt))
  | inr e ↦ rw e (h, tt)
]

on_event-IsSynced : (e : Event) (s : Session) → s.token ≡ s.stored_token → IsSynced (on_event e s)
unfolding on_event start send log_out_of
on_event-IsSynced Event.initialize s h = elim (Bool-cases (is_token s.token)) [
  | inl e ↦ rw e (h, (bearer-IsStored _ _ h, tt))
  | inr e ↦ rw e (h, tt)
]
on_event-IsSynced (Event.initialized u) s h = (h, tt)
on_event-IsSynced Event.initialize_failed s h = (refl, (tt, tt))
on_event-IsSynced Event.log_out s h = (refl, (tt, tt))
on_event-IsSynced Event.clear_error s h = (h, tt)
on_event-IsSynced Event.settled s h = (h, tt)
on_event-IsSynced Event.sign_in s h = (h, (bearer-IsStored _ _ h, tt))
on_event-IsSynced Event.sign_up s h = (h, (bearer-IsStored _ _ h, tt))
on_event-IsSynced (Event.signed_in r) s h = (refl, (tt, tt))
on_event-IsSynced (Event.sign_in_failed m) s h = fail-IsSynced _ m s h
on_event-IsSynced (Event.sign_up_failed m) s h = fail-IsSynced _ m s h
on_event-IsSynced Event.update_profile s h = update-IsSynced s.user s h
on_event-IsSynced (Event.profile_updated u) s h = (h, tt)
on_event-IsSynced (Event.update_profile_failed m) s h = fail-IsSynced _ m s h
on_event-IsSynced Event.update_password s h = (h, (bearer-IsStored _ _ h, tt))
on_event-IsSynced Event.password_updated s h = (h, tt)
on_event-IsSynced (Event.update_password_failed m) s h = fail-IsSynced _ m s h

history-IsSynced :
    (es : List Event) (s : Session) → s.token ≡ s.stored_token → All IsSynced (history es s)
unfolding history
history-IsSynced [] s h = tt
history-IsSynced (e ∷ es) s h =
    let k = on_event-IsSynced e s h in (k, history-IsSynced es (on_event e s).1 k.0)

-- However actions, answers and failures follow one another after the start, the token in memory is
-- the one in localStorage behind every event, and each request of an event carries the stored
-- token: none if none is stored or the stored one is empty.
pub new_session-IsSynced :
    (stored : Option Text) (es : List Event) → All IsSynced (history es (new_session stored))
unfolding new_session
new_session-IsSynced stored es = history-IsSynced es (new_session stored) refl
