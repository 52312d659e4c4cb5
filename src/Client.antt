-- ===== src/Client.antt =====
-- The HTTP client of the SDK (client/src/http-client.ts): the bearer token of a request, and the
-- refresh of an expired token. What the program does between two awaits is one event; the
-- application may change the stored tokens between any two events, and so may the callback
-- `onRefresh`, which is the application's.
pub mod Session
use nocodb_middleware.Prelude.{
  ℕ, Bool, true, false, not, ◌&&◌, ◌||◌, Option, none, some, List, [], ◌∷◌, Text, same, any, ◌==◌,
  if◌then◌else◌,
}

pub record TokenPair : Type 0 where
  pub access_token : Text
  pub refresh_token : Option Text

same_optional : Option Text → Option Text → Bool
same_optional none none = true
same_optional (some s) (some t) = same s t
same_optional _ _ = false

unfoldable pub same_session : Option TokenPair → Option TokenPair → Bool
unfolding same_optional
same_session none none = true
same_session (some a) (some b) =
    same a.access_token b.access_token && same_optional a.refresh_token b.refresh_token
same_session _ _ = false

-- The token of the `Authorization` header, if one is stored.
unfoldable pub bearer : Option TokenPair → Option Text
bearer none = none
bearer (some p) = elim p.access_token [ [] ↦ none | c ∷ t ↦ some (c ∷ t) ]

-- A request is known by a number; `flagged` are those that carry the retry flag. `pending` is the
-- handler that awaits the callback, with `sessionBefore` and its request.
pub record Client : Type 0 where
  pub storage : Option TokenPair
  pub is_refreshing : Bool
  pub flagged : List ℕ
  pub pending : Option (Option TokenPair × ℕ)

pub data Event : Type 0 where
  rejected : ℕ → ℕ → Event
  refreshed : Text → Event
  refresh_failed : Event
  stored : TokenPair → Event
  cleared : Event

-- An error passed on to the caller, a handler that waits for the callback, a request sent again
-- with the bearer token, or nothing.
pub data Outcome : Type 0 where
  thrown : Outcome
  waits : Outcome
  sent_again : ℕ → Option Text → Outcome
  nothing : Outcome

unfoldable pub is_flagged : ℕ → Client → Bool
is_flagged request c = any (λ r. r == request) c.flagged

-- An error response. `has_refresh` tells whether there is a callback.
unfoldable pub on_error : Bool → ℕ → ℕ → Client → Outcome × Client
on_error has_refresh status request c =
    if status == 401 && (not (is_flagged request c) && (not c.is_refreshing && has_refresh))
    then (
      waits,
      record c {
        flagged = request ∷ c.flagged;
        is_refreshing = true;
        pending = some (c.storage, request);
      },
    )
    else (thrown, c)

-- The tokens to store, if the session did not change but by the callback.
unfoldable pub renewed : Option TokenPair → Option TokenPair → Text → Option TokenPair
renewed before none token = none
renewed before (some p) token =
    if not (same_session (some p) before) && not (same p.access_token token)
    then none
    else some (record p { access_token = token })

unfoldable pub send_again : ℕ → Option TokenPair → Client → Outcome × Client
send_again request none c = (thrown, c)
send_again request (some p) c =
    (sent_again request (bearer (some p)), record c { storage = some p })

-- The handler goes on with the new token.
unfoldable pub resume : Text → Option (Option TokenPair × ℕ) → Client → Outcome × Client
resume token none c = (nothing, c)
resume token (some (before, request)) c =
    send_again request (renewed before c.storage token)
      (record c { is_refreshing = false; pending = none })

-- The callback returned a token.
unfoldable pub on_refreshed : Text → Client → Outcome × Client
on_refreshed token c = resume token c.pending c

unfoldable pub give_up : Option (Option TokenPair × ℕ) → Client → Outcome × Client
give_up none c = (nothing, c)
give_up (some p) c = (thrown, record c { storage = none; is_refreshing = false; pending = none })

-- It threw.
unfoldable pub on_refresh_failed : Client → Outcome × Client
on_refresh_failed c = give_up c.pending c

unfoldable pub on_event : Bool → Event → Client → Outcome × Client
on_event has_refresh (rejected status request) c = on_error has_refresh status request c
on_event has_refresh (refreshed token) c = on_refreshed token c
on_event has_refresh refresh_failed c = on_refresh_failed c
on_event has_refresh (stored p) c = (nothing, record c { storage = some p })
on_event has_refresh cleared c = (nothing, record c { storage = none })

-- The outcomes of a history, in order.
unfoldable pub history : Bool → List Event → Client → List Outcome × Client
history has_refresh [] c = ([], c)
history has_refresh (e ∷ es) c =
    let (o, next) = on_event has_refresh e c in
    let (os, last) = history has_refresh es next in (o ∷ os, last)

abbrev pub new_client : Client
new_client = record { storage = none; is_refreshing = false; flagged = []; pending = none }
