-- ===== src/Client/Session.antt =====
-- Tokens of an old session, and repeated refreshes (client/src/http-client.ts).
use mathlib.Core.Path.{subst}
use nocodb_middleware.Prelude.{
  ℕ, ◌+◌, ◌≤◌, ◌≡◌, refl, inl, inr, Bool, false, not, ◌&&◌, Option, none, some, List, [], ◌∷◌, Text,
  any, All, ◌==◌, if◌then◌else◌, Bool-cases, arith,
}
use nocodb_middleware.Client.{
  TokenPair, Client, Event, rejected, refreshed, refresh_failed, stored, cleared, Outcome,
  sent_again, is_flagged, on_error, renewed, send_again, resume, give_up, on_refreshed,
  on_refresh_failed, on_event, history, new_client,
}

-- No event stores tokens but the handler itself.
abbrev pub IsSilent : Event → Type 0
IsSilent (stored p) = ⊥
IsSilent _ = Unit

signed_out_resume :
    (token : Text) (p : Option (Option TokenPair × ℕ)) (c : Client)
    → c.storage ≡ none
    → (resume token p c).1.storage ≡ none
unfolding resume renewed send_again
signed_out_resume token none c h = h
signed_out_resume token (some (before, q)) c h = rw h refl

signed_out_give_up :
    (p : Option (Option TokenPair × ℕ)) (c : Client)
    → c.storage ≡ none
    → (give_up p c).1.storage ≡ none
unfolding give_up
signed_out_give_up none c h = h
signed_out_give_up (some p) c h = refl

signed_out_step :
    (b : Bool) (e : Event) (c : Client)
    → IsSilent e
    → c.storage ≡ none
    → (on_event b e c).1.storage ≡ none
unfolding on_event on_error on_refreshed on_refresh_failed
signed_out_step b (rejected status request) c q h =
    let test = status == 401 && (not (is_flagged request c) && (not c.is_refreshing && b)) in
    elim (Bool-cases test) [ inl k ↦ rw k h | inr k ↦ rw k h ]
signed_out_step b (refreshed token) c q h = signed_out_resume token c.pending c h
signed_out_step b refresh_failed c q h = signed_out_give_up c.pending c h
signed_out_step b (stored p) c q h = absurd q
signed_out_step b cleared c q h = refl

-- After the user signed out, no end of a pending refresh stores a token again: the storage stays
-- empty in any history of responses and refreshes in which the application stores no tokens.
pub signed_out-stays :
    (b : Bool) (es : List Event) (c : Client)
    → All IsSilent es
    → c.storage ≡ none
    → (history b es c).1.storage ≡ none
unfolding history
signed_out-stays b [] c q h = h
signed_out-stays b (e ∷ es) c (q, qs) h =
    signed_out-stays b es (on_event b e c).1 qs (signed_out_step b e c q h)

sent : ℕ → Outcome → ℕ
sent r (sent_again q token) = if q == r then 1 else 0
sent r _ = 0

-- How often the request is sent again in a history.
unfoldable pub times_sent : ℕ → List Outcome → ℕ
unfolding sent
times_sent r [] = 0
times_sent r (o ∷ os) = sent r o + times_sent r os

waiting_for : ℕ → Option (Option TokenPair × ℕ) → ℕ
waiting_for r none = 0
waiting_for r (some (before, q)) = if q == r then 1 else 0

-- What is left of the one time.
left : ℕ → Client → ℕ
left r c = waiting_for r c.pending + (if is_flagged r c then 0 else 1)

sent-send_again :
    (r q : ℕ) (o : Option TokenPair) (c : Client)
    → sent r (send_again q o c).0 + left r (send_again q o c).1
      ≤ waiting_for r (some (none, q)) + left r c
unfolding sent send_again left waiting_for is_flagged
sent-send_again r q none c = omega arith
sent-send_again r q (some p) c = omega arith

left_of_pending :
    (r q : ℕ) (before : Option TokenPair) (c : Client)
    → c.pending ≡ some (before, q)
    → left r c
      ≡ waiting_for r (some (none, q)) + left r (record c { is_refreshing = false; pending = none })
unfolding left waiting_for is_flagged
left_of_pending r q before c e = rw e (omega arith)

left_error :
    (b : Bool) (r status q : ℕ) (c : Client)
    → sent r (on_error b status q c).0 + left r (on_error b status q c).1 ≤ left r c
unfolding sent on_error left waiting_for is_flagged
left_error b r status q c =
    let test = status == 401 && (not (is_flagged q c) && (not c.is_refreshing && b)) in
    elim (Bool-cases test) [
      | inl k ↦ rw k (elim (Bool-cases (q == r)) [
        | inl here ↦
            let e : q ≡ r = ground arith in
            let unflagged : any (λ p. p == r) c.flagged ≡ false =
              subst (λ n. any (λ p. p == n) c.flagged ≡ false) e (ground arith) in
            rw (here, unflagged) (omega arith)
        | inr other ↦ rw other (omega arith)
      ])
      | inr k ↦ rw k (omega arith)
    ]

left_resumed :
    (r : ℕ) (token : Text) (p : Option (Option TokenPair × ℕ)) (c : Client)
    → c.pending ≡ p
    → sent r (resume token p c).0 + left r (resume token p c).1 ≤ left r c
unfolding sent resume
left_resumed r token none c e = omega arith
left_resumed r token (some (before, q)) c e =
    let resumed : Client = record c { is_refreshing = false; pending = none } in
    let step = sent-send_again r q (renewed before c.storage token) resumed in
    let whole = left_of_pending r q before c e in omega arith

left_given_up :
    (r : ℕ) (p : Option (Option TokenPair × ℕ)) (c : Client)
    → c.pending ≡ p
    → sent r (give_up p c).0 + left r (give_up p c).1 ≤ left r c
unfolding sent give_up left waiting_for is_flagged
left_given_up r none c e = omega arith
left_given_up r (some (before, q)) c e = omega arith

left_step :
    (b : Bool) (r : ℕ) (e : Event) (c : Client)
    → sent r (on_event b e c).0 + left r (on_event b e c).1 ≤ left r c
unfolding sent on_event on_refreshed on_refresh_failed left waiting_for is_flagged
left_step b r (rejected status q) c = left_error b r status q c
left_step b r (refreshed token) c = left_resumed r token c.pending c refl
left_step b r refresh_failed c = left_given_up r c.pending c refl
left_step b r (stored p) c = omega arith
left_step b r cleared c = omega arith

times_sent-le :
    (b : Bool) (r : ℕ) (es : List Event) (c : Client) → times_sent r (history b es c).0 ≤ left r c
unfolding times_sent history
times_sent-le b r [] c = omega arith
times_sent-le b r (e ∷ es) c =
    let rest = times_sent-le b r es (on_event b e c).1 in
    let step = left_step b r e c in omega arith

-- In any history of a new client, whatever the server and the callback answer, each request is
-- sent again at most once.
pub sent_again-once :
    (b : Bool) (es : List Event) (r : ℕ) → times_sent r (history b es new_client).0 ≤ 1
unfolding left waiting_for is_flagged
sent_again-once b es r = times_sent-le b r es new_client
