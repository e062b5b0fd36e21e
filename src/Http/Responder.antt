-- ===== src/Http/Responder.antt =====
-- AsyncResponder of include/http/AsyncResponder.h and src/http/AsyncResponder.cpp. All copies of one
-- share a state, so that what they do is one sequence of sends, ordered by the exchange of the flag;
-- what the sender was called with is recorded.
use jingjie_ar.Http.Response.{Response}
use jingjie_ar.Prelude.{
  ℕ, suc, ◌≡◌, refl, ap, Bool, true, false, not, Option, none, some, List, [], ◌∷◌, ◌++◌,
  if◌then◌else◌, nat_eq, list_eq,
}

pub record ResponderState : Type 0 where
  pub has_sender : Bool
  pub completed : Bool
  pub sent : List Response

-- AsyncResponder::AsyncResponder(sender), for an empty function or another.
abbrev pub make_responder : Bool → Option ResponderState
make_responder has_sender = some (record { has_sender = has_sender; completed = false; sent = [] })

-- AsyncResponder::send
unfoldable pub send : Response → Option ResponderState → Bool × Option ResponderState
send r none = (false, none)
send r (some s) =
    if not s.has_sender
    then (false, some s)
    else if s.completed
    then (false, some s)
    else (true, some (record s { completed = true; sent = s.sent ++ r ∷ [] }))

-- AsyncResponder::valid
abbrev pub is_valid : Option ResponderState → Bool
is_valid none = false
is_valid (some s) = s.has_sender

-- The sends of all copies, in their order, with their results.
unfoldable pub send_all : List Response → Option ResponderState → List Bool × Option ResponderState
unfolding send
send_all [] s = ([], s)
send_all (r ∷ rs) s = ((send r s).0 ∷ (send_all rs (send r s).1).0, (send_all rs (send r s).1).1)

-- How many of the sends succeeded.
abbrev pub successes : List Bool → ℕ
successes [] = 0
successes (b ∷ bs) = if b then suc (successes bs) else successes bs

send_all_completed :
    (rs sent : List Response)
    → let done : ResponderState = record { has_sender = true; completed = true; sent = sent } in
      (successes (send_all rs (some done)).0 ≡ 0) × ((send_all rs (some done)).1 ≡ some done)
unfolding send_all send
send_all_completed [] sent = (refl, refl)
send_all_completed (r ∷ rs) sent = send_all_completed rs sent

-- Of any sequence of sends by the copies of a responder that has a sender, the first succeeds, no
-- other does, and its response is all that the sender gets.
pub send_all-sends_once :
    (r : Response) (rs : List Response)
    → ((send r (make_responder true)).0 ≡ true)
      × (successes (send_all (r ∷ rs) (make_responder true)).0 ≡ 1)
      × ((send_all (r ∷ rs) (make_responder true)).1
          ≡ some (record { has_sender = true; completed = true; sent = r ∷ [] }))
unfolding send_all send
send_all-sends_once r rs =
    let (none_more, stays) = send_all_completed rs (r ∷ []) in (refl, ap suc none_more, stays)
