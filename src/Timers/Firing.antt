-- ===== src/Timers/Firing.antt =====
-- What handleRead of src/timer/TimerQueue.cpp does.
use jingjie_ar.Timers.Order.{AllAfter, IsOrdered}
use jingjie_ar.Timers.{
  restart, is_earliest, TimerQueue, is_due, Timer, get_expired, reset, add_timer_in_loop,
  later_part, insert_timer, run_all, due_part, handle_read,
}
use jingjie_ar.Prelude.{
  ℕ, ◌≤◌, ◌<◌, ◌≡◌, refl, ap, inl, inr, false, none, List, [], ◌∷◌, ◌++◌, arith, if◌then◌else◌,
  leb→le, nat_beq_iff, Bool-cases, if_ind, nat_eq, list_eq,
}

-- The due timers are taken off the front, and are all there are.
abbrev pub AllDue : ℕ → List Timer → Type 0
AllDue now [] = Unit {0}
AllDue now (x ∷ xs) = (x.expiration ≤ now) × AllDue now xs

abbrev pub NoneDue : ℕ → List Timer → Type 0
NoneDue now [] = Unit {0}
NoneDue now (x ∷ xs) = (now < x.expiration) × NoneDue now xs

due-append-later : (now : ℕ) (xs : List Timer) → due_part now xs ++ later_part now xs ≡ xs
unfolding due_part later_part
due-append-later now [] = refl
due-append-later now (x ∷ xs) = elim (Bool-cases (is_due now x)) [
  | inl e ↦ rw e (ap (λ l. x ∷ l) (due-append-later now xs))
  | inr e ↦ rw e refl
]

AllDue-due_part : (now : ℕ) (xs : List Timer) → AllDue now (due_part now xs)
unfolding due_part
AllDue-due_part now [] = tt
AllDue-due_part now (x ∷ xs) =
    if_ind (AllDue now) (is_due now x) (λ e. (leb→le _ _ e, AllDue-due_part now xs)) (λ e. tt)

NoneDue-after :
    (now : ℕ) (x : Timer) (xs : List Timer) → now < x.expiration → AllAfter x xs → NoneDue now xs
NoneDue-after now x [] h a = tt
NoneDue-after now x (y ∷ ys) h a =
    (ground (arith, a.0, nat_beq_iff x.expiration y.expiration), NoneDue-after now x ys h a.1)

NoneDue-later_part : (now : ℕ) (xs : List Timer) → IsOrdered xs → NoneDue now (later_part now xs)
unfolding later_part
NoneDue-later_part now [] o = tt
NoneDue-later_part now (x ∷ xs) o =
    if_ind (NoneDue now) (is_due now x) (λ e. NoneDue-later_part now xs o.1)
      (λ e.
        let later : now < x.expiration = ground arith in (later, NoneDue-after now x xs later o.0))

-- getExpired splits the queue: the expired timers and the remaining ones are together the queue as
-- it was, in its order; every expired one is due, and none of the remaining ones is.
pub get_expired-splits :
    (now : ℕ) (q : TimerQueue)
    → IsOrdered q.timers
    → ((get_expired now q).0 ++ (get_expired now q).1.timers ≡ q.timers)
      × AllDue now (get_expired now q).0
      × NoneDue now (get_expired now q).1.timers
unfolding get_expired
get_expired-splits now q o =
    (due-append-later now q.timers, AllDue-due_part now q.timers, NoneDue-later_part now q.timers o)

-- The queue of a round of reset before the descriptor is set.
abbrev returned : ℕ → Timer → TimerQueue → TimerQueue
returned restarted t q =
    if t.repeat
    then (insert_timer (restart restarted t) q).0
    else record q { freed = q.freed ++ t ∷ [] }

handle_read-unset :
    (adds : Timer → List Timer) (clock : ℕ → ℕ × ℕ) (now : ℕ) (q : TimerQueue)
    → NoneDue now q.timers
    → handle_read adds clock now q ≡ record q { armed = none }
unfolding handle_read get_expired reset run_all due_part later_part
handle_read-unset adds clock now q h = go q.timers h
  where
    go :
        (xs : List Timer)
        → NoneDue now xs
        → reset clock 0 (due_part now xs) (
            run_all adds now
              (due_part now xs)
              (record q { armed = none; timers = later_part now xs }))
          ≡ record q { armed = none; timers = xs }
    go [] h = refl
    go (x ∷ xs) h =
        let not_due : is_due now x ≡ false = ground (arith, h.0) in rw (due_part, not_due) refl

-- A firing that finds no timer due, because the wall clock was set back or is behind the monotonic
-- clock of the descriptor, leaves all timers in the queue and the descriptor unset. It stays unset
-- when a timer is added then that is not earlier than all of them.
pub handle_read-forgets :
    (adds : Timer → List Timer) (clock : ℕ → ℕ × ℕ) (now : ℕ) (q : TimerQueue) (later : ℕ)
    (t : Timer)
    → NoneDue now q.timers
    → is_earliest t q.timers ≡ false
    → (handle_read adds clock now q ≡ record q { armed = none })
      × ((add_timer_in_loop later t (handle_read adds clock now q)).armed ≡ none)
unfolding add_timer_in_loop insert_timer
handle_read-forgets adds clock now q later t h behind =
    let unset = handle_read-unset adds clock now q h in (unset, rw unset (rw behind refl))
