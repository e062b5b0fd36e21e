-- ===== src/Timers.antt =====
-- include/timer and src/timer: the queue of timers of one event loop, on the loop's thread. A
-- timer is known by its address; the readings of the clock are arguments, in microseconds; what a
-- callback does to the queue is the timers that it adds.
pub mod Order
pub mod Firing
mod Tests
use jingjie_ar.Prelude.{
  ℕ, zero, suc, ◌+◌, ◌-◌, ◌*◌, ◌/◌, ◌%◌, ◌^◌, ◌≤◌, ◌<◌, min, max, ◌≡◌, refl, sym, ap, ap₂, ◌∙◌,
  subst, ◌≢◌, ◌↔◌, ◌⊎◌, inl, inr, Bool, true, false, not, ◌&&◌, ◌||◌, Option, none, some, List, [],
  ◌∷◌, ◌++◌, map, reverse, append-nil, append_assoc, reverse-cons, arith, ltb, leb, if◌then◌else◌,
  ltb→lt, lt→ltb, leb→le, nat_beq_iff, tests, Bool-cases, if_ind, Option-cases, some_inj, Eq, ◌==◌,
  ==_iff, ==_refl, nat_eq, list_eq, lookup, insert, erase, has_key, lookup-insert,
  lookup-insert_self, lookup-erase, has_key-insert, IsMap, insert-IsMap, insert_new, AreApart,
  AreApart-insert, AreApart-nil, length, get_elem?, set, get_or, take, drop, replicate,
  length-append, length-take, length-drop, length-replicate, length-map, take-append-drop,
  drop_of_length-le, take_of_length-le, drop_nil, take_nil, drop-drop, drop-take, take-take_le,
  drop-append_le, take-append_le, take-append_ge, drop-append_ge, take-append_length,
  drop-append_length,
}

-- `delta` is the interval in whole microseconds, as addTime rounds it.
pub record Timer : Type 0 where
  pub address : ℕ
  pub expiration : ℕ
  pub delta : ℕ
  pub repeat : Bool

-- Timer::restart
unfoldable pub restart : ℕ → Timer → Timer
restart now t = record t { expiration = if t.repeat then now + t.delta else 0 }

-- `armed` is what the timer descriptor was last set to: the reading of the clock at the call, and the
-- seconds and nanoseconds from then on (it_value), gone when the descriptor has fired. The timers stand in the order
-- of the set; `freed` lists the deleted ones and `ran` those whose callback was called.
pub record TimerQueue : Type 0 where
  pub timers : List Timer
  pub armed : Option (ℕ × ℕ × ℕ)
  pub freed : List Timer
  pub ran : List Timer

abbrev pub empty_queue : TimerQueue
empty_queue = record { timers = []; armed = none; freed = []; ran = [] }

-- operator< of the pairs of expiration and address
abbrev pub comes_before : Timer → Timer → Bool
comes_before s t =
    if ltb s.expiration t.expiration
    then true
    else s.expiration == t.expiration && ltb s.address t.address

-- std::set::insert, which leaves a set with an equal entry alone.
unfoldable pub insert_entry : Timer → List Timer → List Timer
insert_entry t [] = t ∷ []
insert_entry t (x ∷ xs) =
    let behind = insert_entry t xs in
    if comes_before t x then t ∷ x ∷ xs else if comes_before x t then x ∷ behind else x ∷ xs

abbrev pub is_earliest : Timer → List Timer → Bool
is_earliest t [] = true
is_earliest t (x ∷ xs) = ltb t.expiration x.expiration

-- TimerQueue::insert: the queue, and whether the earliest expiration has changed.
unfoldable pub insert_timer : Timer → TimerQueue → TimerQueue × Bool
insert_timer t q = (record q { timers = insert_entry t q.timers }, is_earliest t q.timers)

-- The delay that resetTimerfd sets: seconds and nanoseconds, and at least 100 microseconds.
unfoldable pub delay : ℕ → ℕ → ℕ × ℕ
delay expiration now =
    let micros = if ltb expiration (now + 100) then 100 else expiration - now in
    (micros / 1000000, micros % 1000000 * 1000)

-- TimerQueue::resetTimerfd
unfoldable pub reset_timerfd : ℕ → ℕ → TimerQueue → TimerQueue
reset_timerfd expiration now q =
    let value = delay expiration now in record q { armed = some (now, value.0, value.1) }

-- TimerQueue::addTimerInLoop
unfoldable pub add_timer_in_loop : ℕ → Timer → TimerQueue → TimerQueue
add_timer_in_loop now t q =
    let inserted = insert_timer t q in
    if inserted.1 then reset_timerfd t.expiration now inserted.0 else inserted.0

-- The entries below (now, UINTPTR_MAX).
abbrev pub is_due : ℕ → Timer → Bool
is_due now t = leb t.expiration now

unfoldable pub due_part : ℕ → List Timer → List Timer
due_part now [] = []
due_part now (x ∷ xs) = let rest = due_part now xs in if is_due now x then x ∷ rest else []

unfoldable pub later_part : ℕ → List Timer → List Timer
later_part now [] = []
later_part now (x ∷ xs) = let rest = later_part now xs in if is_due now x then rest else x ∷ xs

-- TimerQueue::getExpired
unfoldable pub get_expired : ℕ → TimerQueue → List Timer × TimerQueue
get_expired now q = (due_part now q.timers, record q { timers = later_part now q.timers })

-- The end of a round of `reset`: the descriptor is set for the earliest timer.
unfoldable pub rearm : ℕ → List Timer → TimerQueue → TimerQueue
rearm now [] q = q
rearm now (x ∷ xs) q = reset_timerfd x.expiration now q

-- One round of `reset`, with two readings of the clock.
unfoldable pub reset_one : ℕ × ℕ → Timer → TimerQueue → TimerQueue
reset_one (restarted, now) t q =
    let q' =
      if t.repeat
      then (insert_timer (restart restarted t) q).0
      else record q { freed = q.freed ++ t ∷ [] } in
    rearm now q'.timers q'

-- TimerQueue::reset; `clock` gives the readings of each round.
unfoldable pub reset : (ℕ → ℕ × ℕ) → ℕ → List Timer → TimerQueue → TimerQueue
reset clock i [] q = q
reset clock i (t ∷ ts) q = reset clock (suc i) ts (reset_one (clock i) t q)

unfoldable pub add_all : ℕ → List Timer → TimerQueue → TimerQueue
unfolding add_timer_in_loop
add_all now [] q = q
add_all now (t ∷ ts) q = add_all now ts (add_timer_in_loop now t q)

-- The loop of handleRead over the expired timers; `adds` gives what each callback adds.
unfoldable pub run_all : (Timer → List Timer) → ℕ → List Timer → TimerQueue → TimerQueue
unfolding add_all
run_all adds now [] q = q
run_all adds now (t ∷ ts) q =
    run_all adds now ts (add_all now (adds t) (record q { ran = q.ran ++ t ∷ [] }))

-- TimerQueue::handleRead, after the descriptor has fired.
unfoldable pub handle_read : (Timer → List Timer) → (ℕ → ℕ × ℕ) → ℕ → TimerQueue → TimerQueue
unfolding get_expired reset run_all
handle_read adds clock now q =
    let fired = record q { armed = none } in
    let split = get_expired now fired in reset clock 0 split.0 (run_all adds now split.0 split.1)
