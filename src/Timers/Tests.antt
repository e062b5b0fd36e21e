-- ===== src/Timers/Tests.antt =====
-- The theorems on timers at inputs that meet their hypotheses.
use jingjie_ar.Timers.{
  add_timer_in_loop, add_all, restart, insert_timer, later_part, reset_timerfd, rearm, reset_one,
  run_all, reset, insert_entry, handle_read, Timer, due_part, get_expired, TimerQueue,
}
use jingjie_ar.Timers.Firing.{handle_read-forgets}
use jingjie_ar.Timers.Order.{IsOrdered, IsReady}
use jingjie_ar.Prelude.{
  ℕ, ◌+◌, ◌*◌, ◌≡◌, refl, true, false, none, some, List, [], ◌∷◌, arith, nat_eq, list_eq,
}

program : Unit {0}
unfolding due_part insert_entry handle_read get_expired reset run_all reset_one rearm reset_timerfd
    later_part insert_timer restart add_all
program = tt

-- A timer every ten microseconds, and one that fires once.
abbrev beat : Timer
beat = record { address = 2; expiration = 100; delta = 10; repeat = true }

abbrev once : Timer
once = record { address = 1; expiration = 100; delta = 0; repeat = false }

abbrev late : Timer
late = record { address = 3; expiration = 500; delta = 0; repeat = false }

abbrev queue : TimerQueue
queue = record {
  timers = once ∷ beat ∷ late ∷ [];
  armed = some (0, 0, 100000);
  freed = [];
  ran = [];
}

-- The clock moves one microsecond with each reading; no callback adds a timer.
abbrev ticking : ℕ → ℕ × ℕ
ticking i = (200 + 2 * i, 201 + 2 * i)

abbrev adds_none : Timer → List Timer
adds_none t = []

queue-IsOrdered : IsOrdered queue.timers
queue-IsOrdered = ((refl, (refl, tt)), ((refl, tt), (tt, tt)))

queue-IsReady : IsReady queue
queue-IsReady = record {
  ordered = queue-IsOrdered;
  armed = (0, 0, 100000, refl, (omega arith, refl));
}

fired :
    (handle_read adds_none ticking 150 queue).timers ≡ record beat { expiration = 212 } ∷ late ∷ []
unfolding program
fired = refl

handle_read-forgets_example :
    (handle_read adds_none ticking 50 queue ≡ record queue { armed = none })
    × ((add_timer_in_loop 60 late (handle_read adds_none ticking 50 queue)).armed ≡ none)
handle_read-forgets_example =
    handle_read-forgets adds_none ticking 50 queue 60 late
      (omega arith, (omega arith, (omega arith, tt))) refl
