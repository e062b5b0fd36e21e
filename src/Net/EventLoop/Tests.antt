-- ===== src/Net/EventLoop/Tests.antt =====
-- A run of the event loop on which the theorem about it applies.
use jingjie_ar.Prelude.{refl, arith, nat_eq, list_eq}
use jingjie_ar.Net.EventLoop.{
  EventLoop, started, queue_from_outside, pay_wakeup, queue_in_loop, poll_returned, handle_read,
  swap_functors, outside_queues, outside_wakes, loop_queues, poll_returns, eventfd_read, swaps,
  Reaches, at_start, after,
}
use jingjie_ar.Net.EventLoop.Wakeup.{IsSound, Reaches-IsSound}

-- A functor is queued while the loop polls, and another by a callback while functors are called.
abbrev queued : EventLoop
queued = pay_wakeup (queue_from_outside 5 started)

abbrev taken : EventLoop
taken = swap_functors (handle_read (poll_returned queued))

queued_reached : Reaches queued
queued_reached =
    after (queue_from_outside 5 started) queued
      (after started (queue_from_outside 5 started) at_start (outside_queues 5 started))
      (outside_wakes (queue_from_outside 5 started) (omega arith))

taken_reached : Reaches taken
taken_reached =
    after (handle_read (poll_returned queued)) taken
      (after (poll_returned queued) (handle_read (poll_returned queued))
        (after queued (poll_returned queued) queued_reached (poll_returns queued refl))
        (eventfd_read (poll_returned queued) refl))
      (swaps (handle_read (poll_returned queued)) refl)

Reaches-IsSound_example : IsSound (queue_in_loop 6 taken)
Reaches-IsSound_example =
    Reaches-IsSound (after taken (queue_in_loop 6 taken) taken_reached (loop_queues 6 taken refl))
