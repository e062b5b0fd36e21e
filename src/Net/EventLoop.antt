-- ===== src/Net/EventLoop.antt =====
-- The event loop and the functors that threads hand over to it: src/net/EventLoop.cpp. A functor is a
-- number; what epoll reports besides the eventfd of the loop is not modelled, and a poll may end at any
-- time, since it has a time limit.
pub mod Wakeup
mod Tests
use jingjie_ar.Prelude.{
  ℕ, zero, suc, ◌+◌, ◌-◌, ◌*◌, ◌/◌, ◌%◌, ◌^◌, ◌≤◌, ◌<◌, min, max, ◌≡◌, refl, sym, ap, ap₂, ◌∙◌,
  subst, ◌≢◌, ◌↔◌, ◌⊎◌, inl, inr, Bool, true, false, not, ◌&&◌, ◌||◌, Option, none, some, List, [],
  ◌∷◌, ◌++◌, map, reverse, append-nil, append_assoc, reverse-cons, arith, ltb, leb, if◌then◌else◌,
  ltb→lt, lt→ltb, leb→le, nat_beq_iff, tests, Bool-cases, if_ind, Option-cases, some_inj, Eq, ◌==◌,
  ==_iff, ==_refl, nat_eq, list_eq, lookup, insert, erase, has_key, lookup-insert,
  lookup-insert_self, lookup-erase, has_key-insert, IsMap, insert-IsMap, insert_new, AreApart,
  AreApart-insert, AreApart-nil, length, get_elem?, set, get_or, take, drop, replicate,
  length-append, length-take, length-drop, length-replicate, length-map, take-append-drop,
  drop_of_length-le, take_of_length-le, drop_nil, take_nil, drop-drop, drop-take, take-take_le,
  drop-append_le, take-append_le, take-append_ge, drop-append_ge, take-append_length,
  drop-append_length,
}

-- Where the thread of the loop stands in loop(): in the poll, among the callbacks of the channels, in
-- doPendingFunctors, or behind the loop.
pub data Phase : Type 0 where
  polling : Phase
  handling : Phase
  calling : Phase
  left : Phase

-- `wakeups` is the counter of the eventfd, `owed` the number of threads that have queued a functor, or
-- asked to quit, and have not written to the eventfd yet; `posted` and `ran` record the functors in
-- the order in which they were queued and executed.
pub record EventLoop : Type 0 where
  pub phase : Phase
  pub quit : Bool
  pub pending_functors : List ℕ
  pub functors : List ℕ
  pub calling_pending_functors : Bool
  pub wakeups : ℕ
  pub owed : ℕ
  pub posted : List ℕ
  pub ran : List ℕ

-- The start of loop() with nothing queued.
abbrev pub started : EventLoop
started = record {
  phase = polling;
  quit = false;
  pending_functors = [];
  functors = [];
  calling_pending_functors = false;
  wakeups = 0;
  owed = 0;
  posted = [];
  ran = [];
}

-- The locked part of queueInLoop.
abbrev pub append_functor : ℕ → EventLoop → EventLoop
append_functor cb l = record l {
  pending_functors = l.pending_functors ++ cb ∷ [];
  posted = l.posted ++ cb ∷ [];
}

-- EventLoop::wakeup
abbrev pub wakeup : EventLoop → EventLoop
wakeup l = record l { wakeups = suc l.wakeups }

-- queueInLoop in another thread, up to the call of wakeup.
abbrev pub queue_from_outside : ℕ → EventLoop → EventLoop
queue_from_outside cb l = record (append_functor cb l) { owed = suc l.owed }

-- The call of wakeup that another thread still owes.
abbrev pub pay_wakeup : EventLoop → EventLoop
pay_wakeup l = record (wakeup l) { owed = l.owed - 1 }

-- queueInLoop in the thread of the loop.
unfoldable pub queue_in_loop : ℕ → EventLoop → EventLoop
queue_in_loop cb l =
    if l.calling_pending_functors then wakeup (append_functor cb l) else append_functor cb l

-- quit in another thread, up to the call of wakeup, and in the thread of the loop.
abbrev pub quit_from_outside : EventLoop → EventLoop
quit_from_outside l = record l { quit = true; owed = suc l.owed }

abbrev pub quit_in_loop : EventLoop → EventLoop
quit_in_loop l = record l { quit = true }

-- The return of the poll.
abbrev pub poll_returned : EventLoop → EventLoop
poll_returned l = record l { phase = handling }

-- EventLoop::handleRead
abbrev pub handle_read : EventLoop → EventLoop
handle_read l = record l { wakeups = 0 }

-- The first part of doPendingFunctors.
abbrev pub swap_functors : EventLoop → EventLoop
swap_functors l = record l {
  phase = calling;
  calling_pending_functors = true;
  functors = l.pending_functors;
  pending_functors = [];
}

-- A turn of the loop of doPendingFunctors.
abbrev pub call_functor : ℕ → List ℕ → EventLoop → EventLoop
call_functor cb cbs l = record l { functors = cbs; ran = l.ran ++ cb ∷ [] }

-- The end of doPendingFunctors and the test of loop().
abbrev pub end_functors : EventLoop → EventLoop
end_functors l = record l {
  phase = (if l.quit then left else polling);
  calling_pending_functors = false;
}

-- Whether the thread of the loop executes callbacks, which may queue functors or quit.
abbrev pub in_callbacks : Phase → Bool
in_callbacks polling = false
in_callbacks handling = true
in_callbacks calling = true
in_callbacks left = false

-- A step of the thread of the loop or of another thread.
pub data Step : EventLoop → EventLoop → Type 0 where
  outside_queues : (cb : ℕ) (l : EventLoop) → Step l (queue_from_outside cb l)
  outside_wakes : (l : EventLoop) → 0 < l.owed → Step l (pay_wakeup l)
  outside_quits : (l : EventLoop) → Step l (quit_from_outside l)
  loop_queues : (cb : ℕ) (l : EventLoop) → in_callbacks l.phase ≡ true → Step l (queue_in_loop cb l)
  loop_quits : (l : EventLoop) → in_callbacks l.phase ≡ true → Step l (quit_in_loop l)
  poll_returns : (l : EventLoop) → l.phase ≡ polling → Step l (poll_returned l)
  eventfd_read : (l : EventLoop) → l.phase ≡ handling → Step l (handle_read l)
  swaps : (l : EventLoop) → l.phase ≡ handling → Step l (swap_functors l)
  calls :
      (cb : ℕ) (cbs : List ℕ) (l : EventLoop)
      → l.phase ≡ calling
      → l.functors ≡ cb ∷ cbs
      → Step l (call_functor cb cbs l)
  ends : (l : EventLoop) → l.phase ≡ calling → l.functors ≡ [] → Step l (end_functors l)

-- The states that the steps reach.
pub data Reaches : EventLoop → Type 0 where
  at_start : Reaches started
  after : (l m : EventLoop) → Reaches l → Step l m → Reaches m
