-- ===== src/Net/EventLoop/Wakeup.antt =====
-- That no functor handed to the loop of src/net/EventLoop.cpp is lost, reordered or left behind in a
-- poll without a wake-up.
use jingjie_ar.Net.EventLoop.{
  ends, calls, swaps, eventfd_read, poll_returns, loop_quits, loop_queues, outside_quits, at_start,
  outside_wakes, outside_queues, after, poll_returned, call_functor, Reaches, end_functors,
  quit_from_outside, swap_functors, handle_read, quit_in_loop, queue_from_outside, Step, EventLoop,
  Phase, polling, handling, calling, left, append_functor, pay_wakeup, queue_in_loop, in_callbacks,
}
use jingjie_ar.Prelude.{
  ℕ, suc, ◌+◌, ◌-◌, ◌≡◌, refl, sym, ap, ◌∙◌, subst, inl, inr, Bool, true, false, not, ◌&&◌, ◌||◌,
  List, [], ◌∷◌, ◌++◌, append-nil, append_assoc, arith, ltb, Bool-cases, if_ind, nat_eq, list_eq,
}

abbrev pub is_polling : Phase → Bool
is_polling polling = true
is_polling handling = false
is_polling calling = false
is_polling left = false

abbrev pub is_calling : Phase → Bool
is_calling polling = false
is_calling handling = false
is_calling calling = true
is_calling left = false

abbrev pub is_handling : Phase → Bool
is_handling polling = false
is_handling handling = true
is_handling calling = false
is_handling left = false

abbrev pub is_nil : List ℕ → Bool
is_nil [] = true
is_nil (x ∷ xs) = false

-- The states of a loop: a functor that waits while the loop polls or calls functors, and a request to
-- quit while it polls, has a wake-up that is written or owed.
pub record IsSound (l : EventLoop) : Type 0 where
  pub order : l.ran ++ (l.functors ++ l.pending_functors) ≡ l.posted
  pub awake :
      (is_handling l.phase || is_nil l.pending_functors || ltb 0 (l.wakeups + l.owed)) ≡ true
  pub heard : (not (is_polling l.phase && l.quit) || ltb 0 (l.wakeups + l.owed)) ≡ true
  pub flag : l.calling_pending_functors ≡ is_calling l.phase
  pub idle : (is_calling l.phase || is_nil l.functors) ≡ true

posted_order :
    (a b c d : List ℕ) (x : ℕ) → a ++ (b ++ c) ≡ d → a ++ (b ++ (c ++ x ∷ [])) ≡ d ++ x ∷ []
posted_order a b c d x h =
    ap (λ s. a ++ s) (sym (append_assoc b c (x ∷ [])))
    ∙ sym (append_assoc a (b ++ c) (x ∷ []))
    ∙ ap (λ s. s ++ x ∷ []) h

nil_of : (xs : List ℕ) → is_nil xs ≡ true → xs ≡ []
nil_of [] h = refl
nil_of (x ∷ xs) h = ground (arith, h)

some_owed : (w o : ℕ) → ltb 0 (w + suc o) ≡ true
some_owed w o = ground arith

paid : (w o : ℕ) → ltb 0 (suc w + o) ≡ true
paid w o = ground arith

or_true : (a b : Bool) → b ≡ true → (a || b) ≡ true
or_true true b h = refl
or_true false b h = h

append_sound :
    (cb : ℕ) (l : EventLoop)
    → IsSound l
    → (l.ran ++ (l.functors ++ (append_functor cb l).pending_functors))
      ≡ (append_functor cb l).posted
append_sound cb l s = posted_order l.ran l.functors l.pending_functors l.posted cb s.order

queue_in_loop-IsSound :
    (cb : ℕ) (l : EventLoop)
    → in_callbacks l.phase ≡ true
    → IsSound l
    → IsSound (queue_in_loop cb l)
unfolding queue_in_loop
queue_in_loop-IsSound cb l h s =
    if_ind IsSound l.calling_pending_functors
      (λ e. record {
        order = append_sound cb l s;
        awake =
            or_true (is_handling l.phase || is_nil (l.pending_functors ++ cb ∷ []))
              (ltb 0 (suc l.wakeups + l.owed)) (paid l.wakeups l.owed);
        heard =
            or_true (not (is_polling l.phase && l.quit)) (ltb 0 (suc l.wakeups + l.owed))
              (paid l.wakeups l.owed);
        flag = s.flag;
        idle = s.idle;
      })
      (λ e. record {
        order = append_sound cb l s;
        awake =
            in_handling l.phase h (sym s.flag ∙ e) (is_nil (l.pending_functors ++ cb ∷ []))
              (ltb 0 (l.wakeups + l.owed));
        heard = s.heard;
        flag = s.flag;
        idle = s.idle;
      })
  where
    in_handling :
        (p : Phase)
        → in_callbacks p ≡ true
        → is_calling p ≡ false
        → (b c : Bool) → (is_handling p || b || c) ≡ true
    in_handling polling h e b c = ground (arith, h)
    in_handling handling h e b c = refl
    in_handling calling h e b c = ground (arith, e)
    in_handling left h e b c = ground (arith, h)

pay_wakeup-IsSound : (l : EventLoop) → IsSound l → IsSound (pay_wakeup l)
pay_wakeup-IsSound l s = record {
  order = s.order;
  awake =
      or_true (is_handling l.phase || is_nil l.pending_functors)
        (ltb 0 (suc l.wakeups + (l.owed - 1))) (paid l.wakeups (l.owed - 1));
  heard =
      or_true (not (is_polling l.phase && l.quit)) (ltb 0 (suc l.wakeups + (l.owed - 1)))
        (paid l.wakeups (l.owed - 1));
  flag = s.flag;
  idle = s.idle;
}

queue_from_outside-IsSound :
    (cb : ℕ) (l : EventLoop) → IsSound l → IsSound (queue_from_outside cb l)
queue_from_outside-IsSound cb l s = record {
  order = append_sound cb l s;
  awake =
      or_true (is_handling l.phase || is_nil (l.pending_functors ++ cb ∷ []))
        (ltb 0 (l.wakeups + suc l.owed)) (some_owed l.wakeups l.owed);
  heard =
      or_true (not (is_polling l.phase && l.quit)) (ltb 0 (l.wakeups + suc l.owed))
        (some_owed l.wakeups l.owed);
  flag = s.flag;
  idle = s.idle;
}

quit_from_outside-IsSound : (l : EventLoop) → IsSound l → IsSound (quit_from_outside l)
quit_from_outside-IsSound l s = record {
  order = s.order;
  awake =
      or_true (is_handling l.phase || is_nil l.pending_functors) (ltb 0 (l.wakeups + suc l.owed))
        (some_owed l.wakeups l.owed);
  heard =
      or_true (not (is_polling l.phase && true)) (ltb 0 (l.wakeups + suc l.owed))
        (some_owed l.wakeups l.owed);
  flag = s.flag;
  idle = s.idle;
}

quit_in_loop-IsSound :
    (l : EventLoop) → in_callbacks l.phase ≡ true → IsSound l → IsSound (quit_in_loop l)
quit_in_loop-IsSound l h s = record {
  order = s.order;
  awake = s.awake;
  heard = not_polling l.phase h (ltb 0 (l.wakeups + l.owed));
  flag = s.flag;
  idle = s.idle;
}
  where
    not_polling :
        (p : Phase) → in_callbacks p ≡ true → (b : Bool) → (not (is_polling p && true) || b) ≡ true
    not_polling polling h b = ground (arith, h)
    not_polling handling h b = refl
    not_polling calling h b = refl
    not_polling left h b = refl

poll_returned-IsSound : (l : EventLoop) → l.phase ≡ polling → IsSound l → IsSound (poll_returned l)
poll_returned-IsSound l h s = record {
  order = s.order;
  awake = refl;
  heard = refl;
  flag = s.flag ∙ ap is_calling h;
  idle = subst (λ p. (is_calling p || is_nil l.functors) ≡ true) h s.idle;
}

handle_read-IsSound : (l : EventLoop) → l.phase ≡ handling → IsSound l → IsSound (handle_read l)
handle_read-IsSound l h s = record {
  order = s.order;
  awake = rw h refl;
  heard = rw h refl;
  flag = s.flag;
  idle = s.idle;
}

swap_functors-IsSound : (l : EventLoop) → l.phase ≡ handling → IsSound l → IsSound (swap_functors l)
swap_functors-IsSound l h s = record {
  order =
      swapped
        (nil_of l.functors (subst (λ p. (is_calling p || is_nil l.functors) ≡ true) h s.idle));
  awake = refl;
  heard = refl;
  flag = refl;
  idle = refl;
}
  where
    swapped : l.functors ≡ [] → l.ran ++ (l.pending_functors ++ []) ≡ l.posted
    swapped e =
        ap (λ x. l.ran ++ x)
          (append-nil l.pending_functors ∙ ap (λ x. x ++ l.pending_functors) (sym e))
        ∙ s.order

call_functor-IsSound :
    (cb : ℕ) (cbs : List ℕ) (l : EventLoop)
    → l.phase ≡ calling
    → l.functors ≡ cb ∷ cbs
    → IsSound l
    → IsSound (call_functor cb cbs l)
call_functor-IsSound cb cbs l h e s = record {
  order =
      append_assoc l.ran (cb ∷ []) (cbs ++ l.pending_functors)
      ∙ ap (λ x. l.ran ++ (x ++ l.pending_functors)) (sym e)
      ∙ s.order;
  awake = s.awake;
  heard = s.heard;
  flag = s.flag;
  idle = rw h refl;
}

end_functors-IsSound :
    (l : EventLoop) → l.phase ≡ calling → l.functors ≡ [] → IsSound l → IsSound (end_functors l)
end_functors-IsSound l h e s = elim (Bool-cases l.quit) [
  | inl q ↦ record {
    order = s.order;
    awake = rw q (
        subst
          (λ p. (is_handling p || is_nil l.pending_functors || ltb 0 (l.wakeups + l.owed)) ≡ true) h
          s.awake);
    heard = rw q refl;
    flag = rw q refl;
    idle = rw (q, e) refl;
  }
  | inr q ↦ record {
    order = s.order;
    awake = rw q (
        subst
          (λ p. (is_handling p || is_nil l.pending_functors || ltb 0 (l.wakeups + l.owed)) ≡ true) h
          s.awake);
    heard = rw q refl;
    flag = rw q refl;
    idle = rw (q, e) refl;
  }
]

Step-IsSound : {l m : EventLoop} → Step l m → IsSound l → IsSound m
Step-IsSound (outside_queues cb l) s = queue_from_outside-IsSound cb l s
Step-IsSound (outside_wakes l o) s = pay_wakeup-IsSound l s
Step-IsSound (outside_quits l) s = quit_from_outside-IsSound l s
Step-IsSound (loop_queues cb l h) s = queue_in_loop-IsSound cb l h s
Step-IsSound (loop_quits l h) s = quit_in_loop-IsSound l h s
Step-IsSound (poll_returns l h) s = poll_returned-IsSound l h s
Step-IsSound (eventfd_read l h) s = handle_read-IsSound l h s
Step-IsSound (swaps l h) s = swap_functors-IsSound l h s
Step-IsSound (calls cb cbs l h e) s = call_functor-IsSound cb cbs l h e s
Step-IsSound (ends l h e) s = end_functors-IsSound l h e s

-- In every state that the loop and the other threads reach: the functors that were executed, those
-- that doPendingFunctors still holds and those that are queued are together the functors that were
-- handed over, each once and in that order; while the loop polls or calls functors with a functor
-- queued, and while it polls with a request to quit, a wake-up is in the eventfd or about to be written.
pub Reaches-IsSound : {l : EventLoop} → Reaches l → IsSound l
Reaches-IsSound at_start = record {
  order = refl;
  awake = refl;
  heard = refl;
  flag = refl;
  idle = refl;
}
Reaches-IsSound (after l m r s) = Step-IsSound s (Reaches-IsSound r)
