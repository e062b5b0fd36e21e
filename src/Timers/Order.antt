-- ===== src/Timers/Order.antt =====
-- The order of the timers and the descriptor's setting: src/timer/TimerQueue.cpp.
use jingjie_ar.Timers.{
  delay, reset_timerfd, is_earliest, comes_before, insert_timer, Timer, TimerQueue,
  add_timer_in_loop, insert_entry,
}
use jingjie_ar.Prelude.{
  ℕ, ◌+◌, ◌-◌, ◌*◌, ◌/◌, ◌%◌, ◌<◌, max, ◌≡◌, refl, true, false, Option, some, List, [], ◌∷◌, arith,
  ltb, nat_beq_iff, if_ind, nat_eq, list_eq,
}

comes_before_trans :
    (s t u : Timer) → comes_before s t ≡ true → comes_before t u ≡ true → comes_before s u ≡ true
comes_before_trans s t u h k = ground (
  arith,
  nat_beq_iff s.expiration t.expiration,
  nat_beq_iff t.expiration u.expiration,
  nat_beq_iff s.expiration u.expiration,
)

-- Every timer of a list comes after the given one.
abbrev pub AllAfter : Timer → List Timer → Type 0
AllAfter t [] = Unit {0}
AllAfter t (x ∷ xs) = (comes_before t x ≡ true) × AllAfter t xs

abbrev pub IsOrdered : List Timer → Type 0
IsOrdered [] = Unit {0}
IsOrdered (x ∷ xs) = AllAfter x xs × IsOrdered xs

AllAfter-trans :
    (s t : Timer) (xs : List Timer) → comes_before s t ≡ true → AllAfter t xs → AllAfter s xs
AllAfter-trans s t [] h a = tt
AllAfter-trans s t (x ∷ xs) h a = (comes_before_trans s t x h a.0, AllAfter-trans s t xs h a.1)

AllAfter-insert_entry :
    (s t : Timer) (xs : List Timer)
    → comes_before s t ≡ true
    → AllAfter s xs
    → AllAfter s (insert_entry t xs)
unfolding insert_entry
AllAfter-insert_entry s t [] h a = (h, tt)
AllAfter-insert_entry s t (x ∷ xs) h a =
    if_ind (AllAfter s) (comes_before t x) (λ e. (h, a))
      (λ e.
        if_ind (AllAfter s) (comes_before x t) (λ f. (a.0, AllAfter-insert_entry s t xs h a.1))
          (λ f. a))

pub insert_entry-IsOrdered :
    (t : Timer) (xs : List Timer) → IsOrdered xs → IsOrdered (insert_entry t xs)
unfolding insert_entry
insert_entry-IsOrdered t [] o = (tt, tt)
insert_entry-IsOrdered t (x ∷ xs) o =
    if_ind IsOrdered (comes_before t x) (λ e. ((e, AllAfter-trans t x xs e o.0), o))
      (λ e.
        if_ind IsOrdered (comes_before x t)
          (λ f. (AllAfter-insert_entry x t xs f o.0, insert_entry-IsOrdered t xs o.1)) (λ f. o))

-- Seconds and nanoseconds that a descriptor accepts, and that are together the time from `now` until
-- the expiration, in microseconds, and 100 of them if it is past or closer than that.
abbrev pub IsDelay : ℕ → ℕ → ℕ → ℕ → Type 0
IsDelay expiration now seconds nanoseconds =
    (nanoseconds < 1000000000)
    × (seconds * 1000000000 + nanoseconds ≡ max 100 (expiration - now) * 1000)

-- If there is a timer, the descriptor is set to fire at the expiration of the earliest one, and not
-- before 100 microseconds have passed since it was set.
abbrev pub Armed : List Timer → Option (ℕ × ℕ × ℕ) → Type 0
Armed [] a = Unit {0}
Armed (x ∷ xs) a =
    (now seconds nanoseconds : ℕ) × (a ≡ some (now, seconds, nanoseconds))
    × IsDelay x.expiration now seconds nanoseconds

delay_micros :
    (micros : ℕ)
    → (micros % 1000000 * 1000 < 1000000000)
      × (micros / 1000000 * 1000000000 + micros % 1000000 * 1000 ≡ micros * 1000)
delay_micros micros = (omega arith, omega arith)

delay-IsDelay :
    (expiration now : ℕ) → IsDelay expiration now (delay expiration now).0 (delay expiration now).1
unfolding delay
delay-IsDelay expiration now =
    if_ind (λ m. IsDelay expiration now (m / 1000000) (m % 1000000 * 1000))
      (ltb expiration (now + 100))
      (λ e.
        let floor : max 100 (expiration - now) ≡ 100 = ground arith in rw floor (delay_micros 100))
      (λ e.
        let whole : max 100 (expiration - now) ≡ expiration - now = ground arith in
        rw whole (delay_micros (expiration - now)))

pub delay-Armed :
    (x : Timer) (xs : List Timer) (now : ℕ)
    → Armed (x ∷ xs) (some (now, (delay x.expiration now).0, (delay x.expiration now).1))
delay-Armed x xs now = (
  now,
  (delay x.expiration now).0,
  (delay x.expiration now).1,
  refl,
  delay-IsDelay x.expiration now,
)

pub record IsReady (q : TimerQueue) : Type 0 where
  pub ordered : IsOrdered q.timers
  pub armed : Armed q.timers q.armed

Armed-insert_new :
    (t : Timer) (xs : List Timer) (now : ℕ)
    → is_earliest t xs ≡ true
    → Armed (insert_entry t xs) (some (now, (delay t.expiration now).0, (delay t.expiration now).1))
unfolding insert_entry
Armed-insert_new t [] now h = delay-Armed t [] now
Armed-insert_new t (x ∷ xs) now h =
    let first : comes_before t x ≡ true = ground arith in rw first (delay-Armed t (x ∷ xs) now)

Armed-insert_kept :
    (t : Timer) (xs : List Timer) (a : Option (ℕ × ℕ × ℕ))
    → is_earliest t xs ≡ false
    → Armed xs a
    → Armed (insert_entry t xs) a
unfolding insert_entry
Armed-insert_kept t [] a h k = absurd (ground arith)
Armed-insert_kept t (x ∷ xs) a h k =
    if_ind (λ l. Armed l a) (comes_before t x)
      (λ e.
        let same : t.expiration ≡ x.expiration =
          ground (arith, nat_beq_iff t.expiration x.expiration) in
        rw same k)
      (λ e. if_ind (λ l. Armed l a) (comes_before x t) (λ f. k) (λ f. k))

-- Adding a timer keeps the queue in order and its descriptor set for the earliest expiration.
pub add_timer_in_loop-IsReady :
    (now : ℕ) (t : Timer) (q : TimerQueue) → IsReady q → IsReady (add_timer_in_loop now t q)
unfolding add_timer_in_loop insert_timer reset_timerfd
add_timer_in_loop-IsReady now t q v =
    if_ind IsReady (is_earliest t q.timers)
      (λ e. record {
        ordered = insert_entry-IsOrdered t q.timers v.ordered;
        armed = Armed-insert_new t q.timers now e;
      })
      (λ e. record {
        ordered = insert_entry-IsOrdered t q.timers v.ordered;
        armed = Armed-insert_kept t q.timers q.armed e v.armed;
      })
