-- ===== src/Base/TaskWorkerPool/Tests.antt =====
-- A run of a pool on which the theorem about it applies.
use jingjie_ar.Prelude.{◌≡◌, refl, false, [], ◌∷◌, arith, nat_eq, list_eq}
use jingjie_ar.Base.TaskWorkerPool.{
  TaskWorkerPool, make_pool, submit, stop_accepting, take_turn, submits, stops, turns, Reaches,
  made, after,
}
use jingjie_ar.Base.TaskWorkerPool.Draining.{IsDraining, Reaches-IsDraining}

program : Unit {0}
unfolding submit take_turn
program = tt

-- One worker, and room for one task.
abbrev small_pool : TaskWorkerPool
small_pool = make_pool 1 1

second_refused : (submit 6 (submit 5 small_pool).1).0 ≡ false
unfolding program
second_refused = refl

abbrev closing : TaskWorkerPool
closing = record (make_pool 1 1) {
  accepting = false;
  tasks = [];
  accepted = 5 ∷ [];
  taken = 5 ∷ [];
}

closing_reached : Reaches 1 1 closing
unfolding program
closing_reached =
    after (stop_accepting (submit 5 small_pool).1) closing
      (after (submit 5 small_pool).1 (stop_accepting (submit 5 small_pool).1)
        (after small_pool (submit 5 small_pool).1 made (submits 5 small_pool))
        (stops (submit 5 small_pool).1))
      (turns (stop_accepting (submit 5 small_pool).1) closing (omega arith) refl)

Reaches-IsDraining_example : IsDraining (record closing { returned = 1 })
unfolding program
Reaches-IsDraining_example = Reaches-IsDraining 1 1 (
    after closing (record closing { returned = 1 }) closing_reached
      (turns closing (record closing { returned = 1 }) (omega arith) refl))
