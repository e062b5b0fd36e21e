-- ===== src/Base/TaskWorkerPool.antt =====
-- The bounded pool of worker threads: src/base/TaskWorkerPool.cpp. A task is a number; what it does, and
-- the exceptions that are swallowed, are outside of the model. Each step is one locked section.
pub mod Draining
mod Tests
use jingjie_ar.Prelude.{
  ℕ, zero, suc, ◌+◌, ◌-◌, ◌*◌, ◌/◌, ◌%◌, ◌^◌, ◌≤◌, ◌<◌, min, max, ◌≡◌, refl, sym, ap, ap₂, ◌∙◌,
  subst, ◌≢◌, ◌↔◌, ◌⊎◌, inl, inr, Bool, true, false, not, ◌&&◌, ◌||◌, Option, none, some, List, [],
  ◌∷◌, ◌++◌, map, reverse, append-nil, append_assoc, reverse-cons, arith, ltb, leb, if◌then◌else◌,
  ltb→lt, lt→ltb, leb→le, nat_beq_iff, tests, Bool-cases, if_ind, Option-cases, some_inj, Eq, ◌==◌,
  ==_iff, ==_refl, nat_eq, list_eq, lookup, insert, erase, has_key, lookup-insert,
  lookup-insert_self, lookup-erase, has_key-insert, IsMap, insert-IsMap, insert_new, AreApart,
  AreApart-insert, AreApart-nil, length, get_elem?, set, get_or, take, drop, replicate,
  length-append, length-take, length-drop, length-replicate, length-map, take-append-drop,
  drop_of_length-le, take_of_length-le, drop_nil, take_nil, drop-drop, drop-take, take-take_le,
  drop-append_le, take-append_le, take-append_ge, drop-append_ge, take-append_length,
  drop-append_length,
}

-- `workers` is the number of threads that were started and `returned` that of the threads whose run()
-- has returned; `accepted` and `taken` record the tasks in the order in which they were queued and
-- taken out.
pub record TaskWorkerPool : Type 0 where
  pub workers : ℕ
  pub capacity : ℕ
  pub accepting : Bool
  pub tasks : List ℕ
  pub returned : ℕ
  pub accepted : List ℕ
  pub taken : List ℕ

-- TaskWorkerPool::TaskWorkerPool
abbrev pub make_pool : ℕ → ℕ → TaskWorkerPool
make_pool workers capacity = record {
  workers = workers;
  capacity = capacity;
  accepting = true;
  tasks = [];
  returned = 0;
  accepted = [];
  taken = [];
}

-- The refusal of submit.
abbrev pub refuses : TaskWorkerPool → Bool
refuses p = not p.accepting || p.workers == 0 || leb p.capacity (length p.tasks)

-- TaskWorkerPool::submit
unfoldable pub submit : ℕ → TaskWorkerPool → Bool × TaskWorkerPool
submit task p =
    if refuses p
    then (false, p)
    else (true, record p { tasks = p.tasks ++ task ∷ []; accepted = p.accepted ++ task ∷ [] })

-- The locked part of shutdown; the threads are joined afterwards.
abbrev pub stop_accepting : TaskWorkerPool → TaskWorkerPool
stop_accepting p = record p { accepting = false }

-- TaskWorkerPool::pendingCount
abbrev pub pending_count : TaskWorkerPool → ℕ
pending_count p = length p.tasks

-- What a thread in run() does when its wait ends, and `none` while it waits.
unfoldable pub take_turn : TaskWorkerPool → List ℕ → Option TaskWorkerPool
take_turn p [] = if p.accepting then none else some (record p { returned = suc p.returned })
take_turn p (task ∷ rest) = some (record p { tasks = rest; taken = p.taken ++ task ∷ [] })

-- A step of a thread: of one that uses the pool, or of a worker that has not returned.
pub data Step : TaskWorkerPool → TaskWorkerPool → Type 0 where
  submits : (task : ℕ) (p : TaskWorkerPool) → Step p (submit task p).1
  stops : (p : TaskWorkerPool) → Step p (stop_accepting p)
  turns : (p q : TaskWorkerPool) → p.returned < p.workers → take_turn p p.tasks ≡ some q → Step p q

-- The states that the steps reach.
pub data Reaches (workers capacity : ℕ) : TaskWorkerPool → Type 0 where
  made : Reaches workers capacity (make_pool workers capacity)
  after :
      (p q : TaskWorkerPool) → Reaches workers capacity p → Step p q → Reaches workers capacity q
