-- ===== src/Base/TaskWorkerPool/Draining.antt =====
-- That the pool of src/base/TaskWorkerPool.cpp is bounded, keeps the order of its tasks, and has taken
-- every task that it accepted when its threads have returned.
use jingjie_ar.Prelude.{
  ℕ, suc, ◌≤◌, ◌≡◌, refl, sym, ap, ◌∙◌, subst, inl, inr, Bool, true, false, not, ◌&&◌, ◌||◌, none,
  some, List, [], ◌∷◌, ◌++◌, append_assoc, arith, leb, if◌then◌else◌, tests, Bool-cases, if_ind,
  some_inj, ◌==◌, nat_eq, list_eq, length, length-append,
}
use jingjie_ar.Base.TaskWorkerPool.{
  TaskWorkerPool, submit, refuses, take_turn, Step, submits, stops, turns, Reaches, made, after,
}

abbrev pub is_nil : List ℕ → Bool
is_nil [] = true
is_nil (x ∷ xs) = false

pub record IsDraining (p : TaskWorkerPool) : Type 0 where
  pub order : p.taken ++ p.tasks ≡ p.accepted
  pub bounded : length p.tasks ≤ p.capacity
  pub emptied : (p.returned == 0 || (not p.accepting && is_nil p.tasks)) ≡ true

or_right : (b : Bool) → (b || true) ≡ true
or_right true = refl
or_right false = refl

length-append_one : (xs : List ℕ) (x : ℕ) → length (xs ++ x ∷ []) ≡ suc (length xs)
length-append_one xs x = length-append xs (x ∷ []) ∙ omega arith

submit-IsDraining : (task : ℕ) (p : TaskWorkerPool) → IsDraining p → IsDraining (submit task p).1
unfolding submit
submit-IsDraining task p s =
    if_ind (λ (x : Bool × TaskWorkerPool). IsDraining x.1) (refuses p) (λ e. s)
      (λ e. record {
        order = sym (append_assoc p.taken p.tasks (task ∷ [])) ∙ ap (λ x. x ++ task ∷ []) s.order;
        bounded = rw (length-append_one p.tasks task) (room p.accepting (p.workers == 0) e);
        emptied = none_returned p.accepting e (p.returned == 0) s.emptied;
      })
  where
    room :
        (a b : Bool)
        → (not a || b || leb p.capacity (length p.tasks)) ≡ false
        → suc (length p.tasks) ≤ p.capacity
    room a b e = grind (tests, e)

    none_returned :
        (a : Bool)
        → (not a || p.workers == 0 || leb p.capacity (length p.tasks)) ≡ false
        → (r : Bool) → (r || (not a && is_nil p.tasks)) ≡ true
        → (r || (not a && is_nil (p.tasks ++ task ∷ []))) ≡ true
    none_returned a e r d = ground (arith, e, d)

take_turn-IsDraining :
    (p q : TaskWorkerPool) (ts : List ℕ)
    → p.tasks ≡ ts
    → take_turn p ts ≡ some q
    → IsDraining p
    → IsDraining q
unfolding take_turn
take_turn-IsDraining p q [] at h s = elim (Bool-cases p.accepting) [
  | inl a ↦ waits a h
  | inr a ↦ subst IsDraining (leaves a h) (record {
    order = s.order;
    bounded = s.bounded;
    emptied = rw (a, at) (or_right (suc p.returned == 0));
  })
]
  where
    waits :
        {A : Type 0}
        → p.accepting ≡ true
        → (if p.accepting then none else some (record p { returned = suc p.returned })) ≡ some q
        → A
    waits a = rw a (λ e. ground (arith, e))

    leaves :
        p.accepting ≡ false
        → (if p.accepting then none else some (record p { returned = suc p.returned })) ≡ some q
        → (record p { returned = suc p.returned }) ≡ q
    leaves a = rw a some_inj
take_turn-IsDraining p q (t ∷ ts) at h s = subst IsDraining (some_inj h) (record {
  order = append_assoc p.taken (t ∷ []) ts ∙ ap (λ x. p.taken ++ x) (sym at) ∙ s.order;
  bounded = omega (arith, s.bounded, ap length at);
  emptied =
      still (p.returned == 0)
        (subst (λ x. (p.returned == 0 || (not p.accepting && is_nil x)) ≡ true) at s.emptied);
})
  where
    still :
        (r : Bool)
        → (r || (not p.accepting && false)) ≡ true
        → (r || (not p.accepting && is_nil ts)) ≡ true
    still r d = ground (arith, d)

Step-IsDraining : {p q : TaskWorkerPool} → Step p q → IsDraining p → IsDraining q
Step-IsDraining (submits task p) s = submit-IsDraining task p s
Step-IsDraining (stops p) s = record {
  order = s.order;
  bounded = s.bounded;
  emptied = closed (p.returned == 0) p.accepting (is_nil p.tasks) s.emptied;
}
  where
    closed : (r a n : Bool) → (r || (not a && n)) ≡ true → (r || n) ≡ true
    closed r a n d = ground (arith, d)
Step-IsDraining (turns p q h e) s = take_turn-IsDraining p q p.tasks refl e s

-- In every state that a pool reaches by calls of submit and shutdown and by its workers, in any order:
-- the tasks that workers have taken and those that wait are together the accepted tasks, each once and
-- in the order of their submission; no more tasks wait than the capacity; and once a worker has
-- returned the pool accepts no task and all that it accepted were taken.
pub Reaches-IsDraining :
    (workers capacity : ℕ) {p : TaskWorkerPool} → Reaches workers capacity p → IsDraining p
Reaches-IsDraining workers capacity made = record {
  order = refl;
  bounded = omega arith;
  emptied = refl;
}
Reaches-IsDraining workers capacity (after p q r s) =
    Step-IsDraining s (Reaches-IsDraining workers capacity r)
