-- ===== src/Caches/Lfu/Lists.antt =====
-- The frequency lists of include/LFU.h: what stands in which list after a node has moved.
use jingjie_ar.Caches.Lfu.{remove_key, move, remove_from_list, has, list_at, add_to_list}
use jingjie_ar.Prelude.{
  ℕ, ◌≡◌, refl, ap, ◌∙◌, not, ◌&&◌, ◌||◌, List, [], ◌∷◌, ◌++◌, arith, if◌then◌else◌, nat_beq_iff,
  Eq, ◌==◌, ==_iff, nat_eq, list_eq, insert, lookup-insert,
}

module _ {K : Type 0} ⦃e : Eq K⦄ where
  pub has-remove_key :
      (k q : K) (xs : List K) → has q (remove_key k xs) ≡ (has q xs && not (k == q))
  unfolding has remove_key
  has-remove_key k q [] = refl
  has-remove_key k q (x ∷ xs) =
      ground (arith, ==_iff x k, ==_iff x q, ==_iff k q, has-remove_key k q xs)

  pub has-append : (k q : K) (xs : List K) → has q (xs ++ k ∷ []) ≡ (has q xs || k == q)
  unfolding has
  has-append k q [] = ground arith
  has-append k q (x ∷ xs) = ground (arith, has-append k q xs)

  pub list_at-insert :
      (f g : ℕ) (ks : List K) (lists : List (ℕ × List K))
      → list_at g (insert f ks lists) ≡ (if f == g then ks else list_at g lists)
  unfolding list_at
  list_at-insert f g ks lists = ground (arith, lookup-insert f g ks lists)

  pub has-remove_from_list :
      (k q : K) (f g : ℕ) (lists : List (ℕ × List K))
      → has q (list_at g (remove_from_list k f lists))
        ≡ (has q (list_at g lists) && not (f == g && k == q))
  unfolding remove_from_list
  has-remove_from_list k q f g lists = ground (
    arith,
    list_at-insert f g (remove_key k (list_at f lists)) lists,
    has-remove_key k q (list_at f lists),
    nat_beq_iff f g,
  )

  pub has-add_to_list :
      (k q : K) (f g : ℕ) (lists : List (ℕ × List K))
      → has q (list_at g (add_to_list k f lists)) ≡ (has q (list_at g lists) || (f == g && k == q))
  unfolding add_to_list
  has-add_to_list k q f g lists = ground (
    arith,
    list_at-insert f g (list_at f lists ++ k ∷ []) lists,
    has-append k q (list_at f lists),
    nat_beq_iff f g,
  )

  -- A node that moves is in the list of its new frequency, and not in that of the old one.
  pub has-move :
      (k q : K) (f g h : ℕ) (lists : List (ℕ × List K))
      → has q (list_at h (move k f g lists))
        ≡ ((has q (list_at h lists) && not (f == h && k == q)) || (g == h && k == q))
  unfolding move
  has-move k q f g h lists =
      has-add_to_list k q g h (remove_from_list k f lists)
      ∙ ap (λ b. b || (g == h && k == q)) (has-remove_from_list k q f h lists)
