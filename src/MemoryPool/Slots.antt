-- ===== src/MemoryPool/Slots.antt =====
-- Slots that do not overlap: lists of addresses, for the pools of include/memoryPool.h.
use jingjie_ar.Prelude.{
  ℕ, ◌+◌, ◌≤◌, sym, subst, ◌⊎◌, inl, inr, List, [], ◌∷◌, ◌++◌, append_assoc, nat_eq, list_eq,
}

-- Of the bytes of two slots none is shared.
abbrev pub Apart : ℕ → ℕ → ℕ → Type 0
Apart size p q = (p + size ≤ q) ⊎ (q + size ≤ p)

abbrev pub All : (ℕ → Type 0) → List ℕ → Type 0
All P [] = Unit {0}
All P (x ∷ xs) = P x × All P xs

abbrev pub Pairwise : ℕ → List ℕ → Type 0
Pairwise size [] = Unit {0}
Pairwise size (x ∷ xs) = All (Apart size x) xs × Pairwise size xs

pub Apart-sym : (size p q : ℕ) → Apart size p q → Apart size q p
Apart-sym size p q (inl h) = inr h
Apart-sym size p q (inr h) = inl h

pub All-impl : {P Q : ℕ → Type 0} (xs : List ℕ) → ((x : ℕ) → P x → Q x) → All P xs → All Q xs
All-impl [] f a = tt
All-impl (x ∷ xs) f (a, b) = (f x a, All-impl xs f b)

pub All-insert :
    (P : ℕ → Type 0) (xs ys : List ℕ) (p : ℕ) → P p → All P (xs ++ ys) → All P (xs ++ p ∷ ys)
All-insert P [] ys p h a = (h, a)
All-insert P (x ∷ xs) ys p h (a, b) = (a, All-insert P xs ys p h b)

pub All-remove :
    (P : ℕ → Type 0) (xs ys : List ℕ) (p : ℕ) → All P (xs ++ p ∷ ys) → P p × All P (xs ++ ys)
All-remove P [] ys p (h, a) = (h, a)
All-remove P (x ∷ xs) ys p (a, b) = let (h, c) = All-remove P xs ys p b in (h, (a, c))

pub Pairwise-insert :
    (size : ℕ) (xs ys : List ℕ) (p : ℕ)
    → All (Apart size p) (xs ++ ys)
    → Pairwise size (xs ++ ys)
    → Pairwise size (xs ++ p ∷ ys)
Pairwise-insert size [] ys p a w = (a, w)
Pairwise-insert size (x ∷ xs) ys p (a, b) (v, w) =
    (All-insert (Apart size x) xs ys p (Apart-sym size p x a) v, Pairwise-insert size xs ys p b w)

pub Pairwise-remove :
    (size : ℕ) (xs ys : List ℕ) (p : ℕ)
    → Pairwise size (xs ++ p ∷ ys)
    → All (Apart size p) (xs ++ ys) × Pairwise size (xs ++ ys)
Pairwise-remove size [] ys p (a, w) = (a, w)
Pairwise-remove size (x ∷ xs) ys p (v, w) =
    let (h, c) = All-remove (Apart size x) xs ys p v in
    let (b, d) = Pairwise-remove size xs ys p w in ((Apart-sym size x p h, b), (c, d))

-- The same behind a first list.
pub All-give_back :
    (P : ℕ → Type 0) (xs ys zs : List ℕ) (p : ℕ)
    → All P (xs ++ (ys ++ p ∷ zs))
    → P p × All P (xs ++ (ys ++ zs))
All-give_back P xs ys zs p a =
    subst (λ l. P p × All P l) (append_assoc xs ys zs)
      (All-remove P (xs ++ ys) zs p (subst (All P) (sym (append_assoc xs ys (p ∷ zs))) a))

pub Pairwise-give_back :
    (size : ℕ) (xs ys zs : List ℕ) (p : ℕ)
    → Pairwise size (xs ++ (ys ++ p ∷ zs))
    → All (Apart size p) (xs ++ (ys ++ zs)) × Pairwise size (xs ++ (ys ++ zs))
Pairwise-give_back size xs ys zs p w =
    subst (λ l. All (Apart size p) l × Pairwise size l) (append_assoc xs ys zs)
      (Pairwise-remove size (xs ++ ys) zs p
        (subst (Pairwise size) (sym (append_assoc xs ys (p ∷ zs))) w))
