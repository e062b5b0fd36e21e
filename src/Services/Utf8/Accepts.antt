-- ===== src/Services/Utf8/Accepts.antt =====
-- The texts that validNonBlankUtf8 of WebApps/ARServer/src/services/ArtworkInteractionService.cpp
-- accepts.
use jingjie_ar.Services.Utf8.Codec.{
  next_code_point-encode_scalar, encode_scalar-next_code_point, IsBytes, encode_scalar, IsScalar,
}
use jingjie_ar.Services.Utf8.{next_code_point, unicode_whitespace, utf8_loop, valid_non_blank_utf8}
use jingjie_ar.Text.{Bytes}
use jingjie_ar.Prelude.{
  ℕ, zero, suc, ◌+◌, ◌≤◌, ◌<◌, ◌≡◌, refl, sym, ap, ◌∙◌, subst, ◌↔◌, inl, inr, Bool, true, false,
  not, ◌||◌, none, some, List, [], ◌∷◌, ◌++◌, arith, if◌then◌else◌, Option-cases, nat_eq, list_eq,
  length, length-append,
}

abbrev pub AllScalars : List ℕ → Type 0
AllScalars [] = Unit {0}
AllScalars (c ∷ cs) = IsScalar c × AllScalars cs

unfoldable pub encode_all : List ℕ → Bytes
encode_all [] = []
encode_all (c ∷ cs) = encode_scalar c ++ encode_all cs

-- Whether some code point is no white space.
unfoldable pub not_blank : List ℕ → Bool
not_blank [] = false
not_blank (c ∷ cs) = not (unicode_whitespace c) || not_blank cs

next_code_point_nil : next_code_point [] ≡ none
unfolding next_code_point
next_code_point_nil = refl

-- A text of which nothing can be read is refused.
utf8_loop_stuck :
    (fuel : ℕ) (has : Bool) (x : ℕ) (s : Bytes)
    → next_code_point (x ∷ s) ≡ none
    → utf8_loop (suc fuel) has (x ∷ s) ≡ false
unfolding utf8_loop
utf8_loop_stuck fuel has x s h = rw (utf8_loop, h) refl

utf8_loop-step :
    (fuel : ℕ) (has : Bool) (s : Bytes) (c : ℕ) (rest : Bytes)
    → next_code_point s ≡ some (c, rest)
    → utf8_loop (suc fuel) has s ≡ utf8_loop fuel (if unicode_whitespace c then has else true) rest
unfolding utf8_loop
utf8_loop-step fuel has [] c rest h = ground (arith, next_code_point_nil, h)
utf8_loop-step fuel has (x ∷ s) c rest h = rw (utf8_loop, h) refl

length-encode_scalar : (c : ℕ) → 0 < length (encode_scalar c)
unfolding encode_scalar
length-encode_scalar c = ground arith

IsBytes-append : (a b : Bytes) → IsBytes (a ++ b) → IsBytes b
IsBytes-append [] b v = v
IsBytes-append (x ∷ a) b (h, v) = IsBytes-append a b v

absurd_empty : {A : Type 0} {a c : ℕ} (b : ℕ) → 0 < a → c ≡ a + b → c ≤ 0 → A
absurd_empty b p e h = ground (arith, p, e, h)

length-encode_all :
    (fuel c : ℕ) (cs : List ℕ)
    → length (encode_scalar c ++ encode_all cs) ≤ suc fuel
    → length (encode_all cs) ≤ fuel
length-encode_all fuel c cs h =
    omega (arith, length-encode_scalar c, length-append (encode_scalar c) (encode_all cs), h)

utf8_loop-encode_all :
    (fuel : ℕ) (has : Bool) (cs : List ℕ)
    → AllScalars cs
    → length (encode_all cs) ≤ fuel
    → utf8_loop fuel has (encode_all cs) ≡ (has || not_blank cs)
unfolding encode_all not_blank utf8_loop
utf8_loop-encode_all zero has [] v h = ground arith
utf8_loop-encode_all (suc fuel) has [] v h = ground arith
utf8_loop-encode_all zero has (c ∷ cs) v h =
    absurd_empty (length (encode_all cs)) (length-encode_scalar c)
      (length-append (encode_scalar c) (encode_all cs)) h
utf8_loop-encode_all (suc fuel) has (c ∷ cs) (scalar, v) h =
    utf8_loop-step fuel has (encode_scalar c ++ encode_all cs) c (encode_all cs)
      (next_code_point-encode_scalar c (encode_all cs) scalar)
    ∙ utf8_loop-encode_all fuel (if unicode_whitespace c then has else true) cs v
        (length-encode_all fuel c cs h)
    ∙ ground arith

-- What the loop has read.
abbrev Reads : Bool → Bytes → Type 0
Reads has s = (cs : List ℕ) × AllScalars cs × (s ≡ encode_all cs) × ((has || not_blank cs) ≡ true)

utf8_loop-Reads :
    (fuel : ℕ) (has : Bool) (s : Bytes) → IsBytes s → utf8_loop fuel has s ≡ true → Reads has s
unfolding utf8_loop encode_all not_blank
utf8_loop-Reads fuel has [] v h = ([], tt, refl, ground (arith, h))
utf8_loop-Reads zero has (x ∷ s) v h = ground (arith, h)
utf8_loop-Reads (suc fuel) has (x ∷ s) v h = elim (Option-cases (next_code_point (x ∷ s))) [
  | inl none_read ↦ ground (arith, h, utf8_loop_stuck fuel has x s none_read)
  | inr ((c, rest), e) ↦
      let (scalar, split) = encode_scalar-next_code_point (x ∷ s) c rest v e in
      let (cs, scalars, same, text) =
        utf8_loop-Reads fuel (if unicode_whitespace c then has else true) rest
          (IsBytes-append (encode_scalar c) rest (subst IsBytes split v))
          (sym (utf8_loop-step fuel has (x ∷ s) c rest e) ∙ h) in
      (c ∷ cs, (scalar, scalars), split ∙ ap (λ r. encode_scalar c ++ r) same, ground (arith, text))
]

-- validNonBlankUtf8 accepts exactly the texts that are the UTF-8 of a sequence of scalar values of
-- which one at least is no white space.
pub valid_non_blank_utf8_iff :
    (s : Bytes)
    → IsBytes s
    → (valid_non_blank_utf8 s ≡ true)
      ↔ ((cs : List ℕ) × AllScalars cs × (s ≡ encode_all cs) × (not_blank cs ≡ true))
unfolding valid_non_blank_utf8
valid_non_blank_utf8_iff s v = (
  utf8_loop-Reads (length s) false s v,
  λ (cs, scalars, e, text).
      subst (λ t. utf8_loop (length t) false t ≡ true) (sym e)
        (utf8_loop-encode_all (length (encode_all cs)) false cs scalars (omega arith) ∙ text),
)
