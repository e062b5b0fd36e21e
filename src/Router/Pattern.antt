-- ===== src/Router/Pattern.antt =====
-- Route patterns: isDynamicPattern and compileDynamicPattern of src/router/Router.cpp.
use jingjie_ar.Text.{bytes, Bytes}
use jingjie_ar.Prelude.{
  ℕ, zero, suc, ◌≤◌, ◌<◌, ◌≡◌, refl, ◌≢◌, ◌↔◌, inl, inr, Bool, true, false, not, ◌&&◌, ◌||◌, Option,
  none, some, List, [], ◌∷◌, ◌++◌, arith, if◌then◌else◌, Bool-cases, ◌==◌, nat_eq, list_eq, length,
}

abbrev pub is_regex_meta_character : ℕ → Bool
is_regex_meta_character c =
    c == b'\\'
    || c == b'^'
    || c == b'$'
    || c == b'.'
    || c == b'|'
    || c == b'?'
    || c == b'*'
    || c == b'+'
    || c == b'('
    || c == b')'
    || c == b'['
    || c == b']'
    || c == b'{'
    || c == b'}'

-- `:` at the start of a segment, with a name behind it: the test at one index. `fresh` says that the
-- index is 0 or that a slash stands before it.
abbrev pub begins_parameter : Bool → Bytes → Bool
begins_parameter fresh [] = false
begins_parameter fresh (c ∷ []) = false
begins_parameter fresh (c ∷ d ∷ s) = c == b':' && fresh && not (d == b'/')

-- The loop of isDynamicPattern.
unfoldable pub dynamic_from : Bool → Bytes → Bool
dynamic_from fresh [] = false
dynamic_from fresh (c ∷ s) =
    if begins_parameter fresh (c ∷ s) then true else dynamic_from (c == b'/') s

unfoldable pub is_dynamic_pattern : Bytes → Bool
unfolding dynamic_from
is_dynamic_pattern p = dynamic_from true p

-- The text up to the next slash, and what follows from that slash on.
unfoldable pub segment : Bytes → Bytes
segment [] = []
segment (c ∷ s) = if c == b'/' then [] else c ∷ segment s

unfoldable pub after_segment : Bytes → Bytes
after_segment [] = []
after_segment (c ∷ s) = if c == b'/' then c ∷ s else after_segment s

-- What compileDynamicPattern makes of a pattern: the text of the expression without its anchors, and
-- the names of the parameters.
pub record Compiled : Type 0 where
  pub expression : Bytes
  pub names : List Bytes

abbrev pub group : Bytes
group = bytes "([^/]+)"

abbrev pub escape : ℕ → Bytes
escape c = if is_regex_meta_character c then b'\\' ∷ c ∷ [] else c ∷ []

-- The loop of compileDynamicPattern, on fuel: every round takes at least one byte of the pattern.
unfoldable pub compile_from : ℕ → Bool → Bytes → Option Compiled
unfolding segment after_segment
compile_from zero fresh s = none
compile_from (suc fuel) fresh [] = some (record { expression = []; names = [] })
compile_from (suc fuel) fresh (c ∷ s) =
    let parameter = compile_from fuel false (after_segment s) in
    let literal = compile_from fuel (c == b'/') s in
    if begins_parameter fresh (c ∷ s)
    then elim parameter [
      | none ↦ none
      | some r ↦ some (record { expression = group ++ r.expression; names = segment s ∷ r.names })
    ]
    else elim literal [
      | none ↦ none
      | some r ↦ some (record r { expression = escape c ++ r.expression })
    ]

unfoldable pub compile : Bytes → Option Compiled
unfolding compile_from
compile pattern = elim (compile_from (suc (length pattern)) true pattern) [
  | none ↦ none
  | some r ↦ some (record r { expression = b'^' ∷ (r.expression ++ b'$' ∷ []) })
]

length-after_segment-le : (s : Bytes) → length (after_segment s) ≤ length s
unfolding after_segment
length-after_segment-le [] = omega arith
length-after_segment-le (c ∷ s) = ground (arith, length-after_segment-le s)

-- A compilation that agrees with dynamic_from on whether there are parameters.
abbrev Agrees : Bool → Compiled → Type 0
Agrees true r = r.names ≢ []
Agrees false r = r.names ≡ []

compile_from-Agrees :
    (fuel : ℕ) (fresh : Bool) (s : Bytes)
    → length s < fuel
    → (r : Compiled) × (compile_from fuel fresh s ≡ some r) × Agrees (dynamic_from fresh s) r
unfolding compile_from dynamic_from
compile_from-Agrees zero fresh s h = absurd (omega arith)
compile_from-Agrees (suc fuel) fresh [] h = (record { expression = []; names = [] }, refl, refl)
compile_from-Agrees (suc fuel) fresh (c ∷ s) h =
    elim (Bool-cases (begins_parameter fresh (c ∷ s))) [
      | inl here ↦
          let (r, e, _) =
            compile_from-Agrees fuel false (after_segment s)
              (omega (arith, length-after_segment-le s)) in
          rw here (
            record { expression = group ++ r.expression; names = segment s ∷ r.names },
            rw (e, compile_from),
            λ n. cc,
          )
      | inr there ↦
          let (r, e, agrees) = compile_from-Agrees fuel (c == b'/') s (omega arith) in
          rw there (
            record r { expression = escape c ++ r.expression },
            rw (e, compile_from),
            keeps (dynamic_from (c == b'/') s) r agrees,
          )
    ]
  where
    keeps :
        (b : Bool) (r : Compiled)
        → Agrees b r
        → Agrees b (record r { expression = escape c ++ r.expression })
    keeps true r a = a
    keeps false r a = a

-- Every pattern is compiled, and it has parameters exactly if isDynamicPattern says so: a pattern
-- goes to the table of dynamic routes if and only if its expression captures something.
pub compile-is_dynamic_pattern :
    (p : Bytes)
    → (r : Compiled) × (compile p ≡ some r) × ((r.names ≡ []) ↔ (is_dynamic_pattern p ≡ false))
unfolding compile is_dynamic_pattern
compile-is_dynamic_pattern p =
    let (r, e, agrees) = compile_from-Agrees (suc (length p)) true p (omega arith) in
    (
      record r { expression = b'^' ∷ (r.expression ++ b'$' ∷ []) },
      rw (e, compile),
      iff (dynamic_from true p) r agrees,
    )
  where
    iff : (b : Bool) (r : Compiled) → Agrees b r → (r.names ≡ []) ↔ (b ≡ false)
    iff true r a = ((λ e. absurd (a e)), λ e. absurd (ground arith))
    iff false r a = ((λ _. refl), λ _. a)
