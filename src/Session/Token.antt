-- ===== src/Session/Token.antt =====
-- SessionManager::secureId and VisitorSessionService::secureToken, which are the same code, and the
-- syntax test of the tokens: src/session/SessionManager.cpp and
-- WebApps/ARServer/src/services/VisitorSessionService.cpp.
use jingjie_ar.Text.{is_digit, Bytes}
use jingjie_ar.Prelude.{
  ℕ, ◌+◌, ◌-◌, ◌*◌, ◌/◌, ◌%◌, ◌≤◌, ◌<◌, ◌≡◌, refl, sym, subst, ◌⊎◌, inl, inr, Bool, true, false,
  ◌&&◌, ◌||◌, Option, none, some, List, [], ◌∷◌, ◌++◌, append-nil, arith, ltb, leb, if◌then◌else◌,
  Bool-cases, Option-cases, ◌==◌, nat_eq, list_eq, length, length-append,
}

-- What one call of getrandom(2) gives: some of the wanted bytes, an interruption, or an error.
pub data Read : Type 0 where
  got : Bytes → Read
  interrupted : Read
  failed : Read

abbrev pub token_bytes : ℕ
token_bytes = 32

-- The loop that fills the 32 bytes, over the results that getrandom gives; no result is longer than
-- what was asked for. `none` is the early return of the empty string, or the end of the results.
unfoldable pub fill : List Read → Bytes → Option Bytes
fill [] filled = if ltb (length filled) token_bytes then none else some filled
fill (r ∷ rs) filled =
    let more = fill rs (filled ++ elim r [ got s ↦ s | interrupted ↦ [] | failed ↦ [] ]) in
    if ltb (length filled) token_bytes
    then elim r [ got [] ↦ none | got (x ∷ xs) ↦ more | interrupted ↦ more | failed ↦ none ]
    else some filled

-- "0123456789abcdef"[d]
unfoldable pub hex_digit : ℕ → ℕ
hex_digit d = if ltb d 10 then b'0' + d else b'a' + (d - 10)

unfoldable pub to_hex : Bytes → Bytes
unfolding hex_digit
to_hex [] = []
to_hex (c ∷ cs) = hex_digit (c / 16 % 16) ∷ hex_digit (c % 16) ∷ to_hex cs

-- The empty text says that no random bytes could be had.
unfoldable pub secure_id : List Read → Bytes
unfolding to_hex fill
secure_id reads = elim (fill reads []) [ none ↦ [] | some s ↦ to_hex s ]

abbrev pub is_lower_hex : ℕ → Bool
is_lower_hex c = is_digit c || (leb b'a' c && leb c b'f')

-- The loop of VisitorSessionService::validTokenSyntax.
unfoldable pub all_lower_hex : Bytes → Bool
all_lower_hex [] = true
all_lower_hex (c ∷ cs) = if is_lower_hex c then all_lower_hex cs else false

unfoldable pub valid_token_syntax : Bytes → Bool
unfolding all_lower_hex
valid_token_syntax token = if length token == 64 then all_lower_hex token else false

hex_digit-is_lower_hex : (d : ℕ) → d < 16 → is_lower_hex (hex_digit d) ≡ true
unfolding hex_digit
hex_digit-is_lower_hex d h = ground arith

all_lower_hex-to_hex : (s : Bytes) → all_lower_hex (to_hex s) ≡ true
unfolding all_lower_hex to_hex
all_lower_hex-to_hex [] = refl
all_lower_hex-to_hex (c ∷ cs) =
    rw (hex_digit-is_lower_hex (c / 16 % 16) (omega arith))
      (rw (hex_digit-is_lower_hex (c % 16) (omega arith)) (all_lower_hex-to_hex cs))

length-to_hex : (s : Bytes) → length (to_hex s) ≡ 2 * length s
unfolding to_hex
length-to_hex [] = refl
length-to_hex (c ∷ cs) = omega (arith, length-to_hex cs)

-- getrandom never gives more bytes than asked for, with `n` of the 32 there already.
abbrev pub Obeys : ℕ → List Read → Type 0
Obeys n [] = Unit {0}
Obeys n (got s ∷ rs) = (n + length s ≤ token_bytes) × Obeys (n + length s) rs
Obeys n (interrupted ∷ rs) = Obeys n rs
Obeys n (failed ∷ rs) = Obeys n rs

length-fill :
    (reads : List Read) (filled s : Bytes)
    → Obeys (length filled) reads
    → length filled ≤ token_bytes
    → fill reads filled ≡ some s
    → length s ≡ token_bytes
unfolding fill
length-fill [] filled s o h e = ground arith
length-fill (got [] ∷ rs) filled s o h e = ground arith
length-fill (got (x ∷ xs) ∷ rs) filled s o h e =
    let grown : length (filled ++ x ∷ xs) ≡ length filled + length (x ∷ xs) =
      length-append filled (x ∷ xs) in
    elim (Bool-cases (ltb (length filled) token_bytes)) [
      | inl short ↦
          length-fill rs (filled ++ x ∷ xs) s (subst (λ n. Obeys n rs) (sym grown) o.1)
            (omega arith) (rw (short, fill) at e)
      | inr full ↦ ground arith
    ]
length-fill (interrupted ∷ rs) filled s o h e =
    elim (Bool-cases (ltb (length filled) token_bytes)) [
      | inl short ↦
          length-fill rs filled s o h
            (subst (λ f. fill rs f ≡ some s) (append-nil filled) (rw (short, fill) at e))
      | inr full ↦ ground arith
    ]
length-fill (failed ∷ rs) filled s o h e = ground arith

-- However getrandom splits, interrupts or refuses its bytes: a token is the empty text, or 64
-- lower-case hexadecimal digits, which the syntax test of visitor tokens accepts.
pub secure_id-valid :
    (reads : List Read)
    → Obeys 0 reads
    → (secure_id reads ≡ []) ⊎ (valid_token_syntax (secure_id reads) ≡ true)
unfolding secure_id valid_token_syntax
secure_id-valid reads o = elim (Option-cases (fill reads [])) [
  | inl e ↦ rw (e, secure_id) (inl refl)
  | inr (s, e) ↦
      let long : length (to_hex s) ≡ 64 =
        omega (arith, length-to_hex s, length-fill reads [] s o (omega arith) e) in
      rw (e, secure_id)
        (inr (
          rw (let t : (length (to_hex s) == 64) ≡ true = ground arith in t)
            (all_lower_hex-to_hex s)))
]
