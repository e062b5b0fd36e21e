-- ===== src/Numbers.antt =====
-- Numbers in texts: std::stoull and std::stoi of the standard library after what a
-- stream or std::to_string has written.
use jingjie_ar.Text.{is_empty, is_space, skip_while, is_digit, Bytes}
use jingjie_ar.Int.{negsuc, pos, ℤ}
use jingjie_ar.Http.Response.{decimal, digits_within}
use jingjie_ar.Prelude.{
  ℕ, zero, suc, ◌+◌, ◌-◌, ◌*◌, ◌/◌, ◌%◌, ◌^◌, ◌<◌, ◌≡◌, refl, ap, ◌∙◌, true, false, Option, none,
  some, [], ◌∷◌, ◌++◌, arith, ltb, if◌then◌else◌, if_ind, ◌==◌, nat_eq, list_eq,
}

pub data Sign : Type 0 where
  plus minus : Sign

-- The value of the leading digits, read on from `acc`.
unfoldable pub digits_value : ℕ → Bytes → ℕ
digits_value acc [] = acc
digits_value acc (c ∷ cs) =
    let more = digits_value (acc * 10 + (c - 48)) cs in if is_digit c then more else acc

-- `none` where no digit stands first and std::invalid_argument is thrown.
unfoldable pub unsigned_prefix : Bytes → Option ℕ
unfolding digits_value
unsigned_prefix [] = none
unsigned_prefix (c ∷ cs) = if is_digit c then some (digits_value 0 (c ∷ cs)) else none

unfoldable pub with_sign : Bytes → Option (Sign × ℕ)
unfolding unsigned_prefix
with_sign [] = none
with_sign (c ∷ cs) =
    if c == b'-'
    then elim (unsigned_prefix cs) [ none ↦ none | some n ↦ some (minus, n) ]
    else if c == b'+'
    then elim (unsigned_prefix cs) [ none ↦ none | some n ↦ some (plus, n) ]
    else elim (unsigned_prefix (c ∷ cs)) [ none ↦ none | some n ↦ some (plus, n) ]

-- A number with `-` is negated modulo 2 ^ 64; `none` for an exception.
unfoldable pub unsigned_of : Option (Sign × ℕ) → Option ℕ
unsigned_of none = none
unsigned_of (some (plus, n)) = if ltb n (2 ^ 64) then some n else none
unsigned_of (some (minus, n)) = if ltb n (2 ^ 64) then some ((2 ^ 64 - n) % 2 ^ 64) else none

unfoldable pub stoull : Bytes → Option ℕ
unfolding with_sign unsigned_of
stoull s = unsigned_of (with_sign (skip_while is_space s))

unfoldable pub int_of : Option (Sign × ℕ) → Option ℤ
int_of none = none
int_of (some (plus, n)) = if ltb n (2 ^ 31) then some (pos n) else none
int_of (some (minus, zero)) = some (pos 0)
int_of (some (minus, suc n)) = if ltb n (2 ^ 31) then some (negsuc n) else none

unfoldable pub stoi : Bytes → Option ℤ
unfolding with_sign int_of
stoi s = int_of (with_sign (skip_while is_space s))

-- What a stream writes for an int.
abbrev pub show_int : ℤ → Bytes
show_int (pos n) = decimal n
show_int (negsuc n) = b'-' ∷ decimal (suc n)

abbrev pub IsDigits : Bytes → Type 0
IsDigits [] = Unit {0}
IsDigits (c ∷ cs) = (is_digit c ≡ true) × IsDigits cs

IsDigits-append : (xs : Bytes) (d : ℕ) → IsDigits xs → is_digit d ≡ true → IsDigits (xs ++ d ∷ [])
IsDigits-append [] d a h = (h, tt)
IsDigits-append (x ∷ xs) d (a, b) h = (a, IsDigits-append xs d b h)

pub digits_within-IsDigits : (fuel n : ℕ) → IsDigits (digits_within fuel n)
unfolding digits_within
digits_within-IsDigits zero n = tt
digits_within-IsDigits (suc fuel) n =
    if_ind IsDigits (ltb n 10) (λ e. (ground (arith, e), tt))
      (λ e.
        IsDigits-append (digits_within fuel (n / 10)) (48 + n % 10)
          (digits_within-IsDigits fuel (n / 10)) (ground arith))

digits_value-append :
    (acc : ℕ) (xs : Bytes) (d : ℕ)
    → IsDigits xs
    → is_digit d ≡ true
    → digits_value acc (xs ++ d ∷ []) ≡ digits_value acc xs * 10 + (d - 48)
unfolding digits_value
digits_value-append acc [] d a h = rw (h) refl
digits_value-append acc (x ∷ xs) d (a, b) h =
    rw (a) (digits_value-append (acc * 10 + (x - 48)) xs d b h)

digits_value-digits_within :
    (fuel n : ℕ) → n < 10 ^ fuel → digits_value 0 (digits_within fuel n) ≡ n
unfolding digits_value digits_within
digits_value-digits_within zero n h = omega arith
digits_value-digits_within (suc fuel) n h =
    if_ind (λ s. digits_value 0 s ≡ n) (ltb n 10) (λ e. ground (arith, e))
      (λ e.
        digits_value-append 0 (digits_within fuel (n / 10)) (48 + n % 10)
          (digits_within-IsDigits fuel (n / 10)) (ground arith)
        ∙ omega (arith, digits_value-digits_within fuel (n / 10) (omega (arith, h))))

not_empty : (xs : Bytes) (d : ℕ) → is_empty (xs ++ d ∷ []) ≡ false
not_empty [] d = refl
not_empty (x ∷ xs) d = refl

is_empty-digits_within : (fuel n : ℕ) → is_empty (digits_within (suc fuel) n) ≡ false
unfolding digits_within
is_empty-digits_within fuel n =
    if_ind (λ (s : Bytes). is_empty s ≡ false) (ltb n 10) (λ e. refl)
      (λ e. not_empty (digits_within fuel (n / 10)) (48 + n % 10))

unsigned_prefix-digits :
    (s : Bytes) → IsDigits s → is_empty s ≡ false → unsigned_prefix s ≡ some (digits_value 0 s)
unfolding unsigned_prefix
unsigned_prefix-digits [] d h = ground (arith, h)
unsigned_prefix-digits (c ∷ cs) (d, ds) h = rw (d) refl

with_sign-digits :
    (s : Bytes)
    → IsDigits s
    → is_empty s ≡ false
    → with_sign (skip_while is_space s) ≡ some (plus, digits_value 0 s)
unfolding with_sign unsigned_prefix skip_while
with_sign-digits [] d h = ground (arith, h)
with_sign-digits (c ∷ cs) (d, ds) h = ground (arith, d)

with_sign-decimal :
    (n : ℕ) → n < 10 ^ 20 → with_sign (skip_while is_space (decimal n)) ≡ some (plus, n)
with_sign-decimal n h =
    with_sign-digits (decimal n) (digits_within-IsDigits 20 n) (is_empty-digits_within 19 n)
    ∙ ap (λ v. some (plus, v)) (digits_value-digits_within 20 n h)

with_sign-minus :
    (n : ℕ) → n < 10 ^ 20 → with_sign (skip_while is_space (b'-' ∷ decimal n)) ≡ some (minus, n)
unfolding with_sign skip_while
with_sign-minus n h =
    rw
      (
        unsigned_prefix-digits (decimal n) (digits_within-IsDigits 20 n)
            (is_empty-digits_within 19 n),
        digits_value-digits_within 20 n h,
      )
      refl

pub stoull-decimal : (n : ℕ) → n < 2 ^ 64 → stoull (decimal n) ≡ some n
unfolding stoull unsigned_of
stoull-decimal n h = ap unsigned_of (with_sign-decimal n (omega (arith, h))) ∙ ground (arith, h)

-- The range of int.
abbrev pub IsInt : ℤ → Type 0
IsInt (pos n) = n < 2 ^ 31
IsInt (negsuc n) = n < 2 ^ 31

pub stoi-show_int : (z : ℤ) → IsInt z → stoi (show_int z) ≡ some z
unfolding stoi int_of
stoi-show_int (pos n) h = ap int_of (with_sign-decimal n (omega (arith, h))) ∙ ground (arith, h)
stoi-show_int (negsuc n) h =
    ap int_of (with_sign-minus (suc n) (omega (arith, h))) ∙ ground (arith, h)
