-- ===== src/Common/Decimal.antt =====
-- Go's `strconv.Itoa` and `strconv.Atoi`: decimal texts of `int` values.
use polar_db_stack_common.Common.{
  ℕ, zero, suc, ◌+◌, ◌-◌, ◌*◌, ◌/◌, ◌%◌, ◌<◌, ◌≡◌, refl, Bool, true, false, ◌&&◌, [], ◌∷◌, ◌++◌,
  Option, none, some, arith, ltb, leb, ◌==◌, if◌then◌else◌, All, Bool-cases, inl, inr, ap, ◌∙◌, ◌≢◌,
}
use polar_db_stack_common.Common.Int.{ℤ, pos, negsuc, int_half, ◌≤ℤ◌, ◌<ℤ◌, IsInt}
use polar_db_stack_common.Common.Text.{Text, is_space, IsFree, All-append}

abbrev pub is_digit : ℕ → Bool
is_digit c = leb 48 c && leb c 57

-- The value of the digits read so far, and then of the rest.
parse_digits : ℕ → Text → Option ℕ
parse_digits acc [] = some acc
parse_digits acc (c ∷ s) = if is_digit c then parse_digits (acc * 10 + (c - 48)) s else none

-- At least one digit.
parse_nat : Text → Option ℕ
unfolding parse_digits
parse_nat [] = none
parse_nat (c ∷ s) = parse_digits 0 (c ∷ s)

-- Out of range is an error.
abbrev in_range : Option ℕ → Option ℤ
in_range none = none
in_range (some n) = if leb int_half n then none else some (pos n)

abbrev negate : Option ℕ → Option ℤ
negate none = none
negate (some zero) = some (pos 0)
negate (some (suc n)) = if leb int_half n then none else some (negsuc n)

-- `strconv.Atoi`; `none` is its error.
unfoldable pub atoi : Text → Option ℤ
unfolding parse_nat
atoi [] = none
atoi (c ∷ s) =
    if c == b'-'
    then negate (parse_nat s)
    else if c == b'+'
    then in_range (parse_nat s)
    else in_range (parse_nat (c ∷ s))

-- The decimal digits of a number below the fuel.
digits_from : ℕ → ℕ → Text
digits_from zero n = []
digits_from (suc f) n =
    let rest = digits_from f (n / 10) in
    if ltb n 10 then (48 + n) ∷ [] else rest ++ (48 + n % 10) ∷ []

digits : ℕ → Text
unfolding digits_from
digits n = digits_from (suc n) n

-- `strconv.Itoa`
unfoldable pub itoa : ℤ → Text
unfolding digits
itoa (pos n) = digits n
itoa (negsuc n) = b'-' ∷ digits (suc n)

parse_digits-snoc :
    (acc d v : ℕ) (s : Text)
    → d < 10
    → parse_digits acc s ≡ some v
    → parse_digits acc (s ++ (48 + d) ∷ []) ≡ some (v * 10 + d)
unfolding parse_digits
parse_digits-snoc acc d v [] h e = ground arith
parse_digits-snoc acc d v (c ∷ s) h e =
    ground (arith, parse_digits-snoc (acc * 10 + (c - 48)) d v s h)

parse_digits-digit : (n : ℕ) → n < 10 → parse_digits 0 ((48 + n) ∷ []) ≡ some n
unfolding parse_digits
parse_digits-digit n h = ground arith

parse-digits_from : (f n : ℕ) → n < f → parse_digits 0 (digits_from f n) ≡ some n
unfolding digits_from
parse-digits_from zero n h = elim h [ ]
parse-digits_from (suc f) n h = elim (Bool-cases (ltb n 10)) [
  | inl small ↦ rw small (parse_digits-digit n (ground arith))
  | inr large ↦ rw large (
      parse_digits-snoc 0 (n % 10) (n / 10) (digits_from f (n / 10)) (omega arith)
        (parse-digits_from f (n / 10) (ground arith))
      ∙ ap some (omega arith))
]

digits_from-digits : (f n : ℕ) → All (λ c. is_digit c ≡ true) (digits_from f n)
unfolding digits_from
digits_from-digits zero n = tt
digits_from-digits (suc f) n = elim (Bool-cases (ltb n 10)) [
  | inl small ↦ rw small (ground arith)
  | inr large ↦
      rw large
        (All-append _ (digits_from f (n / 10)) _ (digits_from-digits f (n / 10)) (ground arith))
]

pub digits-digits : (n : ℕ) → All (λ c. is_digit c ≡ true) (itoa (pos n))
unfolding itoa
digits-digits n = digits_from-digits (suc n) n

-- A digit text is no sign, and its first byte starts a number.
atoi-digit_text :
    (s : Text) (n : ℕ)
    → All (λ c. is_digit c ≡ true) s
    → s ≢ []
    → parse_digits 0 s ≡ some n
    → n < int_half
    → atoi s ≡ some (pos n)
unfolding atoi
atoi-digit_text [] n a ne e h = absurd (ne refl)
atoi-digit_text (c ∷ s) n a ne e h = ground arith

snoc-ne-nil : (s : Text) (c : ℕ) → s ++ c ∷ [] ≢ []
snoc-ne-nil [] c = cc
snoc-ne-nil (d ∷ s) c = cc

pub itoa-ne-nil : (n : ℕ) → itoa (pos n) ≢ []
unfolding itoa
itoa-ne-nil n = elim (Bool-cases (ltb n 10)) [
  | inl small ↦ rw small (cc)
  | inr large ↦ rw large (snoc-ne-nil (digits_from n (n / 10)) (48 + n % 10))
]

-- `Atoi` undoes `Itoa` on the digits of a number that fits an `int`.
pub atoi-itoa : (n : ℕ) → n < int_half → atoi (itoa (pos n)) ≡ some (pos n)
unfolding itoa atoi
atoi-itoa n h =
    atoi-digit_text (digits n) n (digits_from-digits (suc n) n) (itoa-ne-nil n)
      (parse-digits_from (suc n) n (omega arith)) h

-- A digit is no other byte, and no white space.
pub digits-IsFree :
    (c : ℕ) (s : Text) → is_digit c ≡ false → All (λ d. is_digit d ≡ true) s → IsFree c s
digits-IsFree c [] h a = tt
digits-IsFree c (d ∷ s) h a = (ground arith, digits-IsFree c s h a.1)

pub digits-no_space : (s : Text) → All (λ d. is_digit d ≡ true) s → All (λ d. is_space d ≡ false) s
digits-no_space [] a = tt
digits-no_space (d ∷ s) a = (ground arith, digits-no_space s a.1)

in_range-nonneg : (o : Option ℕ) (z : ℤ) → in_range o ≡ some z → pos 0 ≤ℤ z
in_range-nonneg none z e = cc
in_range-nonneg (some n) (pos m) e = omega arith
in_range-nonneg (some n) (negsuc m) e = ground arith

-- A text without a minus is no negative number.
pub atoi-nonneg : (s : Text) (z : ℤ) → IsFree b'-' s → atoi s ≡ some z → pos 0 ≤ℤ z
unfolding atoi
atoi-nonneg [] z f e = cc
atoi-nonneg (c ∷ s) z f e =
    grind (arith, in_range-nonneg (parse_nat s) z, in_range-nonneg (parse_nat (c ∷ s)) z)

in_range-IsInt : (o : Option ℕ) (z : ℤ) → in_range o ≡ some z → IsInt z
in_range-IsInt none z e = cc
in_range-IsInt (some n) z e = ground arith

negate-IsInt : (o : Option ℕ) (z : ℤ) → negate o ≡ some z → IsInt z
negate-IsInt none z e = cc
negate-IsInt (some zero) z e = ground arith
negate-IsInt (some (suc n)) z e = ground arith

-- What `Atoi` accepts is an `int`.
pub atoi-IsInt : (s : Text) (z : ℤ) → atoi s ≡ some z → IsInt z
unfolding atoi
atoi-IsInt [] z e = cc
atoi-IsInt (c ∷ s) z e = elim (Bool-cases (c == b'-')) [
  | inl minus ↦ negate-IsInt (parse_nat s) z (ground arith)
  | inr other ↦ elim (Bool-cases (c == b'+')) [
    | inl plus ↦ in_range-IsInt (parse_nat s) z (ground arith)
    | inr digit ↦ in_range-IsInt (parse_nat (c ∷ s)) z (ground arith)
  ]
]

-- `Atoi` undoes `Itoa` on an `int` that is not negative.
pub atoi-itoa_nonneg : (z : ℤ) → pos 0 ≤ℤ z → z <ℤ pos int_half → atoi (itoa z) ≡ some z
atoi-itoa_nonneg (pos n) h k = atoi-itoa n (omega arith)
atoi-itoa_nonneg (negsuc n) h k = absurd (omega arith)
