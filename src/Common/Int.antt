-- ===== src/Common/Int.antt =====
-- Go's signed machine integers over the native numbers. `int` is 64 bits wide and `int32` 32 bits;
-- a value is an integer ℤ, and what an operation of w bits does with it is written as `wrap w`.
use polar_db_stack_common.Common.{
  ℕ, suc, ◌+◌, ◌-◌, ◌%◌, ◌≤◌, ◌<◌, ◌≡◌, ◌↔◌, refl, ◌⊎◌, inl, inr, Bool, true, false, arith, ltb,
  leb, ◌==◌, if◌then◌else◌,
}

-- `negsuc n` is -(n + 1).
pub data ℤ : Type 0 where
  pos : ℕ → ℤ
  negsuc : ℕ → ℤ

abbrev pub pos_part : ℤ → ℕ
pos_part (pos n) = n
pos_part (negsuc n) = 0

abbrev pub neg_part : ℤ → ℕ
neg_part (pos n) = 0
neg_part (negsuc n) = suc n

-- a - b, as an integer.
abbrev pub sub_ℕ : ℕ → ℕ → ℤ
sub_ℕ a b = if leb b a then pos (a - b) else negsuc (b - a - 1)

infixl 65 ◌+ℤ◌ ◌-ℤ◌
infix 50 ◌≤ℤ◌ ◌<ℤ◌
unfoldable pub ◌+ℤ◌ : ℤ → ℤ → ℤ
a +ℤ b = sub_ℕ (pos_part a + pos_part b) (neg_part a + neg_part b)

unfoldable pub ◌-ℤ◌ : ℤ → ℤ → ℤ
a -ℤ b = sub_ℕ (pos_part a + neg_part b) (neg_part a + pos_part b)

abbrev pub ◌≤ℤ◌ : ℤ → ℤ → Type 0
a ≤ℤ b = pos_part a + neg_part b ≤ pos_part b + neg_part a

abbrev pub ◌<ℤ◌ : ℤ → ℤ → Type 0
a <ℤ b = pos_part a + neg_part b < pos_part b + neg_part a

abbrev pub ltb_ℤ : ℤ → ℤ → Bool
ltb_ℤ a b = ltb (pos_part a + neg_part b) (pos_part b + neg_part a)

abbrev pub leb_ℤ : ℤ → ℤ → Bool
leb_ℤ a b = leb (pos_part a + neg_part b) (pos_part b + neg_part a)

abbrev pub eqb_ℤ : ℤ → ℤ → Bool
eqb_ℤ (pos m) (pos n) = m == n
eqb_ℤ (negsuc m) (negsuc n) = m == n
eqb_ℤ _ _ = false

-- With these the operations can stay shut.
pub +ℤ_parts :
    (a b : ℤ)
    → pos_part (a +ℤ b) + neg_part a + neg_part b ≡ neg_part (a +ℤ b) + pos_part a + pos_part b
unfolding ◌+ℤ◌
+ℤ_parts a b = ground arith

pub -ℤ_parts :
    (a b : ℤ)
    → pos_part (a -ℤ b) + neg_part a + pos_part b ≡ neg_part (a -ℤ b) + pos_part a + neg_part b
unfolding ◌-ℤ◌
-ℤ_parts a b = ground arith

pub eq_of_parts : (a b : ℤ) → pos_part a + neg_part b ≡ pos_part b + neg_part a → a ≡ b
eq_of_parts a b h = ground arith

pub eqb_ℤ_iff : (a b : ℤ) → (eqb_ℤ a b ≡ true) ↔ (a ≡ b)
eqb_ℤ_iff (pos m) (pos n) = ground arith
eqb_ℤ_iff (pos m) (negsuc n) = ground arith
eqb_ℤ_iff (negsuc m) (pos n) = ground arith
eqb_ℤ_iff (negsuc m) (negsuc n) = ground arith

pub ltb_ℤ_iff : (a b : ℤ) → (ltb_ℤ a b ≡ true) ↔ (a <ℤ b)
ltb_ℤ_iff a b = ground arith

pub leb_ℤ_iff : (a b : ℤ) → (leb_ℤ a b ≡ true) ↔ (a ≤ℤ b)
leb_ℤ_iff a b = ground arith

pub ruleset int_laws = (arith, +ℤ_parts, -ℤ_parts, eq_of_parts)

-- What is left of an integer modulo `m`.
abbrev residue : ℕ → ℤ → ℕ
residue m (pos n) = n % m
residue m (negsuc n) = m - 1 - n % m

-- The two's complement reading of a residue modulo `m`, where `half` is m / 2.
abbrev signed : ℕ → ℕ → ℕ → ℤ
signed m half r = if ltb r half then pos r else negsuc (m - 1 - r)

abbrev pub int_half : ℕ
int_half = 9223372036854775808

abbrev int_mod : ℕ
int_mod = 18446744073709551616

-- An `int` holds -2^63 .. 2^63 - 1.
abbrev pub IsInt : ℤ → Type 0
IsInt z = (z <ℤ pos int_half) × (negsuc 9223372036854775807 ≤ℤ z)

unfoldable pub wrap_int : ℤ → ℤ
wrap_int z = signed int_mod int_half (residue int_mod z)

-- The conversion `int32(z)`.
unfoldable pub to_int32 : ℤ → ℤ
to_int32 z = signed 4294967296 2147483648 (residue 4294967296 z)

unfoldable pub int_add : ℤ → ℤ → ℤ
int_add a b = wrap_int (a +ℤ b)

unfoldable pub int_sub : ℤ → ℤ → ℤ
int_sub a b = wrap_int (a -ℤ b)

pub wrap_int-eq : (z : ℤ) → IsInt z → wrap_int z ≡ z
unfolding wrap_int
wrap_int-eq (pos n) h = ground arith
wrap_int-eq (negsuc n) h = ground arith

pub wrap_int-IsInt : (z : ℤ) → IsInt (wrap_int z)
unfolding wrap_int
wrap_int-IsInt (pos n) = ground arith
wrap_int-IsInt (negsuc n) = ground arith

-- Where the mathematical sum or difference fits, the machine computes it.
pub int_add-eq : (a b : ℤ) → IsInt (a +ℤ b) → int_add a b ≡ a +ℤ b
unfolding int_add
int_add-eq a b h = wrap_int-eq (a +ℤ b) h

pub int_sub-eq : (a b : ℤ) → IsInt (a -ℤ b) → int_sub a b ≡ a -ℤ b
unfolding int_sub
int_sub-eq a b h = wrap_int-eq (a -ℤ b) h

pub to_int32-eq : (n : ℕ) → n < 2147483648 → to_int32 (pos n) ≡ pos n
unfolding to_int32
to_int32-eq n h = ground arith

pub parts_disjoint : (z : ℤ) → (pos_part z ≡ 0) ⊎ (neg_part z ≡ 0)
parts_disjoint (pos n) = inr refl
parts_disjoint (negsuc n) = inl refl
