-- ===== src/Ports/PortRange/Bounds.antt =====
-- What the bounds of a range mean: `Set` and `Contains` of business/adapter/port_range.go.
use polar_db_stack_common.Common.{
  ℕ, refl, ◌∙◌, ◌≡◌, ◌↔◌, true, arith, some, none, Option, [], ◌∷◌, ◌≢◌,
}
use polar_db_stack_common.Common.Int.{
  ℤ, pos, ◌≤ℤ◌, ◌<ℤ◌, ◌+ℤ◌, ◌-ℤ◌, int_half, IsInt, -ℤ_parts, +ℤ_parts, int_laws, int_add-eq,
  int_sub-eq, int_sub, int_add, ltb_ℤ_iff,
}
use polar_db_stack_common.Common.Text.{
  Text, trim_space, index_byte, take, IsFree-take, IsFree-take_index, index_byte-none_iff,
}
use polar_db_stack_common.Common.Decimal.{atoi-nonneg}
use polar_db_stack_common.Common.Outcome.{ok, err}
use polar_db_stack_common.Ports.PortRange.{
  PortRange, contains, set_bounds, set, set_trimmed, parse_bounds, read_bounds, end_before_start,
}

-- A range of non-negative ports whose end fits an `int`.
pub record IsValid (pr : PortRange) : Type 0 where
  pub base_nonneg : pos 0 ≤ℤ pr.base
  pub size_nonneg : pos 0 ≤ℤ pr.size
  pub end_fits : pr.base +ℤ pr.size <ℤ pos int_half

-- The ports of a range, with mathematical integers.
pub record InRange (pr : PortRange) (p : ℤ) : Type 0 where
  pub above : pr.base ≤ℤ p
  pub below : p <ℤ pr.base +ℤ pr.size

int_sub_above : (a b : ℤ) → IsInt a → pos 0 ≤ℤ b → b ≤ℤ a → int_sub a b ≡ a -ℤ b
int_sub_above a b h k l = int_sub-eq a b (omega int_laws)

-- `Contains` tests membership in the range, also where the machine subtraction could overflow.
pub contains_iff :
    (pr : PortRange) (p : ℤ) → IsValid pr → IsInt p → (contains pr p ≡ true) ↔ InRange pr p
unfolding contains
contains_iff pr p v h = (
  λ e. ground (
    arith,
    int_sub_above p pr.base h v.base_nonneg,
    -ℤ_parts p pr.base,
    +ℤ_parts pr.base pr.size,
  ),
  λ r. ground (
    arith,
    int_sub_above p pr.base h v.base_nonneg,
    -ℤ_parts p pr.base,
    +ℤ_parts pr.base pr.size,
  ),
)

-- The size that `Set` computes.
size-eq :
    (low high : ℤ)
    → pos 0 ≤ℤ low
    → low ≤ℤ high
    → high <ℤ pos 9223372036854775807
    → int_sub (int_add (pos 1) high) low ≡ pos 1 +ℤ high -ℤ low
size-eq low high h l k =
    rw (int_add-eq (pos 1) high (omega int_laws)) (int_sub-eq (pos 1 +ℤ high) low (omega int_laws))

abbrev pub range_of : ℤ → ℤ → PortRange
range_of low high = record { base = low; size = pos 1 +ℤ high -ℤ low }

range_of_ports :
    (low high p : ℤ)
    → pos 0 ≤ℤ low
    → low ≤ℤ high
    → high <ℤ pos 9223372036854775807
    → IsInt p
    → IsValid (range_of low high)
      × ((contains (range_of low high) p ≡ true) ↔ ((low ≤ℤ p) × (p ≤ℤ high)))
range_of_ports low high p h l k i =
    let v : IsValid (range_of low high) = omega int_laws in
    let c = contains_iff (range_of low high) p v i in
    (
      v,
      (
        (λ e. let r = c.0 e in let a = r.above in let b = r.below in omega int_laws),
        λ r. c.1 (omega int_laws),
      ),
    )

pub set_bounds-eq :
    (low high : ℤ)
    → pos 0 ≤ℤ low
    → low ≤ℤ high
    → high <ℤ pos 9223372036854775807
    → set_bounds (low, high) ≡ ok (range_of low high)
unfolding set_bounds
set_bounds-eq low high h l k = rw (size-eq low high h l k) (ground arith)

-- The lower bound is read from a text without a minus.
parse_bounds-nonneg :
    (v : Text) (h p : Option ℕ) (low high : ℤ)
    → index_byte b'-' v ≡ h
    → parse_bounds v h p ≡ ok (low, high)
    → pos 0 ≤ℤ low
unfolding parse_bounds
parse_bounds-nonneg v none none low high e k =
    ground (arith, atoi-nonneg v low ((index_byte-none_iff b'-' v).0 e))
parse_bounds-nonneg v (some i) none low high e k =
    ground (arith, atoi-nonneg (take i v) low (IsFree-take_index b'-' v i e))
parse_bounds-nonneg v none (some i) low high e k =
    ground
      (arith, atoi-nonneg (take i v) low (IsFree-take b'-' i v ((index_byte-none_iff b'-' v).0 e)))
parse_bounds-nonneg v (some i) (some j) low high e k = cc

pub set-read_bounds :
    (v : Text) {b : ℤ × ℤ} → v ≢ [] → read_bounds v ≡ ok b → set_trimmed v ≡ set_bounds b
unfolding set_trimmed
set-read_bounds [] ne e = absurd (ne refl)
set-read_bounds (c ∷ s) ne e = rw e

-- A text whose two bounds can be read and come in order, the upper one below the largest `int`,
-- is accepted, and the range then contains exactly the ports from the lower bound to the upper one.
pub set-contains :
    (value : Text) (low high p : ℤ)
    → trim_space value ≢ []
    → read_bounds (trim_space value) ≡ ok (low, high)
    → low ≤ℤ high
    → high <ℤ pos 9223372036854775807
    → IsInt p
    → (pr : PortRange) × (set value ≡ ok pr)
      × IsValid pr
      × ((contains pr p ≡ true) ↔ ((low ≤ℤ p) × (p ≤ℤ high)))
unfolding set
set-contains value low high p ne e l k i =
    let n = parse_bounds-nonneg (trim_space value) _ _ low high refl e in
    let r = range_of_ports low high p n l k i in
    (range_of low high, set-read_bounds _ ne e ∙ set_bounds-eq low high n l k, r.0, r.1)

-- A text whose upper bound is below its lower one is refused.
pub set-reversed :
    (value : Text) (low high : ℤ)
    → trim_space value ≢ []
    → read_bounds (trim_space value) ≡ ok (low, high)
    → high <ℤ low
    → set value ≡ err end_before_start
unfolding set set_bounds
set-reversed value low high ne e l = set-read_bounds _ ne e ∙ rw ((ltb_ℤ_iff high low).1 l)
