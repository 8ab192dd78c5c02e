-- ===== src/Ports/PortRange.antt =====
-- business/adapter/port_range.go: ranges of ports, with a list of reserved ones.
-- The pointer PortRanges.PortRange is nil only inside ParsePortRanges, between the allocation and
-- Set, so the model holds the range itself.
pub mod Bounds
pub mod RoundTrip
pub mod Reserved
use polar_db_stack_common.Common.{
  ◌≡◌, Bool, true, false, ◌&&◌, ◌||◌, List, [], ◌∷◌, ◌++◌, Option, none, some, if◌then◌else◌, suc,
  ℕ,
}
use polar_db_stack_common.Common.Int.{ℤ, pos, leb_ℤ, ltb_ℤ, eqb_ℤ, int_add, int_sub}
use polar_db_stack_common.Common.Text.{Text, trim_space, index_byte, take, drop, split_byte}
use polar_db_stack_common.Common.Decimal.{itoa, atoi}
use polar_db_stack_common.Common.Outcome.{Outcome, ok, err, ◌>>=◌, or_fail}

pub record PortRange : Type 0 where
  pub base : ℤ
  pub size : ℤ

-- The errors of `Set`: one of `strconv.Atoi`, and its own two.
pub data RangeError : Type 0 where
  not_a_number bad_notation end_before_start : RangeError

unfoldable pub contains : PortRange → ℤ → Bool
contains pr p = leb_ℤ pr.base p && ltb_ℤ (int_sub p pr.base) pr.size

-- `String()`
unfoldable pub to_string : PortRange → Text
to_string pr =
    if eqb_ℤ pr.size (pos 0)
    then []
    else itoa pr.base ++ (b'-' ∷ itoa (int_sub (int_add pr.base pr.size) (pos 1)))

abbrev parse_int : Text → Outcome RangeError ℤ
parse_int s = or_fail (atoi s) not_a_number

-- The switch over the notation: where the first `-` and the first `+` stand decides it.
unfoldable pub parse_bounds : Text → Option ℕ → Option ℕ → Outcome RangeError (ℤ × ℤ)
parse_bounds value none none = do port ← parse_int value; ok (port, port)
parse_bounds value (some i) none = do
  low ← parse_int (take i value)
  high ← parse_int (drop (suc i) value)
  ok (low, high)
parse_bounds value none (some i) = do
  low ← parse_int (take i value)
  offset ← parse_int (drop (suc i) value)
  ok (low, int_add low offset)
parse_bounds value (some i) (some j) = err bad_notation

-- The check of the bounds and the two assignments at the end of `Set`.
unfoldable pub set_bounds : ℤ × ℤ → Outcome RangeError PortRange
set_bounds (low, high) =
    if ltb_ℤ high low
    then err end_before_start
    else ok (record { base = low; size = int_sub (int_add (pos 1) high) low })

-- The notation is found on the trimmed text.
abbrev pub read_bounds : Text → Outcome RangeError (ℤ × ℤ)
read_bounds value = parse_bounds value (index_byte b'-' value) (index_byte b'+' value)

-- `Set` after the white space is gone: the contents that the receiver gets.
unfoldable pub set_trimmed : Text → Outcome RangeError PortRange
set_trimmed [] = ok (record { base = pos 0; size = pos 0 })
set_trimmed (c ∷ s) = do set_bounds (← read_bounds (c ∷ s))

unfoldable pub set : Text → Outcome RangeError PortRange
unfolding set_trimmed
set value = set_trimmed (trim_space value)

unfoldable pub parse_port_range : Text → Outcome RangeError PortRange
parse_port_range value = set value

pub record PortRanges : Type 0 where
  pub port_range : PortRange
  pub reserved_port_ranges : List PortRange

-- The loop of `SetReservedPortRanges`; it stops at the first text that is no range.
add_reserved : List Text → PortRanges → Outcome RangeError PortRanges
add_reserved [] prs = ok prs
add_reserved (value ∷ rest) prs = do
  pr ← parse_port_range value
  add_reserved rest (record prs { reserved_port_ranges = prs.reserved_port_ranges ++ (pr ∷ []) })

unfoldable pub set_reserved_port_ranges : Text → PortRanges → Outcome RangeError PortRanges
unfolding add_reserved
set_reserved_port_ranges value prs = add_reserved (split_byte b',' value) prs

-- The loop over the reserved ranges in `PortRanges.Contains`.
is_reserved : List PortRange → ℤ → Bool
is_reserved [] p = false
is_reserved (pr ∷ rest) p = contains pr p || is_reserved rest p

unfoldable pub ranges_contain : PortRanges → ℤ → Bool
unfolding is_reserved
ranges_contain prs p =
    if is_reserved prs.reserved_port_ranges p then false else contains prs.port_range p

unfoldable pub get_min_and_max_port : PortRanges → ℤ × ℤ
get_min_and_max_port prs =
    (prs.port_range.base, int_sub (int_add prs.port_range.base prs.port_range.size) (pos 1))

unfoldable pub parse_port_ranges : Text → Text → Outcome RangeError PortRanges
parse_port_ranges value [] = do
  pr ← parse_port_range value
  ok (record { port_range = pr; reserved_port_ranges = [] })
parse_port_ranges value (c ∷ reserved) = do
  pr ← parse_port_range value
  set_reserved_port_ranges (c ∷ reserved) (record { port_range = pr; reserved_port_ranges = [] })
