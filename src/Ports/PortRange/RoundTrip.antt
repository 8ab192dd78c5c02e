-- ===== src/Ports/PortRange/RoundTrip.antt =====
-- `String` and `Set` of business/adapter/port_range.go undo one another.
use polar_db_stack_common.Common.{ℕ, suc, ◌+◌, ◌<◌, ◌≡◌, ◌≢◌, refl, ap, ◌∙◌, [], ◌∷◌, ◌++◌, arith}
use polar_db_stack_common.Common.Int.{
  pos, ◌+ℤ◌, ◌-ℤ◌, int_add, int_sub, int_add-eq, int_sub-eq, int_laws, int_half,
}
use polar_db_stack_common.Common.Text.{
  Text, trim_space, trim_space-eq, index_byte-append, index_byte-none_iff, take-append, drop-append,
  IsFree, IsFree-append, All-append,
}
use polar_db_stack_common.Common.Decimal.{
  itoa, atoi-itoa, digits-digits, digits-IsFree, digits-no_space,
}
use polar_db_stack_common.Common.Outcome.{ok}
use polar_db_stack_common.Ports.PortRange.{PortRange, set, to_string, read_bounds, parse_bounds}
use polar_db_stack_common.Ports.PortRange.Bounds.{range_of, set_bounds-eq, set-read_bounds}

-- The range of `n + 1` ports from `b` on.
abbrev pub range_at : ℕ → ℕ → PortRange
range_at b n = record { base = pos b; size = pos (suc n) }

abbrev hyphenated : ℕ → ℕ → Text
hyphenated low high = itoa (pos low) ++ (b'-' ∷ itoa (pos high))

last_port :
    (b n : ℕ) → b + suc n < int_half → int_sub (int_add (pos b) (pos (suc n))) (pos 1) ≡ pos (b + n)
last_port b n h =
    rw (int_add-eq (pos b) (pos (suc n)) (omega int_laws))
      (int_sub-eq (pos b +ℤ pos (suc n)) (pos 1) (omega int_laws) ∙ omega int_laws)

to_string-eq : (b n : ℕ) → b + suc n < int_half → to_string (range_at b n) ≡ hyphenated b (b + n)
unfolding to_string
to_string-eq b n h = rw (last_port b n h) (ground arith)

range_of-range_at : (b n : ℕ) → range_of (pos b) (pos (b + n)) ≡ range_at b n
range_of-range_at b n = let e : pos 1 +ℤ pos (b + n) -ℤ pos b ≡ pos (suc n) = omega int_laws in rw e

trim-hyphenated : (l h : ℕ) → trim_space (hyphenated l h) ≡ hyphenated l h
trim-hyphenated l h = trim_space-eq _ (
    All-append _ (itoa (pos l)) _ (digits-no_space _ (digits-digits l))
      (refl, digits-no_space _ (digits-digits h)))

bounds-hyphenated :
    (l h : ℕ) → l < int_half → h < int_half → read_bounds (hyphenated l h) ≡ ok (pos l, pos h)
unfolding parse_bounds
bounds-hyphenated l h p q =
    let free = digits-IsFree b'-' (itoa (pos l)) refl (digits-digits l) in
    let no_plus : IsFree b'+' (hyphenated l h) =
      IsFree-append b'+' (itoa (pos l)) _ (digits-IsFree b'+' _ refl (digits-digits l))
        ((omega arith), digits-IsFree b'+' _ refl (digits-digits h)) in
    rw (
      index_byte-append b'-' (itoa (pos l)) (itoa (pos h)) free,
      (index_byte-none_iff b'+' (hyphenated l h)).1 no_plus,
      take-append (itoa (pos l)) (b'-' ∷ itoa (pos h)),
      drop-append b'-' (itoa (pos l)) (itoa (pos h)),
      atoi-itoa l p,
      atoi-itoa h q,
    )

hyphenated-ne-nil : (s t : Text) (c : ℕ) → s ++ (c ∷ t) ≢ []
hyphenated-ne-nil [] t c = cc
hyphenated-ne-nil (d ∷ s) t c = cc

-- Printing a range of at least one port, from a base that is not negative and with an end below the
-- largest `int`, and parsing the text gives the same range.
pub set-to_string :
    (b n : ℕ) → b + suc n < int_half → set (to_string (range_at b n)) ≡ ok (range_at b n)
unfolding set
set-to_string b n h =
    rw (to_string-eq b n h, trim-hyphenated b (b + n))
      (set-read_bounds _ (hyphenated-ne-nil _ _ _)
          (bounds-hyphenated b (b + n) (omega arith) (omega arith))
        ∙ set_bounds-eq (pos b) (pos (b + n)) (omega arith) (omega arith) (omega arith)
        ∙ ap ok (range_of-range_at b n))
