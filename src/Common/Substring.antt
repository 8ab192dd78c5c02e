-- ===== src/Common/Substring.antt =====
-- Laws of `strings.Contains`.
use polar_db_stack_common.Common.{◌≡◌, refl, true, [], ◌∷◌, ◌++◌, arith}
use polar_db_stack_common.Common.Text.{Text, starts_with, has_substring}

starts_with-append : (p s t : Text) → starts_with p s ≡ true → starts_with p (s ++ t) ≡ true
starts_with-append [] s t h = refl
starts_with-append (c ∷ p) [] t h = cc
starts_with-append (c ∷ p) (d ∷ s) t h = ground (arith, starts_with-append p s t)

starts_with-has_substring : (p s : Text) → starts_with p s ≡ true → has_substring p s ≡ true
unfolding has_substring
starts_with-has_substring p [] h = h
starts_with-has_substring p (c ∷ s) h = ground (arith, h)

-- A text that is found in a part is found in the whole.
pub has_substring-prefix :
    (p s t : Text) → has_substring p s ≡ true → has_substring p (s ++ t) ≡ true
unfolding has_substring
has_substring-prefix p [] t h = starts_with-has_substring p t (starts_with-append p [] t h)
has_substring-prefix p (c ∷ s) t h =
    ground (arith, starts_with-append p (c ∷ s) t, has_substring-prefix p s t)

pub has_substring-suffix :
    (p s t : Text) → has_substring p t ≡ true → has_substring p (s ++ t) ≡ true
unfolding has_substring
has_substring-suffix p [] t h = h
has_substring-suffix p (c ∷ s) t h = ground (arith, has_substring-suffix p s t h)
