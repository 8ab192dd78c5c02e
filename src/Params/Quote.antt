-- ===== src/Params/Quote.antt =====
-- getRunningParamQuotaValue of business/domain/db_cluster_base.go. Each of its three constant
-- regular expressions is a test by clauses; a constant expression that compiles gives no error.
use polar_db_stack_common.Common.{
  ◌≡◌, refl, ◌⊎◌, inl, inr, Bool, true, false, not, ◌&&◌, ◌||◌, [], ◌∷◌, ◌++◌, arith, ◌==◌,
  if◌then◌else◌, any, Bool-cases,
}
use polar_db_stack_common.Common.Text.{Text, text_eq, IsFree}

-- `.*'$`: a last quote, and no line break before it.
closes : Text → Bool
closes [] = false
closes (c ∷ []) = c == b'\''
closes (c ∷ d ∷ s) = not (c == 10) && closes (d ∷ s)

-- `^'.*'$`
unfoldable pub is_quoted : Text → Bool
unfolding closes
is_quoted [] = false
is_quoted (c ∷ s) = c == b'\'' && closes s

-- `.*'\$$`
closes_dollar : Text → Bool
closes_dollar [] = false
closes_dollar (c ∷ []) = false
closes_dollar (c ∷ d ∷ []) = c == b'\'' && d == b'$'
closes_dollar (c ∷ d ∷ e ∷ s) = not (c == 10) && closes_dollar (d ∷ e ∷ s)

-- `^\^'.*'\$$`
unfoldable pub is_quoted_pattern : Text → Bool
unfolding closes_dollar
is_quoted_pattern [] = false
is_quoted_pattern (c ∷ []) = false
is_quoted_pattern (c ∷ d ∷ s) = c == b'^' && d == b'\'' && closes_dollar s

-- `[,:]`
unfoldable pub has_separator : Text → Bool
has_separator s = any (λ c. c == b',' || c == b':') s

abbrev pub wants_quotes : Text → Text → Text → Bool
wants_quotes user_value running_value regex =
    is_quoted user_value
    || (not (text_eq regex []) && is_quoted_pattern regex)
    || has_separator running_value

abbrev pub in_quotes : Text → Text
in_quotes s = b'\'' ∷ (s ++ (b'\'' ∷ []))

unfoldable pub get_running_param_quota_value : Text → Text → Text → Text
get_running_param_quota_value user_value running_value regex =
    if wants_quotes user_value running_value regex && not (is_quoted running_value)
    then in_quotes running_value
    else running_value

closes-snoc : (s : Text) → IsFree 10 s → closes (s ++ (b'\'' ∷ [])) ≡ true
unfolding closes
closes-snoc [] f = refl
closes-snoc (c ∷ []) f = ground arith
closes-snoc (c ∷ d ∷ s) f = ground (arith, closes-snoc (d ∷ s) f.1)

in_quotes-quoted : (s : Text) → IsFree 10 s → is_quoted (in_quotes s) ≡ true
unfolding is_quoted
in_quotes-quoted s f = closes-snoc s f

quota_value-adds :
    (user_value v regex : Text)
    → (wants_quotes user_value v regex && not (is_quoted v)) ≡ true
    → get_running_param_quota_value user_value v regex ≡ in_quotes v
unfolding get_running_param_quota_value
quota_value-adds user_value v regex h = rw h

quota_value-same :
    (user_value v regex : Text)
    → (wants_quotes user_value v regex && not (is_quoted v)) ≡ false
    → get_running_param_quota_value user_value v regex ≡ v
unfolding get_running_param_quota_value
quota_value-same user_value v regex h = rw h

-- A value that is quoted, or wants no quotes, stays.
quota_value-keeps :
    (user_value v regex : Text)
    → (is_quoted v ≡ true) ⊎ (wants_quotes user_value v regex ≡ false)
    → get_running_param_quota_value user_value v regex ≡ v
unfolding get_running_param_quota_value
quota_value-keeps user_value v regex (inl q) = ground arith
quota_value-keeps user_value v regex (inr w) = rw w

-- The value is the running one, as it is or between quotes. Where the running value has no line
-- break, the result is quoted exactly if quotes are wanted or were there, and a second pass over
-- it adds none.
pub quota_value_quoted :
    (user_value running_value regex : Text)
    → IsFree 10 running_value
    → let v = get_running_param_quota_value user_value running_value regex in
      ((v ≡ running_value) ⊎ (v ≡ in_quotes running_value))
      × (is_quoted v ≡ (wants_quotes user_value running_value regex || is_quoted running_value))
      × (get_running_param_quota_value user_value v regex ≡ v)
quota_value_quoted user_value running_value regex f =
    elim (Bool-cases
      (wants_quotes user_value running_value regex && not (is_quoted running_value))) [
        | inl adds ↦
            let e = quota_value-adds user_value running_value regex adds in
            let q = in_quotes-quoted running_value f in
            rw e (inr refl, ground arith, quota_value-keeps user_value _ regex (inl q))
        | inr keeps ↦
            let e = quota_value-same user_value running_value regex keeps in
            rw e (inl refl, ground arith, e)
      ]
