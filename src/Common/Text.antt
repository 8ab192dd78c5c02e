-- ===== src/Common/Text.antt =====
-- Go strings as lists of bytes, with what the program uses of the package `strings`. White space
-- is that of ASCII.
use Prim.Native.Char.{code}
use Prim.Native.String.{String}
use mathlib.Core.List.{reverse, reverse-cons, reverse-reverse}
use polar_db_stack_common.Common.{
  ℕ, zero, suc, ◌≡◌, ◌≢◌, ◌↔◌, refl, Bool, true, false, ◌&&◌, ◌||◌, List, [], ◌∷◌, ◌++◌, Option,
  none, some, arith, ltb, leb, ◌==◌, if◌then◌else◌, length, All, any, Bool-cases, inl, inr,
}

abbrev pub Text : Type 0
Text = List ℕ

-- The bytes of an ASCII literal.
abbrev pub codes : String → Text
codes String.[] = []
codes (String.◌∷◌ c s) = code c ∷ codes s

abbrev pub text_eq : Text → Text → Bool
text_eq [] [] = true
text_eq (a ∷ s) (b ∷ t) = a == b && text_eq s t
text_eq _ _ = false

-- `s < t`, byte by byte.
abbrev pub text_lt : Text → Text → Bool
text_lt s [] = false
text_lt [] (b ∷ t) = true
text_lt (a ∷ s) (b ∷ t) = ltb a b || (a == b && text_lt s t)

pub text_eq_iff : (s t : Text) → (text_eq s t ≡ true) ↔ (s ≡ t)
text_eq_iff [] [] = ground arith
text_eq_iff [] (b ∷ t) = ground arith
text_eq_iff (a ∷ s) [] = ground arith
text_eq_iff (a ∷ s) (b ∷ t) = ground (arith, text_eq_iff s t)

pub text_eq_refl : (s : Text) → text_eq s s ≡ true
text_eq_refl s = (text_eq_iff s s).1 refl

pub text_lt_irrefl : (s : Text) → text_lt s s ≡ false
text_lt_irrefl [] = refl
text_lt_irrefl (a ∷ s) = ground (arith, text_lt_irrefl s)

-- Membership in a slice of strings.
abbrev pub text_mem : Text → List Text → Bool
text_mem s = any (text_eq s)

abbrev pub is_space : ℕ → Bool
is_space c = c == 32 || (leb 9 c && leb c 13)

abbrev pub trim_left : Text → Text
trim_left [] = []
trim_left (c ∷ s) = if is_space c then trim_left s else c ∷ s

-- `strings.TrimSpace`
unfoldable pub trim_space : Text → Text
trim_space s = reverse (trim_left (reverse (trim_left s)))

-- `strings.Index(s, c)` for a text of one byte; `none` is -1.
abbrev pub index_byte : ℕ → Text → Option ℕ
index_byte c [] = none
index_byte c (d ∷ s) =
    let rest : Option ℕ = elim (index_byte c s) [ none ↦ none | some i ↦ some (suc i) ] in
    if c == d then some 0 else rest

-- `s[:i]` and `s[i:]`
abbrev pub take : ℕ → Text → Text
take zero s = []
take (suc n) [] = []
take (suc n) (c ∷ s) = c ∷ take n s

abbrev pub drop : ℕ → Text → Text
drop zero s = s
drop (suc n) [] = []
drop (suc n) (c ∷ s) = drop n s

-- Puts one more byte in front of the first piece.
abbrev cons_piece : ℕ → List Text → List Text
cons_piece c [] = (c ∷ []) ∷ []
cons_piece c (p ∷ ps) = (c ∷ p) ∷ ps

-- `strings.Split(s, c)` for a separator of one byte: there is always a first piece.
unfoldable pub split_byte : ℕ → Text → List Text
split_byte c [] = [] ∷ []
split_byte c (d ∷ s) = if c == d then [] ∷ split_byte c s else cons_piece d (split_byte c s)

abbrev pub starts_with : Text → Text → Bool
starts_with [] s = true
starts_with (c ∷ p) [] = false
starts_with (c ∷ p) (d ∷ s) = c == d && starts_with p s

-- `strings.Contains(s, p)`
unfoldable pub has_substring : Text → Text → Bool
has_substring p [] = starts_with p []
has_substring p (c ∷ s) = starts_with p (c ∷ s) || has_substring p s

-- A text without the byte `c`.
abbrev pub IsFree : ℕ → Text → Type 0
IsFree c s = All (λ d. d ≢ c) s

pub index_byte-free : (c : ℕ) (s : Text) → IsFree c s → index_byte c s ≡ none
index_byte-free c [] h = refl
index_byte-free c (d ∷ s) h = ground (arith, index_byte-free c s h.1)

pub index_byte-append :
    (c : ℕ) (s t : Text) → IsFree c s → index_byte c (s ++ c ∷ t) ≡ some (length s)
index_byte-append c [] t h = ground arith
index_byte-append c (d ∷ s) t h = ground (arith, index_byte-append c s t h.1)

pub take-append : (s t : Text) → take (length s) (s ++ t) ≡ s
take-append [] t = refl
take-append (c ∷ s) t = cc (take-append s t)

pub drop-append : (c : ℕ) (s t : Text) → drop (suc (length s)) (s ++ c ∷ t) ≡ t
drop-append c [] t = refl
drop-append c (d ∷ s) t = drop-append c s t

pub IsFree-append : (c : ℕ) (s t : Text) → IsFree c s → IsFree c t → IsFree c (s ++ t)
IsFree-append c [] t h k = k
IsFree-append c (d ∷ s) t h k = (h.0, IsFree-append c s t h.1 k)

pub All-append {ℓ κ} :
    {A : Type ℓ} (P : A → Type κ) (xs ys : List A) → All P xs → All P ys → All P (xs ++ ys)
All-append P [] ys h k = k
All-append P (x ∷ xs) ys h k = (h.0, All-append P xs ys h.1 k)

pub All-reverse {ℓ κ} : {A : Type ℓ} (P : A → Type κ) (xs : List A) → All P xs → All P (reverse xs)
All-reverse P [] h = tt
All-reverse P (x ∷ xs) h =
    rw (reverse-cons x xs) (All-append P (reverse xs) (x ∷ []) (All-reverse P xs h.1) (h.0, tt))

trim_left-eq : (s : Text) → All (λ c. is_space c ≡ false) s → trim_left s ≡ s
trim_left-eq [] h = refl
trim_left-eq (c ∷ s) h = rw h.0

-- A text without white space is trimmed already.
pub trim_space-eq : (s : Text) → All (λ c. is_space c ≡ false) s → trim_space s ≡ s
unfolding trim_space
trim_space-eq s h =
    rw (trim_left-eq s h, trim_left-eq (reverse s) (All-reverse _ s h)) (reverse-reverse s)

pub index_byte-none_iff : (c : ℕ) (s : Text) → (index_byte c s ≡ none) ↔ IsFree c s
index_byte-none_iff c [] = (λ e. tt, λ h. refl)
index_byte-none_iff c (d ∷ s) = ground (arith, index_byte-none_iff c s)

pub IsFree-take : (c n : ℕ) (s : Text) → IsFree c s → IsFree c (take n s)
IsFree-take c zero s h = tt
IsFree-take c (suc n) [] h = tt
IsFree-take c (suc n) (d ∷ s) h = (h.0, IsFree-take c n s h.1)

-- What stands before the first `c`.
pub IsFree-take_index : (c : ℕ) (s : Text) (i : ℕ) → index_byte c s ≡ some i → IsFree c (take i s)
IsFree-take_index c [] i e = cc
IsFree-take_index c (d ∷ s) zero e = tt
IsFree-take_index c (d ∷ s) (suc i) e = ground (arith, IsFree-take_index c s i)

pub split_byte-free : (c : ℕ) (s : Text) → IsFree c s → split_byte c s ≡ s ∷ []
unfolding split_byte
split_byte-free c [] h = refl
split_byte-free c (d ∷ s) h = ground (arith, split_byte-free c s h.1)

pub split_byte-append :
    (c : ℕ) (s t : Text) → IsFree c s → split_byte c (s ++ c ∷ t) ≡ s ∷ split_byte c t
unfolding split_byte
split_byte-append c [] t h = ground arith
split_byte-append c (d ∷ s) t h = ground (arith, split_byte-append c s t h.1)

split_byte-some : (c : ℕ) (s : Text) → (p : Text) × (ps : List Text) × (split_byte c s ≡ p ∷ ps)
unfolding split_byte
split_byte-some c [] = ([], [], refl)
split_byte-some c (d ∷ s) =
    let (p, ps, e) = split_byte-some c s in
    elim (Bool-cases (c == d)) [
      | inl h ↦ ([], split_byte c s, ground (arith, h))
      | inr h ↦ (d ∷ p, ps, ground (arith, h, e))
    ]

cons_piece-append :
    (d : ℕ) (xs ys : List Text) (p : Text) (ps : List Text)
    → xs ≡ p ∷ ps
    → cons_piece d (xs ++ ys) ≡ cons_piece d xs ++ ys
cons_piece-append d [] ys p ps e = cc
cons_piece-append d (x ∷ xs) ys p ps e = refl

-- What stands behind the last separator is the last piece.
pub split_byte-last :
    (c : ℕ) (s t : Text)
    → split_byte c t ≡ t ∷ []
    → split_byte c (s ++ c ∷ t) ≡ split_byte c s ++ (t ∷ [])
unfolding split_byte
split_byte-last c [] t h = ground (arith, h)
split_byte-last c (d ∷ s) t h =
    let (p, ps, e) = split_byte-some c s in
    let put = cons_piece-append d (split_byte c s) (t ∷ []) p ps e in
    let rest = split_byte-last c s t h in
    elim (Bool-cases (c == d)) [
      | inl k ↦ ground (arith, k, rest)
      | inr k ↦ ground (arith, k, rest, put)
    ]
