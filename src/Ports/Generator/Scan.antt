-- ===== src/Ports/Generator/Scan.antt =====
-- The search loop of getNextScopePort in business/adapter/port_generator.go.
use polar_db_stack_common.Common.{ℕ, zero, suc, ◌≡◌, inl, inr, Bool, true, false, arith, Bool-cases}
use polar_db_stack_common.Common.Int.{
  ℤ, pos, negsuc, ◌+ℤ◌, ◌≤ℤ◌, ◌<ℤ◌, int_half, int_add, int_add-eq, int_laws, ltb_ℤ, ltb_ℤ_iff,
}
use polar_db_stack_common.Ports.Generator.{scan}

-- No free port strictly between the two.
abbrev pub NoneBetween : (ℤ → Bool) → ℤ → ℤ → Type 0
NoneBetween free low high = (q : ℤ) → low <ℤ q → q <ℤ high → free q ≡ false

-- The loop runs from `n`, and its variable stays an `int`.
abbrev pub Fits : ℤ → ℕ → Type 0
Fits n r = (negsuc 9223372036854775807 ≤ℤ n) × (n +ℤ pos r <ℤ pos int_half)

module _ (free : ℤ → Bool) where
  next-eq : (n : ℤ) (r : ℕ) → Fits n (suc r) → int_add n (pos 1) ≡ n +ℤ pos 1
  next-eq n r f = int_add-eq n (pos 1) (omega int_laws)

  next-Fits : (n : ℤ) (r : ℕ) → Fits n (suc r) → Fits (n +ℤ pos 1) r
  next-Fits n r f = omega int_laws

  -- One more port that is taken.
  extend :
      (n p : ℤ) → free (n +ℤ pos 1) ≡ false → NoneBetween free (n +ℤ pos 1) p → NoneBetween free n p
  extend n p miss h q l u = elim (Bool-cases (ltb_ℤ (n +ℤ pos 1) q)) [
    | inl more ↦ h q ((ltb_ℤ_iff (n +ℤ pos 1) q).0 more) u
    | inr last ↦ let s : q ≡ n +ℤ pos 1 = grind (int_laws, ltb_ℤ_iff (n +ℤ pos 1) q) in rw s miss
  ]

  pub record Found (n : ℤ) (r : ℕ) (p : ℤ) : Type 0 where
    pub is_free : free p ≡ true
    pub above : n <ℤ p
    pub within : p ≤ℤ n +ℤ pos r
    pub first : NoneBetween free n p

  -- A selected port is the first free one after the start.
  pub scan-selected : (r : ℕ) (n p : ℤ) → Fits n r → scan free r n ≡ (p, true) → Found n r p
  unfolding scan
  scan-selected zero n p f e = cc
  scan-selected (suc r) n p f e = elim (Bool-cases (free (n +ℤ pos 1))) [
    | inl hit ↦
        let s : p ≡ n +ℤ pos 1 = ground (arith, next-eq n r f) in
        record {
          is_free = rw s hit;
          above = rw s (omega int_laws);
          within = rw s (omega int_laws);
          first = λ q l u. let u' : q <ℤ n +ℤ pos 1 = rw s at u in absurd (omega int_laws);
        }
    | inr miss ↦
        let ih = scan-selected r (n +ℤ pos 1) p (next-Fits n r f) (ground (arith, next-eq n r f)) in
        record {
          is_free = ih.is_free;
          above = let a = ih.above in omega int_laws;
          within = let w = ih.within in omega int_laws;
          first = extend n p miss ih.first;
        }
  ]

  -- Without one, none in reach is free.
  pub scan-none :
      (r : ℕ) (n p : ℤ)
      → Fits n r
      → scan free r n ≡ (p, false)
      → NoneBetween free n (n +ℤ pos r +ℤ pos 1)
  unfolding scan
  scan-none zero n p f e = λ q l u. absurd (omega int_laws)
  scan-none (suc r) n p f e = elim (Bool-cases (free (n +ℤ pos 1))) [
    | inl hit ↦ ground (arith, next-eq n r f)
    | inr miss ↦
        let ih = scan-none r (n +ℤ pos 1) p (next-Fits n r f) (ground (arith, next-eq n r f)) in
        extend n (n +ℤ pos (suc r) +ℤ pos 1) miss (λ q l u. ih q l (omega int_laws))
  ]
