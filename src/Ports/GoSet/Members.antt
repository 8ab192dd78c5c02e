-- ===== src/Ports/GoSet/Members.antt =====
-- business/adapter/go_set.go refines a mathematical set: a test on the values.
use mathlib.Core.Path.{fun_ext}
use mathlib.Core.List.{append-nil, append_assoc}
use polar_db_stack_common.Common.{
  All, sym, ap, ◌≡◌, ◌↔◌, refl, ◌∙◌, Bool, true, false, not, ◌&&◌, ◌||◌, List, [], ◌∷◌, ◌++◌,
  any-append, arith, Bool-cases, inl, inr,
}
use polar_db_stack_common.Common.Int.{ℤ, eqb_ℤ, eqb_ℤ_iff}
use polar_db_stack_common.Common.Text.{All-append}
use polar_db_stack_common.Ports.GoSet.{
  GoSet, has, delete, add, add_loop, clear_all, clear_loop, remove, remove_loop, Op, add_op,
  remove_op, clear_op, step, run, contains,
}

-- A set of values as its characteristic test, with the same three operations.
abbrev pub ValueSet : Type 0
ValueSet = ℤ → Bool

pub spec_step : ValueSet → Op → ValueSet
spec_step t (add_op vs) v = t v || has v vs
spec_step t (remove_op vs) v = t v && not (has v vs)
spec_step t clear_op v = false

pub spec_run : ValueSet → List Op → ValueSet
spec_run t [] = t
spec_run t (op ∷ ops) = spec_run (spec_step t op) ops

abbrev pub view : GoSet → ValueSet
view s v = has v s

-- Each key once.
abbrev pub Distinct : GoSet → Type 0
Distinct [] = Unit
Distinct (v ∷ s) = (has v s ≡ false) × Distinct s

pub has-delete : (v k : ℤ) (s : GoSet) → has v (delete k s) ≡ (has v s && not (eqb_ℤ v k))
unfolding delete
has-delete v k [] = refl
has-delete v k (w ∷ s) =
    ground (arith, eqb_ℤ_iff k w, eqb_ℤ_iff v w, eqb_ℤ_iff v k, has-delete v k s)

has-add_loop : (v : ℤ) (vs : List ℤ) (s : GoSet) → has v (add_loop vs s) ≡ (has v s || has v vs)
unfolding add_loop
has-add_loop v [] s = ground arith
has-add_loop v (w ∷ vs) s = ground (
  arith,
  has-add_loop v vs s,
  has-add_loop v vs (s ++ (w ∷ [])),
  any-append (eqb_ℤ v) s (w ∷ []),
  eqb_ℤ_iff v w,
)

has-remove_loop :
    (v : ℤ) (vs res : List ℤ) (s : GoSet)
    → has v (remove_loop vs (res, s)).1 ≡ (has v s && not (has v vs))
unfolding remove_loop
has-remove_loop v [] res s = ground arith
has-remove_loop v (w ∷ vs) res s = ground (
  arith,
  has-remove_loop v vs (res ++ (w ∷ [])) (delete w s),
  has-remove_loop v vs res s,
  has-delete v w s,
  eqb_ℤ_iff v w,
)

has-clear_loop :
    (v : ℤ) (ks res : List ℤ) (s : GoSet)
    → has v (clear_loop ks (res, s)).1 ≡ (has v s && not (has v ks))
unfolding clear_loop
has-clear_loop v [] res s = ground arith
has-clear_loop v (k ∷ ks) res s =
    ground (arith, has-clear_loop v ks (res ++ (k ∷ [])) (delete k s), has-delete v k s)

-- One method call changes the set as the specification says.
step-view : (s : GoSet) (op : Op) (v : ℤ) → view (step s op) v ≡ spec_step (view s) op v
unfolding step add remove clear_all spec_step
step-view s (add_op vs) v = has-add_loop v vs s
step-view s (remove_op vs) v = has-remove_loop v vs [] s
step-view s clear_op v = has-clear_loop v s [] s ∙ ground arith

-- After any sequence of Add, Remove and ClearAll calls, the set holds exactly the values that a
-- mathematical set holds after the same unions, differences and clearings.
pub run-view : (s : GoSet) (ops : List Op) (v : ℤ) → view (run s ops) v ≡ spec_run (view s) ops v
unfolding run spec_run
run-view s [] v = refl
run-view s (op ∷ ops) v =
    run-view (step s op) ops v ∙ ap (λ (t : ValueSet). spec_run t ops v) (fun_ext (step-view s op))

-- What `Remove` returns.
has-removed :
    (v : ℤ) (vs res : List ℤ) (s : GoSet)
    → has v (remove_loop vs (res, s)).0 ≡ (has v res || (has v s && has v vs))
unfolding remove_loop
has-removed v [] res s = ground arith
has-removed v (w ∷ vs) res s = ground (
  arith,
  has-removed v vs (res ++ (w ∷ [])) (delete w s),
  has-removed v vs res s,
  any-append (eqb_ℤ v) res (w ∷ []),
  has-delete v w s,
  eqb_ℤ_iff v w,
)

-- What `ClearAll` returns.
clear_loop-fst : (ks res : List ℤ) (s : GoSet) → (clear_loop ks (res, s)).0 ≡ res ++ ks
unfolding clear_loop
clear_loop-fst [] res s = sym (append-nil res)
clear_loop-fst (k ∷ ks) res s =
    clear_loop-fst ks (res ++ (k ∷ [])) (delete k s) ∙ append_assoc res (k ∷ []) ks

-- A value that `Remove` reports was in the set and among the arguments, and the other way round;
-- `ClearAll` reports every member.
pub remove-reports :
    (s : GoSet) (vs : List ℤ) (v : ℤ)
    → (has v (remove vs s).0 ≡ (view s v && has v vs)) × ((clear_all s).0 ≡ s)
unfolding remove clear_all
remove-reports s vs v = (has-removed v vs [] s, clear_loop-fst s [] s)

Distinct-snoc : (s : GoSet) (v : ℤ) → Distinct s → has v s ≡ false → Distinct (s ++ (v ∷ []))
Distinct-snoc [] v d h = (refl, tt)
Distinct-snoc (w ∷ s) v d h = (
  ground (arith, any-append (eqb_ℤ w) s (v ∷ []), eqb_ℤ_iff w v, eqb_ℤ_iff v w),
  Distinct-snoc s v d.1 (ground arith),
)

Distinct-delete : (s : GoSet) (k : ℤ) → Distinct s → Distinct (delete k s)
unfolding delete
Distinct-delete [] k d = tt
Distinct-delete (w ∷ s) k d = ground (arith, has-delete w k s, Distinct-delete s k d.1)

Distinct-add_loop : (vs : List ℤ) (s : GoSet) → Distinct s → Distinct (add_loop vs s)
unfolding add_loop
Distinct-add_loop [] s d = d
Distinct-add_loop (v ∷ vs) s d =
    ground
      (arith, Distinct-add_loop vs s, Distinct-add_loop vs (s ++ (v ∷ [])), Distinct-snoc s v d)

Distinct-remove_loop :
    (vs res : List ℤ) (s : GoSet) → Distinct s → Distinct (remove_loop vs (res, s)).1
unfolding remove_loop
Distinct-remove_loop [] res s d = d
Distinct-remove_loop (v ∷ vs) res s d = ground (
  arith,
  Distinct-remove_loop vs res s d,
  Distinct-remove_loop vs (res ++ (v ∷ [])) (delete v s) (Distinct-delete s v d),
)

Distinct-clear_loop :
    (ks res : List ℤ) (s : GoSet) → Distinct s → Distinct (clear_loop ks (res, s)).1
unfolding clear_loop
Distinct-clear_loop [] res s d = d
Distinct-clear_loop (k ∷ ks) res s d =
    Distinct-clear_loop ks (res ++ (k ∷ [])) (delete k s) (Distinct-delete s k d)

step-Distinct : (s : GoSet) (op : Op) → Distinct s → Distinct (step s op)
unfolding step add remove clear_all
step-Distinct s (add_op vs) d = Distinct-add_loop vs s d
step-Distinct s (remove_op vs) d = Distinct-remove_loop vs [] s d
step-Distinct s clear_op d = Distinct-clear_loop s [] s d

-- The list of keys stays one without repetitions under any sequence of calls.
pub run-Distinct : (s : GoSet) (ops : List Op) → Distinct s → Distinct (run s ops)
unfolding run
run-Distinct s [] d = d
run-Distinct s (op ∷ ops) d = run-Distinct (step s op) ops (step-Distinct s op d)

-- `Contains` asks for all of its arguments.
pub contains_iff :
    (s : GoSet) (vs : List ℤ) → (contains vs s ≡ true) ↔ All (λ v. view s v ≡ true) vs
unfolding contains
contains_iff s [] = (λ _. tt, λ _. refl)
contains_iff s (v ∷ vs) = ground (arith, contains_iff s vs)

-- What a client of `Add` needs: the values, and a property that all of them have.
pub has-add : (v : ℤ) (vs : List ℤ) (s : GoSet) → has v (add vs s).0 ≡ (has v s || has v vs)
unfolding add
has-add v vs s = has-add_loop v vs s

All-add_loop {ℓ} :
    (P : ℤ → Type ℓ) (vs : List ℤ) (s : GoSet) → All P s → All P vs → All P (add_loop vs s)
unfolding add_loop
All-add_loop P [] s h k = h
All-add_loop P (v ∷ vs) s h k = elim (Bool-cases (has v s)) [
  | inl hit ↦ rw (hit, add_loop) (All-add_loop P vs s h k.1)
  | inr miss ↦
      rw (miss, add_loop)
        (All-add_loop P vs (s ++ (v ∷ [])) (All-append P s (v ∷ []) h (k.0, tt)) k.1)
]

pub All-add {ℓ} :
    (P : ℤ → Type ℓ) (vs : List ℤ) (s : GoSet) → All P s → All P vs → All P (add vs s).0
unfolding add
All-add P vs s h k = All-add_loop P vs s h k
