-- ===== src/Engine/Ids/Counter.antt =====
-- The ids of business/adapter/id_generator.go over several calls, against a counter.
use polar_db_stack_common.Common.{
  ℕ, zero, suc, ◌+◌, ◌<◌, ◌≡◌, refl, sym, ap, ◌∙◌, Bool, true, List, [], ◌∷◌, ◌++◌, some, arith,
}
use polar_db_stack_common.Common.Int.{ℤ, pos, int_add, int_half, int_add-eq, ◌+ℤ◌, int_laws}
use polar_db_stack_common.Common.Text.{Text, text_eq_refl}
use polar_db_stack_common.Common.Decimal.{atoi, itoa, atoi-itoa}
use polar_db_stack_common.Common.Dict.{Dict, insert, lookup-insert}
use polar_db_stack_common.Common.Outcome.{Outcome, ok, ◌>>=◌}
use polar_db_stack_common.Engine.Ids.{
  IdError, stored_id, ids_from, get_next_cluster_scope_host_ins_ids,
  next_cluster_scope_cust_ins_id_key,
}

-- Calls one after the other, each of which finds what the one before it has stored.
unfoldable pub run_calls :
    (Dict Text → Bool) → Dict Text → List ℕ → Outcome IdError (List ℤ × Dict Text)
run_calls accepts contents [] = ok ([], contents)
run_calls accepts contents (n ∷ ns) = do
  first ← get_next_cluster_scope_host_ins_ids (ok (some contents)) accepts (pos n)
  rest ← run_calls accepts first.1 ns
  ok (first.0 ++ rest.0, rest.1)

-- The counter: consecutive numbers.
abbrev pub consecutive : ℕ → ℕ → List ℤ
consecutive start zero = []
consecutive start (suc count) = pos start ∷ consecutive (suc start) count

abbrev pub total : List ℕ → ℕ
total [] = 0
total (n ∷ ns) = n + total ns

consecutive-append :
    (start m n : ℕ) → consecutive start (m + n) ≡ consecutive start m ++ consecutive (start + m) n
consecutive-append start zero n =
    let same : start + zero ≡ start = omega arith in
    let none_first : zero + n ≡ n = omega arith in
    ap (consecutive start) none_first ∙ ap (λ k. consecutive k n) (sym same)
consecutive-append start (suc m) n =
    let rest = consecutive-append (suc start) m n in
    let same : suc start + m ≡ start + suc m = omega arith in
    let one_more : suc m + n ≡ suc (m + n) = omega arith in
    ap (consecutive start) one_more
    ∙ ap (λ (l : List ℤ). pos start ∷ l)
        (rest ∙ ap (λ k. consecutive (suc start) m ++ consecutive k n) same)

int_add-pos : (a b : ℕ) → a + b < int_half → int_add (pos a) (pos b) ≡ pos (a + b)
int_add-pos a b h =
    let sum : pos a +ℤ pos b ≡ pos (a + b) = omega int_laws in
    int_add-eq (pos a) (pos b) (ground (arith, sum)) ∙ sum

ids_from-consecutive :
    (id i count : ℕ)
    → id + (i + count) < int_half
    → ids_from (pos id) i count ≡ consecutive (id + i) count
unfolding ids_from
ids_from-consecutive id i zero h = refl
ids_from-consecutive id i (suc count) h =
    let first = int_add-pos id i (omega arith) in
    let rest = ids_from-consecutive id (suc i) count (omega arith) in
    let same : id + suc i ≡ suc (id + i) = omega arith in ground (arith, first, rest, same)

stored_id-insert :
    (text : Text) (contents : Dict Text)
    → stored_id (some (insert next_cluster_scope_cust_ins_id_key text contents)) ≡ text
unfolding stored_id
stored_id-insert text contents = ground (
  arith,
  lookup-insert next_cluster_scope_cust_ins_id_key next_cluster_scope_cust_ins_id_key text contents,
  text_eq_refl next_cluster_scope_cust_ins_id_key,
)

-- One call from a stored number: consecutive ids from it on, and the number after them is stored.
call-counts :
    (accepts : Dict Text → Bool) (contents : Dict Text) (id n : ℕ)
    → ((d : Dict Text) → accepts d ≡ true)
    → atoi (stored_id (some contents)) ≡ some (pos id)
    → id + n < int_half
    → (updated : Dict Text) × (get_next_cluster_scope_host_ins_ids
          (ok (some contents))
          accepts
          (pos n)
        ≡ ok (consecutive id n, updated))
      × (atoi (stored_id (some updated)) ≡ some (pos (id + n)))
unfolding get_next_cluster_scope_host_ins_ids
call-counts accepts contents id n takes reads h =
    let updated =
      insert next_cluster_scope_cust_ins_id_key (itoa (int_add (pos id) (pos n))) contents in
    let next = int_add-pos id n h in
    let ids : ids_from (pos id) zero n ≡ consecutive id n =
      ids_from-consecutive id zero n (omega arith) ∙ ap (λ k. consecutive k n) (omega arith) in
    (
      updated,
      ground (arith, takes updated, ids),
      ap atoi (stored_id-insert _ contents) ∙ ap (λ z. atoi (itoa z)) next ∙ atoi-itoa (id + n) h,
    )

-- Where the stored text is the number id and every update is taken, calls for the counts ns hand
-- out together exactly the numbers id, id + 1, ... up to id + total ns, in this order and each once,
-- and the next id is the one after them, as long as all of them fit an int.
pub calls_count :
    (accepts : Dict Text → Bool) (contents : Dict Text) (id : ℕ) (ns : List ℕ)
    → ((d : Dict Text) → accepts d ≡ true)
    → atoi (stored_id (some contents)) ≡ some (pos id)
    → id + total ns < int_half
    → (updated : Dict Text) × (run_calls accepts contents ns
        ≡ ok (consecutive id (total ns), updated))
      × (atoi (stored_id (some updated)) ≡ some (pos (id + total ns)))
unfolding run_calls
calls_count accepts contents id [] takes reads h =
    (contents, refl, reads ∙ ap (λ k. some (pos k)) (omega arith))
calls_count accepts contents id (n ∷ ns) takes reads h =
    let (between, called, reads₁) = call-counts accepts contents id n takes reads (omega arith) in
    let (updated, ran, reads₂) =
      calls_count accepts between (id + n) ns takes reads₁ (omega arith) in
    (
      updated,
      ground (arith, called, ran, consecutive-append id n (total ns)),
      reads₂ ∙ ap (λ k. some (pos k)) (omega arith),
    )
