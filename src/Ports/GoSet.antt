-- ===== src/Ports/GoSet.antt =====
-- business/adapter/go_set.go: a set of int32 values over a Go map. A map is the list of its keys,
-- each once, in some order; the mutex makes every method one step.
pub mod Members
use polar_db_stack_common.Common.{Bool, true, false, not, List, [], ◌∷◌, ◌++◌, any, if◌then◌else◌}
use polar_db_stack_common.Common.Int.{ℤ, eqb_ℤ}

abbrev pub GoSet : Type 0
GoSet = List ℤ

unfoldable pub new_go_set : GoSet
new_go_set = []

-- `_, ok := m[v]`
abbrev pub has : ℤ → GoSet → Bool
has v = any (eqb_ℤ v)

-- `delete(m, v)`
unfoldable pub delete : ℤ → GoSet → GoSet
delete v [] = []
delete v (w ∷ s) = if eqb_ℤ v w then delete v s else w ∷ delete v s

unfoldable pub add_loop : List ℤ → GoSet → GoSet
add_loop [] s = s
add_loop (v ∷ vs) s = add_loop vs (if has v s then s else s ++ (v ∷ []))

unfoldable pub add : List ℤ → GoSet → GoSet × Bool
unfolding add_loop
add vs s = (add_loop vs s, true)

unfoldable pub contains : List ℤ → GoSet → Bool
contains [] s = true
contains (v ∷ vs) s = let rest = contains vs s in if not (has v s) then false else rest

unfoldable pub get_all : GoSet → List ℤ
get_all s = s

-- The loop over the keys deletes each one after noting it.
clear_loop : List ℤ → List ℤ × GoSet → List ℤ × GoSet
clear_loop [] (res, s) = (res, s)
clear_loop (k ∷ ks) (res, s) = clear_loop ks (res ++ (k ∷ []), delete k s)

unfoldable pub clear_all : GoSet → List ℤ × GoSet
unfolding clear_loop delete
clear_all s = clear_loop s ([], s)

remove_loop : List ℤ → List ℤ × GoSet → List ℤ × GoSet
remove_loop [] (res, s) = (res, s)
remove_loop (k ∷ ks) (res, s) =
    remove_loop ks (if has k s then (res ++ (k ∷ []), delete k s) else (res, s))

unfoldable pub remove : List ℤ → GoSet → List ℤ × GoSet
unfolding remove_loop delete
remove vs s = remove_loop vs ([], s)

-- A call of one of the methods that change the set, with its effect.
pub data Op : Type 0 where
  add_op remove_op : List ℤ → Op
  clear_op : Op

pub step : GoSet → Op → GoSet
step s (add_op vs) = (add vs s).0
step s (remove_op vs) = (remove vs s).1
step s clear_op = (clear_all s).1

pub run : GoSet → List Op → GoSet
run s [] = s
run s (op ∷ ops) = run (step s op) ops
