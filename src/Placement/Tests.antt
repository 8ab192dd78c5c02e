-- ===== src/Placement/Tests.antt =====
-- Runs of business/adapter/pod_manager_base.go: two nodes, the second of which has lost its storage, and
-- the deletion of a pod.
use polar_db_stack_common.Placement.Deleting.{
  Received, modified, deleted, cancelled, unexpected, PodApi, InsPod, cleared, delete_ins_pod,
}
use polar_db_stack_common.Placement.Waiting.{delete_ins_pod-deleted, delete_ins_pod-endless}
use polar_db_stack_common.Common.{
  ℕ, zero, suc, ◌<◌, ◌≡◌, ◌≢◌, ◌↔◌, ◌⊎◌, refl, sym, ap, ◌∙◌, Bool, true, false, not, List, [], ◌∷◌,
  Option, none, some, if◌then◌else◌, all, arith,
}
use polar_db_stack_common.Common.Text.{Text, codes, text_eq, text_mem}
use polar_db_stack_common.Common.Outcome.{ok}
use polar_db_stack_common.Placement.Nodes.{Node, storage_condition_type}
use polar_db_stack_common.Placement.Affinity.{
  Requirement, in_values, not_in_values, does_not_exist, ControllerConf, hostname,
  build_pod_node_affinity,
}
use polar_db_stack_common.Placement.Selected.{Labels, SelectorLaws, affinity_selects_iff}

abbrev found_in : List Text → Option Text → Bool
found_in values none = false
found_in values (some value) = text_mem value values

abbrev is_missing : Option Text → Bool
is_missing none = true
is_missing (some value) = false

-- A selector with the three operators.
abbrev satisfies : Requirement → Labels → Bool
satisfies (in_values key values) labels = found_in values (labels key)
satisfies (not_in_values key values) labels = not (found_in values (labels key))
satisfies (does_not_exist key) labels = is_missing (labels key)

some_injective : (a b : Text) → some a ≡ some b → a ≡ b
some_injective a b e = ground (arith, e)

found_in_iff :
    (values : List Text) (label : Option Text)
    → (found_in values label ≡ true)
      ↔ ((value : Text) × (label ≡ some value) × (text_mem value values ≡ true))
found_in_iff values none = ground arith
found_in_iff values (some value) = (
  (λ h. (value, refl, h)),
  (λ h.
      let (other, e, mem) = h in ap (λ v. text_mem v values) (some_injective value other e) ∙ mem),
)

not-found_in_iff :
    (values : List Text) (label : Option Text)
    → (not (found_in values label) ≡ true)
      ↔ ((value : Text) → label ≡ some value → text_mem value values ≡ false)
not-found_in_iff values none = ((λ h value e. cc), (λ h. refl))
not-found_in_iff values (some value) = (
  (λ h other e.
      ap (λ v. text_mem v values) (sym (some_injective value other e)) ∙ ground (arith, h)),
  (λ h. ground (arith, h value refl)),
)

is_missing_iff : (label : Option Text) → (is_missing label ≡ true) ↔ (label ≡ none)
is_missing_iff none = ground arith
is_missing_iff (some value) = ground arith

laws : SelectorLaws satisfies
laws = record {
  in_law = λ key values labels. found_in_iff values (labels key);
  not_in_law = λ key values labels. not-found_in_iff values (labels key);
  absent_law = λ key labels. is_missing_iff (labels key);
}

abbrev nodes : List Node
nodes =
    record { name = codes "a"; conditions = [] }
    ∷ (record { name = codes "b"; conditions = (storage_condition_type, codes "True") ∷ [] } ∷ [])

-- The labels of the second node.
abbrev labels_b : Labels
labels_b key = if text_eq key hostname then some (codes "b") else none

abbrev conf : ControllerConf
conf = record { hybrid_deployment = false; controller_node_label = codes "controller" }

abbrev requirements : List Requirement
requirements =
    does_not_exist (codes "controller")
    ∷ (not_in_values hostname (codes "b" ∷ []) ∷ (does_not_exist (codes "maintain") ∷ []))

requirements_built :
    build_pod_node_affinity (ok conf) (codes "maintain") (codes "b" ∷ []) [] ≡ ok requirements
unfolding build_pod_node_affinity
requirements_built = refl

affinity_selects_iff_example : (all (λ r. satisfies r labels_b) requirements ≡ true) ↔ (
    ((codes "" ≡ []) ⊎ (codes "b" ≡ []))
    × ((conf.hybrid_deployment ≡ true)
        ⊎ (conf.controller_node_label ≡ [])
        ⊎ (labels_b conf.controller_node_label ≡ none))
    × (text_mem (codes "b") (codes "b" ∷ []) ≡ false)
    × (labels_b (codes "maintain") ≡ none))
affinity_selects_iff_example =
    affinity_selects_iff satisfies laws labels_b conf (codes "maintain") (codes "b" ∷ []) []
      (codes "b") requirements refl requirements_built

-- A watch that reports a change, and then the deletion; and one whose channel is closed.
abbrev events : ℕ → Received
events zero = modified
events (suc i) = deleted

abbrev closed_channel : ℕ → Received
closed_channel i = unexpected []

abbrev api : (ℕ → Received) → PodApi
api received = record {
  client_error = none;
  delete_error = none;
  found = none;
  watch_client_error = none;
  watch_error = none;
  received = received;
}

abbrev ins : InsPod
ins = record {
  resource_name = codes "pod-1";
  installed = true;
  host = codes "a";
  host_ip = codes "10.0.0.1";
  client_ip = codes "11.0.0.1";
  engine_state = some (codes "RUNNING");
}

not_cancelled : (j : ℕ) → j < 1 → events j ≢ cancelled
not_cancelled zero early e = cc
not_cancelled (suc j) early e = cc

delete_ins_pod-deleted_example : delete_ins_pod 2 true (api events) ins ≡ some (cleared ins, none)
delete_ins_pod-deleted_example =
    delete_ins_pod-deleted 2 (api events) ins 1 refl refl refl refl refl refl not_cancelled
      (omega arith)

delete_ins_pod-endless_example : delete_ins_pod 1000 true (api closed_channel) ins ≡ none
delete_ins_pod-endless_example =
    delete_ins_pod-endless 1000 (api closed_channel) ins refl refl refl refl refl (λ j e. cc)
      (λ j e. cc)
