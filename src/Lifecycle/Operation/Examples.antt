-- ===== src/Lifecycle/Operation/Examples.antt =====
-- An update operation on a pod with no labels, and on one that another type has.
use kuperator.Common.{◌≡◌, refl, ◌↔◌, Bool, true, false, none, [], ◌∷◌, codes, has}
use kuperator.Pod.{operating, operation_type, operate, key, Pod, set_labels}
use kuperator.Pod.Sample.{sample_names, sample_names-IsNames, sample_pod}
use kuperator.Lifecycle.Operation.{
  UpdateFunc, Client, Adapter, is_during_ops, check_operating_id, begin, finish, allow_ops,
}
use kuperator.Lifecycle.Operation.Begin.{begin-during}
use kuperator.Lifecycle.Operation.Finish.{finish-off}
use kuperator.Lifecycle.Operation.Allow.{allow_ops_iff}

abbrev nothing : UpdateFunc
nothing pod = (pod, false, none)

abbrev adapter : Bool → Adapter
adapter multi = record {
  id = codes "web";
  op_type = codes "update";
  allow_multi_type = multi;
  when_begin = nothing;
  when_finish = nothing;
}

abbrev accepts : Client
accepts pod = (pod, none)

-- The pod has the operation's id, with the type of another operator.
abbrev taken : Pod
taken = set_labels sample_pod (
    (key sample_names operating (codes "web"), codes "1")
    ∷ (key sample_names operation_type (codes "web"), codes "scale-in")
    ∷ [])

abbrev running : Pod
running = set_labels sample_pod (
    (key sample_names operating (codes "web"), codes "1")
    ∷ (key sample_names operation_type (codes "web"), codes "update")
    ∷ (key sample_names operate (codes "web"), codes "5000000000")
    ∷ [])

begin-during_example :
    let r = begin sample_names accepts (codes "9") (adapter true) [] taken in
    (r.2 ≡ none) × (is_during_ops sample_names (adapter true) r.0 ≡ true)
begin-during_example =
    begin-during sample_names sample_names-IsNames (adapter true) accepts (codes "9") [] taken refl
      (λ p. (refl, λ d. d)) tt (λ p. (refl, λ d. d))

finish-off_example :
    let r = finish sample_names accepts (adapter true) [] running in
    (r.2 ≡ none)
    × (check_operating_id sample_names (adapter true) r.0.labels ≡ false)
    × (is_during_ops sample_names (adapter true) r.0 ≡ false)
finish-off_example =
    finish-off sample_names (adapter true) accepts [] running (λ p. (refl, λ d. d)) tt
      (λ p. (refl, λ d. d))

-- With nine seconds left of a ten second delay the operation is allowed all the same.
allow_ops_iff_example :
    ((allow_ops sample_names 6_000_000_000 (adapter true) 10 running).1 ≡ true) ↔ (
      (is_during_ops sample_names (adapter true) running ≡ true)
      × (has (key sample_names operate (codes "web")) running.labels ≡ true))
allow_ops_iff_example = allow_ops_iff sample_names (adapter true) 6_000_000_000 10 running
