-- ===== src/Transition/Rules/Order.antt =====
-- pkg/controllers/podtransitionrule/utils/sort.go: the order in which the rules of a stage are used.
use kuperator.Common.{sort_by, ℕ, Bool, Option, none, some, List, if◌then◌else◌, ltb, is_some}
use kuperator.Transition.Rules.{AvailablePolicy, Selector, TransitionRule}

abbrev weight_of : Option AvailablePolicy → Option Selector → Bool → ℕ
weight_of (some policy) check webhook = 1
weight_of none (some selector) webhook = 3
weight_of none none webhook = if webhook then 5 else 100

unfoldable pub weight : TransitionRule → ℕ
weight rule = weight_of rule.available_policy rule.label_check (is_some rule.webhook)

unfoldable pub less : TransitionRule → TransitionRule → Bool
less a b = ltb (weight a) (weight b)

-- sort.Sort by Less.
unfoldable pub sort_rules : List TransitionRule → List TransitionRule
sort_rules = sort_by less
