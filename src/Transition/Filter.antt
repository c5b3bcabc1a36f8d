-- ===== src/Transition/Filter.antt =====
-- pkg/controllers/podtransitionrule/processor/rules/types.go: Filter of a Ruler, whichever it is. (The
-- tasks that one webhook starts or ends are those of its own rule, and a ruler is not asked twice.)
use kuperator.Common.{
  ℕ, ◌≡◌, Bool, true, false, List, [], ◌∷◌, arith, Text, Dict, Outcome, returns, panics,
}
use kuperator.Pod.{Pod}
use kuperator.Transition.Detail.{Detail}
use kuperator.Transition.Rules.{
  TransitionRule, Ruler, available_ruler, label_check_ruler, webhook_ruler, FilterResult,
  label_check_filter,
}
use kuperator.Transition.Rules.Interface.{IsRuler, label_check_filter-IsRuler}
use kuperator.Transition.Rules.Available.Decisive.{available_filter-IsRuler}
use kuperator.Transition.Rules.Available.{Cluster, available_filter}
use kuperator.Transition.Polling.{Runner}
use kuperator.Transition.Webhook.{State, Webhook, get_webhook}
use kuperator.Transition.Webhook.Request.{Outside}
use kuperator.Transition.Webhook.Do.{Done, do_webhook}

-- What the rulers read: the PodTransitionRule (its key, rules and status), the cluster, the clock, the
-- webhooks and the tasks that are polled.
pub record Surroundings : Type 0 where
  pub pt_key : Text
  pub rules : List TransitionRule
  pub details : List Detail
  pub states : Dict State
  pub cluster : Cluster
  pub now : ℕ
  pub outside : Outside
  pub runner : Runner

abbrev pub result_of_done : Outcome Done → Outcome FilterResult
result_of_done panics = panics
result_of_done (returns d) = returns d.result

abbrev pub first_webhook : Surroundings → Dict Pod → List Text → List Webhook → Outcome FilterResult
first_webhook E targets subjects [] = panics
first_webhook E targets subjects (w ∷ ws) =
    result_of_done (do_webhook E.now E.outside w targets subjects E.runner)

unfoldable pub filter : Surroundings → Ruler → Dict Pod → List Text → Outcome FilterResult
filter E (available_ruler name policy) targets subjects =
    available_filter E.cluster name E.details targets policy subjects
filter E (label_check_ruler name selector) targets subjects =
    label_check_filter selector targets subjects
filter E (webhook_ruler name) targets subjects =
    first_webhook E targets subjects (get_webhook E.pt_key E.states E.details E.rules name)

abbrev pub asks_webhook : Ruler → Bool
asks_webhook (webhook_ruler name) = true
asks_webhook ruler = false

-- The rulers that ask no webhook decide their subjects.
pub filter-IsRuler :
    (E : Surroundings) (ruler : Ruler) → asks_webhook ruler ≡ false → IsRuler (filter E ruler)
unfolding filter
filter-IsRuler E (available_ruler name policy) none_asked =
    available_filter-IsRuler E.cluster name E.details policy
filter-IsRuler E (label_check_ruler name selector) none_asked = label_check_filter-IsRuler selector
filter-IsRuler E (webhook_ruler name) asked = absurd (ground (arith, asked))
