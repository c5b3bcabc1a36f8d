-- ===== src/Transition/Webhook/Examples.antt =====
-- A webhook with one task, which processes one of two subjects.
use kuperator.Common.{
  ◌≡◌, refl, true, false, none, List, [], ◌∷◌, Text, codes, text_eq, Dict, lookup, insert, ok,
  returns, arith,
}
use kuperator.Pod.{Pod, contains}
use kuperator.Pod.Sample.{sample_pod}
use kuperator.Transition.Rules.Interface.{IsKeyed, AreTargets, Decides}
use kuperator.Transition.Polling.{Runner, no_tasks, add, add_after}
use kuperator.Transition.Webhook.{Webhook, TaskInfo, Response}
use kuperator.Transition.Webhook.Request.{
  Outside, Resource, responds, query, build_request, parse_parameters,
}
use kuperator.Transition.Webhook.Do.{Done, do_webhook}
use kuperator.Transition.Webhook.Do.Traced.{ArePolled}
use kuperator.Transition.Webhook.Do.Decisive.{AreAnswered, do_webhook-Decides}

abbrev targets : Dict Pod
targets =
    (codes "a", record sample_pod { name = codes "a" })
    ∷ (codes "b", record sample_pod { name = codes "b" })
    ∷ []

abbrev subjects : List Text
subjects = codes "a" ∷ codes "b" ∷ []

abbrev task : TaskInfo
task = record {
  task_id = codes "t";
  begin_time = 3;
  last_time = none;
  processing = codes "a" ∷ [];
  approved = [];
}

abbrev webhook : Webhook
webhook = record {
  key = codes "default/pt/hook";
  rule_name = codes "hook";
  poll = none;
  parameters = [];
  task_states = task ∷ [];
  history = [];
  is_approved = λ pod. false;
}

abbrev response : Response
response = record {
  success = true;
  async = false;
  poll_wanted = false;
  response_task_id = [];
  trace_id = [];
  finished_names = [];
}

abbrev outside : Outside
outside = record {
  extract = λ pod key path. ok (codes "value");
  send = λ resources. responds response;
}

abbrev runner : Runner
runner = add 3 (codes "t") (codes "http://hook") (codes "default/pt/hook") 100 10 no_tasks

keyed : IsKeyed targets
keyed = (refl, (refl, tt))

are_targets : AreTargets targets subjects
unfolding contains lookup
are_targets k m = ground (arith, m)

polled : ArePolled runner (task ∷ [])
unfolding add add_after insert lookup text_eq
polled = (refl, refl, tt)

built :
    (pods : List (Text × Pod))
    → (resources : List Resource) × (build_request outside [] pods ≡ ok resources)
unfolding build_request parse_parameters
built [] = ([], refl)
built ((k, pod) ∷ pods) =
    let (rest, e) = built pods in ((record { resource_name = k; values = [] }) ∷ rest, rw e refl)

requests_answered : AreAnswered outside webhook targets
unfolding query
requests_answered ks pods e = let (resources, f) = built pods in (ok response, rw f refl)

do_webhook-Decides_example :
    (d : Done) × (do_webhook 9 outside webhook targets subjects runner ≡ returns d)
    × Decides subjects d.result
do_webhook-Decides_example =
    do_webhook-Decides 9 outside webhook targets subjects runner keyed are_targets polled
      requests_answered
