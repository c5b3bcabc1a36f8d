-- ===== src/Transition/Webhook.antt =====
-- pkg/controllers/podtransitionrule/processor/rules/webhook.go: the ruler that asks a webhook, and the
-- tasks it traces. (Messages and logging are left out.)
pub mod Tasks
pub mod Request
pub mod Do
pub mod Examples
use kuperator.Common.{
  ℕ, ◌+◌, ◌-◌, ◌*◌, Bool, true, false, not, ◌&&◌, ◌||◌, Option, none, some, List, [], ◌∷◌, ◌++◌,
  if◌then◌else◌, ltb, Text, codes, text_eq, Dict, lookup, Error, Result, ok, err,
}
use kuperator.Pod.{Pod, contains, set_insert}
use kuperator.Transition.Detail.{Detail}
use kuperator.Transition.Rules.{
  Poll, Parameter, WebhookConfig, TransitionRule, insert_all, is_pod_pass_rule,
}

-- TaskInfo of kusionstack.io/kube-api. Every task that the code makes has a BeginTime.
pub record TaskInfo : Type 0 where
  pub task_id : Text
  pub begin_time : ℕ
  pub last_time : Option ℕ
  pub processing : List Text
  pub approved : List Text

pub record Webhook : Type 0 where
  pub key : Text
  pub rule_name : Text
  pub poll : Option Poll
  pub parameters : List Parameter
  pub task_states : List TaskInfo
  pub history : List TaskInfo
  pub is_approved : Text → Bool

-- The tasks and the history of a rule in the status.
abbrev pub State : Type 0
State = List TaskInfo × List TaskInfo

abbrev or_no_state : Option State → State
or_no_state none = ([], [])
or_no_state (some s) = s

unfoldable pub new_webhook :
    Text → TransitionRule → WebhookConfig → Option State → List Detail → Webhook
new_webhook pt rule config o details = record {
  key = pt ++ (b'/' ∷ rule.name);
  rule_name = rule.name;
  poll = config.poll;
  parameters = config.parameters;
  task_states = (or_no_state o).0;
  history = (or_no_state o).1;
  is_approved = λ pod. is_pod_pass_rule pod details rule.name;
}

abbrev pub and_webhooks :
    Text
    → TransitionRule
    → Dict State
    → List Detail
    → Option WebhookConfig
    → List Webhook
    → List Webhook
and_webhooks pt rule states details none rest = rest
and_webhooks pt rule states details (some config) rest =
    new_webhook pt rule config (lookup rule.name states) details ∷ rest

-- GetWebhook for one name, with the key of the PodTransitionRule, its status and its rules.
unfoldable pub get_webhook :
    Text → Dict State → List Detail → List TransitionRule → Text → List Webhook
get_webhook pt states details [] name = []
get_webhook pt states details (rule ∷ rules) name =
    let rest = get_webhook pt states details rules name in
    if text_eq rule.name name then and_webhooks pt rule states details rule.webhook rest else rest

-- What a webhook answers to the first request (WebhookResponse of kusionstack.io/kube-api).
pub record Response : Type 0 where
  pub success : Bool
  pub async : Bool
  pub poll_wanted : Bool
  pub response_task_id : Text
  pub trace_id : Text
  pub finished_names : List Text

-- Sets: Delete, and the items of a list that are in a set.
unfoldable pub remove : Text → List Text → List Text
remove k [] = []
remove k (j ∷ js) = let rest = remove k js in if text_eq j k then rest else j ∷ rest

unfoldable pub remove_all : List Text → List Text → List Text
remove_all [] s = s
remove_all (k ∷ ks) s = remove_all ks (remove k s)

unfoldable pub intersection : List Text → List Text → List Text
intersection s [] = []
intersection s (k ∷ ks) = let rest = intersection s ks in if contains k s then k ∷ rest else rest

unfoldable pub has_any : List Text → List Text → Bool
has_any s [] = false
has_any s (k ∷ ks) = contains k s || has_any s ks

unfoldable pub should_poll : Response → Bool
should_poll r = r.async || r.poll_wanted

abbrev or_else : Text → Text → Text
or_else [] t = t
or_else (c ∷ s) t = c ∷ s

unfoldable pub get_task_id : Response → Text
get_task_id r = if r.async || r.poll_wanted then or_else r.response_task_id r.trace_id else []

abbrev query_url : Poll → Text → Text → Text
query_url p [] task = p.poll_url ++ (codes "?task-id=" ++ task)
query_url p (c ∷ key) task = p.poll_url ++ (codes "?" ++ ((c ∷ key) ++ (codes "=" ++ task)))

-- getPollingUrl, with its error as none.
unfoldable pub get_polling_url : Option Poll → Text → Option Text
get_polling_url none task = none
get_polling_url (some p) task = some (query_url p p.raw_query_key task)

-- As the code has it, the approved pods also become the processing ones.
unfoldable pub approve : TaskInfo → List Text → TaskInfo
approve info approved = record info {
  approved = insert_all (intersection info.processing approved) (insert_all info.approved []);
  processing = insert_all (intersection info.processing approved) (insert_all info.approved []);
}

-- The approved pods that the task processes join its approved ones.
unfoldable pub insert_processed : List Text → List Text → List Text → List Text
insert_processed processing [] s = s
insert_processed processing (k ∷ ks) s =
    insert_processed processing ks (if contains k processing then set_insert k s else s)

-- The task information that recordTaskInfo keeps.
unfoldable pub record_task_info : TaskInfo → ℕ → List Text → TaskInfo
record_task_info old update_time approved = record old {
  last_time = if ltb old.begin_time update_time then some update_time else none;
  approved = insert_processed old.processing approved (insert_all old.approved []);
  processing = remove_all approved (insert_all old.processing []);
}

-- updateInterval: an interval that is not negative replaces a longer one, or none.
unfoldable pub update_interval : ℕ → Option ℕ → Option ℕ
update_interval t none = some t
update_interval t (some u) = if ltb t u then some t else some u
