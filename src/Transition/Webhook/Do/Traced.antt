-- ===== src/Transition/Webhook/Do/Traced.antt =====
-- pkg/controllers/podtransitionrule/processor/rules/webhook.go: what the loop over the tasks decides.
use kuperator.Common.{
  ◌≡◌, refl, subst, ◌∙◌, Bool, true, false, not, ◌&&◌, ◌||◌, List, [], ◌∷◌, arith, Bool-cases, inl,
  inr, Text, text_eq, text_eq_iff, lookup-delete, has,
}
use kuperator.Pod.{contains}
use kuperator.Pod.Sets.{contains-set_insert, has-insert}
use kuperator.Transition.Detail.{polling_stopped, polling_running}
use kuperator.Transition.Polling.{PollResult, Runner, delete_task}
use kuperator.Transition.Webhook.{TaskInfo, remove, remove_all, intersection}
use kuperator.Transition.Webhook.Tasks.{Trace, decide_pod, decide_current}

contains-remove :
    (j k : Text) (s : List Text) → contains k (remove j s) ≡ (contains k s && not (text_eq j k))
unfolding contains remove
contains-remove j k [] = refl
contains-remove j k (i ∷ s) =
    ground (arith, contains-remove j k s, text_eq_iff i j, text_eq_iff i k, text_eq_iff j k)

pub contains-remove_all :
    (ks s : List Text) (k : Text)
    → contains k (remove_all ks s) ≡ (contains k s && not (contains k ks))
unfolding contains remove_all
contains-remove_all [] s k = ground arith
contains-remove_all (j ∷ ks) s k =
    ground (arith, contains-remove_all ks (remove j s) k, contains-remove j k s)

pub contains-intersection :
    (s ks : List Text) (k : Text) → contains k (intersection s ks) ≡ (contains k s && contains k ks)
unfolding contains intersection
contains-intersection s [] k = ground arith
contains-intersection s (j ∷ ks) k = elim (Bool-cases (text_eq j k)) [
  | inl on ↦
      let same : contains j s ≡ contains k s =
        subst (λ x. contains j s ≡ contains x s) ((text_eq_iff j k).0 on) refl in
      ground (arith, on, same, contains-intersection s ks k)
  | inr off ↦ ground (arith, off, contains-intersection s ks k)
]

-- A pod is checked or rejected.
abbrev pub is_decided : Text → Trace → Bool
is_decided k tr = contains k tr.checked || has k tr.rejected_pods

pub decide_pod-is_decided :
    (p : PollResult) (j : Text) (tr : Trace) (k : Text)
    → (is_decided k (decide_pod p j tr) ≡ (is_decided k tr || text_eq j k))
      × (contains k (decide_pod p j tr).tracing ≡ true → contains k tr.tracing ≡ true)
      × ((decide_pod p j tr).runner ≡ tr.runner)
unfolding decide_pod
decide_pod-is_decided p j tr k = (
  ground (
    arith,
    contains-set_insert k j tr.checked,
    has-insert k j polling_stopped tr.rejected_pods,
    has-insert k j polling_running tr.rejected_pods,
  ),
  ground (arith, contains-remove j k tr.tracing),
  ground arith,
)

pub decide_current-is_decided :
    (p : PollResult) (ks : List Text) (tr : Trace) (k : Text)
    → (is_decided k (decide_current p ks tr) ≡ (is_decided k tr || contains k ks))
      × (contains k (decide_current p ks tr).tracing ≡ true → contains k tr.tracing ≡ true)
      × ((decide_current p ks tr).runner ≡ tr.runner)
unfolding decide_current contains
decide_current-is_decided p [] tr k = (ground arith, λ h. h, refl)
decide_current-is_decided p (j ∷ ks) tr k =
    let one = decide_pod-is_decided p j tr k in
    let rest = decide_current-is_decided p ks (decide_pod p j tr) k in
    (ground (arith, one.0, rest.0), λ h. one.1 (rest.1 h), rest.2 ∙ one.2)

-- What the loop keeps: the approved subjects are decided, the pods that a task traces are decided,
-- and those that are decided are subjects.
abbrev pub Keeps : List Text → List Text → Trace → Type 0
Keeps approved subjects tr =
    (k : Text)
    → (contains k approved ≡ true → is_decided k tr ≡ true)
      × (contains k tr.tracing ≡ true → is_decided k tr ≡ true)
      × (is_decided k tr ≡ true → contains k subjects ≡ true)

-- The tasks of other ids stay.
abbrev pub StaysBut : Text → Runner → Runner → Type 0
StaysBut id r s = (j : Text) → text_eq id j ≡ false → has j r.tasks ≡ true → has j s.tasks ≡ true

pub delete_task-StaysBut : (id : Text) (r : Runner) → StaysBut id r (delete_task id r)
unfolding delete_task
delete_task-StaysBut id r j off h = ground (arith, off, h, lookup-delete id j r.tasks)

-- A task of the state is polled, under an id of its own.
abbrev pub not_among : Text → List TaskInfo → Bool
not_among id [] = true
not_among id (t ∷ ts) = not (text_eq id t.task_id) && not_among id ts

abbrev pub ArePolled : Runner → List TaskInfo → Type 0
ArePolled r [] = Unit {0}
ArePolled r (t ∷ ts) =
    (has t.task_id r.tasks ≡ true) × (not_among t.task_id ts ≡ true) × ArePolled r ts

pub ArePolled-stays :
    (id : Text) (r s : Runner) (ts : List TaskInfo)
    → StaysBut id r s
    → not_among id ts ≡ true
    → ArePolled r ts
    → ArePolled s ts
ArePolled-stays id r s [] stays apart polled = tt
ArePolled-stays id r s (t ∷ ts) stays apart polled = (
  stays t.task_id (ground (arith, apart)) polled.0,
  polled.1,
  ArePolled-stays id r s ts stays (ground (arith, apart)) polled.2,
)
