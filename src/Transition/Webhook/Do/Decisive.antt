-- ===== src/Transition/Webhook/Do/Decisive.antt =====
-- pkg/controllers/podtransitionrule/processor/rules/webhook.go: what Do decides.
use kuperator.Common.{
  ℕ, ◌≡◌, refl, subst, true, not, ◌||◌, Option, none, some, List, [], ◌∷◌, arith, if-both, Text,
  Dict, lookup, has, Result, ok, err, no_poll_config, Outcome, returns,
}
use kuperator.Pod.{Pod, contains}
use kuperator.Pod.Sets.{contains-set_insert}
use kuperator.Transition.Detail.{
  Reason, request_failed, webhook_rejected, empty_task, polling_started, filter_error,
}
use kuperator.Transition.Rules.{Poll, resolve}
use kuperator.Transition.Rules.Interface.{
  names_of, IsKeyed, AreTargets, Decides, resolve-Resolved, has-reject_each, contains-insert_all,
}
use kuperator.Transition.Polling.{Runner}
use kuperator.Transition.Webhook.{
  Webhook, Response, remove_all, intersection, should_poll, get_task_id, get_polling_url,
}
use kuperator.Transition.Webhook.Tasks.{Trace, approved_subjects}
use kuperator.Transition.Webhook.Request.{Outside, query}
use kuperator.Transition.Webhook.Do.{
  Done, done, pass_more, reject_more, start_task, start_polls, poll_or_reject, after_query,
  query_left, left_of, start_trace, do_webhook,
}
use kuperator.Transition.Webhook.Do.Traced.{
  contains-remove_all, contains-intersection, is_decided, Keeps, ArePolled,
}
use kuperator.Transition.Webhook.Do.Turns.{trace_tasks-Keeps}

-- The pods that a result decides: those decided before, and some more.
abbrev DecidesLeft : List Text → Trace → Done → Type 0
DecidesLeft effective tr d =
    (k : Text)
    → (contains k d.result.passed || has k d.result.rejected)
      ≡ (is_decided k tr || contains k effective)

pass_more-is_decided :
    (ks : List Text) (tr : Trace) (k : Text)
    → is_decided k (pass_more ks tr) ≡ (is_decided k tr || contains k ks)
pass_more-is_decided ks tr k = ground (arith, contains-insert_all ks tr.checked k)

reject_more-is_decided :
    (ks : List Text) (reason : Reason) (tr : Trace) (k : Text)
    → is_decided k (reject_more ks reason tr) ≡ (is_decided k tr || contains k ks)
reject_more-is_decided ks reason tr k = ground (arith, has-reject_each ks reason tr.rejected_pods k)

-- The finished pods pass, and the others are rejected.
both-is_decided :
    (effective finished : List Text) (reason : Reason) (tr : Trace) (k : Text)
    → is_decided k (
        reject_more
          (remove_all finished effective)
          reason
          (pass_more (intersection effective finished) tr))
      ≡ (is_decided k tr || contains k effective)
both-is_decided effective finished reason tr k = ground (
  arith,
  reject_more-is_decided (remove_all finished effective) reason
      (pass_more (intersection effective finished) tr) k,
  pass_more-is_decided (intersection effective finished) tr k,
  contains-remove_all finished effective k,
  contains-intersection effective finished k,
)

start_polls-DecidesLeft :
    (now : ℕ) (w : Webhook) (task : Text) (effective finished : List Text) (tr : Trace)
    (o : Option Poll) (url : Option Text)
    → DecidesLeft effective tr (
        start_polls now w task effective
          (remove_all finished effective)
          (intersection effective finished)
          tr
          o
          url)
start_polls-DecidesLeft now w task effective finished tr (some p) (some url) k =
    both-is_decided effective finished polling_started
      (start_task now w task p url (remove_all finished effective) (intersection effective finished)
        tr)
      k
start_polls-DecidesLeft now w task effective finished tr none none k =
    reject_more-is_decided effective (filter_error no_poll_config) tr k
start_polls-DecidesLeft now w task effective finished tr (some p) none k =
    reject_more-is_decided effective (filter_error no_poll_config) tr k
start_polls-DecidesLeft now w task effective finished tr none (some url) k =
    reject_more-is_decided effective (filter_error no_poll_config) tr k

poll_or_reject-DecidesLeft :
    (now : ℕ) (w : Webhook) (effective finished : List Text) (tr : Trace) (task : Text)
    → DecidesLeft effective tr (
        poll_or_reject now w effective
          (remove_all finished effective)
          (intersection effective finished)
          tr
          task)
poll_or_reject-DecidesLeft now w effective finished tr [] k =
    reject_more-is_decided effective empty_task tr k
poll_or_reject-DecidesLeft now w effective finished tr (c ∷ task) k =
    start_polls-DecidesLeft now w (c ∷ task) effective finished tr w.poll
      (get_polling_url w.poll (c ∷ task)) k

-- A result is returned that decides the pods.
abbrev Returned : List Text → Trace → Outcome Done → Type 0
Returned effective tr o = (d : Done) × (o ≡ returns d) × DecidesLeft effective tr d

after_query-Returned :
    (now : ℕ) (w : Webhook) (effective : List Text) (tr : Trace) (answer : Result Response)
    → Returned effective tr (after_query now w effective tr (returns answer))
after_query-Returned now w effective tr (err e) = (
  done none (some e) (reject_more effective request_failed tr),
  refl,
  reject_more-is_decided effective request_failed tr,
)
after_query-Returned now w effective tr (ok res) =
    let R : Done → Type 0 = λ d. Returned effective tr (returns d) in
    let polls =
      poll_or_reject now w effective (remove_all res.finished_names effective)
        (intersection effective res.finished_names) tr (get_task_id res) in
    if-both R (not res.success)
      (_, refl, both-is_decided effective res.finished_names webhook_rejected tr)
      (if-both R (not (should_poll res)) (_, refl, pass_more-is_decided effective tr)
        (
          polls,
          refl,
          poll_or_reject-DecidesLeft now w effective res.finished_names tr (get_task_id res),
        ))

-- For all pods of the targets, the first request can be built and is answered.
abbrev pub AreAnswered : Outside → Webhook → Dict Pod → Type 0
AreAnswered O w targets =
    (ks : List Text) (pods : List (Text × Pod))
    → resolve targets ks ≡ some pods
    → (answer : Result Response) × (query O w.parameters pods ≡ returns answer)

query_left-Returned :
    (now : ℕ) (O : Outside) (w : Webhook) (targets : Dict Pod) (tr : Trace) (ks : List Text)
    → IsKeyed targets
    → AreTargets targets ks
    → AreAnswered O w targets
    → Returned ks tr (query_left now O w targets tr ks)
unfolding contains
query_left-Returned now O w targets tr [] keyed are answered =
    (done none none tr, refl, λ k. ground arith)
query_left-Returned now O w targets tr (j ∷ ks) keyed are answered =
    let (pods, e, names, pods_keyed) = resolve-Resolved targets (j ∷ ks) keyed are in
    let (answer, f) = answered (j ∷ ks) pods e in
    rw (e, f) (after_query-Returned now w (j ∷ ks) tr answer)

approved_subjects-within :
    (w : Webhook) (pods : List (Text × Pod)) (k : Text)
    → contains k (approved_subjects w pods) ≡ true
    → contains k (names_of pods) ≡ true
unfolding approved_subjects contains
approved_subjects-within w [] k m = m
approved_subjects-within w ((j, pod) ∷ pods) k m = ground (
  arith,
  m,
  approved_subjects-within w pods k,
  contains-set_insert k j (approved_subjects w pods),
)

-- The subjects are the approved ones, those decided in the loop, and those left.
left-Decides :
    (approved subjects : List Text) (tr : Trace) (d : Done)
    → ((k : Text) → contains k approved ≡ true → contains k subjects ≡ true)
    → Keeps approved subjects tr
    → DecidesLeft (left_of (remove_all approved subjects) tr) tr d
    → Decides subjects d.result
left-Decides approved subjects tr d within keeps decided k = ground (
  arith,
  decided k,
  keeps k,
  within k,
  contains-remove_all tr.checked (remove_all tr.tracing (remove_all approved subjects)) k,
  contains-remove_all tr.tracing (remove_all approved subjects) k,
  contains-remove_all approved subjects k,
)

-- If every task of the state is polled under an id of its own and requests can be built and are
-- answered, Do does not panic, and the pods that it lets pass and those that it rejects are together
-- the subjects, whatever the tasks and the webhook have approved.
pub do_webhook-Decides :
    (now : ℕ) (O : Outside) (w : Webhook) (targets : Dict Pod) (subjects : List Text)
    (runner : Runner)
    → IsKeyed targets
    → AreTargets targets subjects
    → ArePolled runner w.task_states
    → AreAnswered O w targets
    → (d : Done) × (do_webhook now O w targets subjects runner ≡ returns d)
      × Decides subjects d.result
unfolding do_webhook contains lookup
do_webhook-Decides now O w targets subjects runner keyed are polled answered =
    let (pods, e, names, pods_keyed) = resolve-Resolved targets subjects keyed are in
    let approved = approved_subjects w pods in
    let effective = remove_all approved subjects in
    let within : (k : Text) → contains k approved ≡ true → contains k subjects ≡ true =
      λ k m. subst (λ ks. contains k ks ≡ true) names (approved_subjects-within w pods k m) in
    let (tr, f, keeps) =
      trace_tasks-Keeps effective approved subjects
        (λ k m. ground (arith, m, contains-remove_all approved subjects k)) w.task_states
        (start_trace now w approved runner) polled
        (λ k. (
          λ m. ground (arith, m),
          λ m. absurd (ground (arith, m)),
          λ m. ground (arith, m, within k),
        )) in
    let left_are : AreTargets targets (left_of effective tr) = λ k m. are k (
      ground (
        arith,
        m,
        contains-remove_all tr.checked (remove_all tr.tracing effective) k,
        contains-remove_all tr.tracing effective k,
        contains-remove_all approved subjects k,
      )) in
    let (d, g, decided) =
      query_left-Returned now O w targets tr (left_of effective tr) keyed left_are answered in
    (d, rw (e, f) g, left-Decides approved subjects tr d within keeps decided)
