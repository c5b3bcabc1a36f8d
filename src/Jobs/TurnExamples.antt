-- ===== src/Jobs/TurnExamples.antt =====
-- A restart of a pod: its target waits for the operation, then has it done.
use kuperator.Common.{
  http_error, List, ◌≡◌, refl, true, false, not, ◌&&◌, ◌||◌, none, some, [], ◌∷◌, codes, lookup,
  text_eq, join_slash,
}
use kuperator.Pod.{Pod, set_labels}
use kuperator.Pod.Sample.{sample_names, sample_pod}
use kuperator.Lifecycle.Operation.{UpdateFunc, Client, Adapter, is_during_ops}
use kuperator.Jobs.{
  Progress, pending, processing, OpsCandidate, is_candidate_ops_finished, is_candidate_ops_pending,
  is_candidate_service_available,
}
use kuperator.Jobs.Operate.{
  action_succeeded, Site, operate_candidate, clean_candidate_ops_lifecycle, status_of_candidate,
}
use kuperator.Jobs.Release.{Errors, assigned, release_targets}
use kuperator.Jobs.Released.{AllReleased, release_targets-AllReleased}
use kuperator.Jobs.Careful.{has_succeeded, is_allowed}
use kuperator.Jobs.Turn.{is_complete, turn-Safe}

abbrev nothing : UpdateFunc
nothing pod = (pod, false, none)

abbrev accepts : Client
accepts pod = (pod, none)

abbrev restart : Adapter
restart = record {
  id = codes "restart-web";
  op_type = codes "restart";
  allow_multi_type = true;
  when_begin = nothing;
  when_finish = nothing;
}

abbrev site : Site
site = record {
  names = sample_names;
  client = accepts;
  now = 9;
  now_text = codes "9";
  expect_update = λ pod. none;
  adapter = restart;
  enable_lifecycle = true;
  delay_seconds = 0;
  get_ops_progress = λ c. (action_succeeded, none);
}

abbrev restarted : Pod
restarted = set_labels sample_pod ((sample_names.service_available, codes "1") ∷ [])

abbrev target : Progress → Pod → OpsCandidate
target p pod = record {
  idx = 0;
  pod = some pod;
  pod_name = codes "web-0";
  ops_status = some (record {
    name = codes "web-0";
    progress = p;
    start_time = none;
    end_time = none;
    extra_info = [];
  });
}

turn-Safe_example :
    let c = target pending sample_pod in
    let asked = target processing restarted in
    let operated = operate_candidate site c in
    let answer = status_of_candidate site asked in
    ((is_candidate_ops_finished c && operated.1) ≡ false)
    × ((operated.1 && (site.enable_lifecycle && not (is_allowed site c))) ≡ false)
    × ((has_succeeded operated.0 && not (has_succeeded c)) ≡ false)
    × ((has_succeeded answer.0 && not (has_succeeded asked || is_complete site asked answer.0))
        ≡ false)
turn-Safe_example = turn-Safe site (target pending sample_pod) (target processing restarted)

-- The pod serves again, so the target has succeeded.
succeeds : has_succeeded (status_of_candidate site (target processing restarted)).0 ≡ true
unfolding status_of_candidate is_candidate_ops_finished is_candidate_ops_pending
    clean_candidate_ops_lifecycle is_during_ops lookup text_eq join_slash
    is_candidate_service_available
succeeds = refl

-- The handler has an error for one of two targets, and both calls read what the last has assigned.
abbrev two : List OpsCandidate
two = target processing restarted ∷ target pending sample_pod ∷ []

abbrev errors : Errors
errors = (codes "web-0", http_error ∷ []) ∷ []

release_targets-AllReleased_example :
    AllReleased site
      (λ i. assigned site two 1)
      0
      errors
      two
      (release_targets site (λ i. 1) errors two).0
release_targets-AllReleased_example = release_targets-AllReleased site (λ i. 1) errors two
