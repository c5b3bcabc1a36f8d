-- ===== src/Jobs/Status.antt =====
-- calculateStatus of pkg/controllers/operationjob/operationjob_controller.go: the status of a job
-- from those of its targets. A target without a status is a panic, for its pointer is followed.
use kuperator.Common.{
  ℕ, ◌+◌, ◌%◌, ◌^◌, ◌==◌, Bool, true, false, not, ◌&&◌, Option, none, some, List, [], ◌∷◌, ltb,
  if◌then◌else◌, is_some, Outcome, returns, panics,
}
use kuperator.Jobs.{
  Progress, pending, processing, failed, succeeded, OpsStatus, OpsCandidate, is_failed,
  is_succeeded, is_pending, is_done, set_ops_status,
}

-- The counts are int32.
pub record JobStatus : Type 0 where
  pub progress : Progress
  pub start_time : Option ℕ
  pub end_time : Option ℕ
  pub observed_generation : ℕ
  pub target_details : List OpsStatus
  pub total_pod_count : ℕ
  pub failed_pod_count : ℕ
  pub succeeded_pod_count : ℕ

abbrev pub or_now : ℕ → Option ℕ → Option ℕ
or_now now none = some now
or_now now (some t) = some t

abbrev pub ended : ℕ → OpsStatus → OpsStatus
ended now s =
    if not (is_some s.end_time) && is_done s.progress then record s { end_time = some now } else s

abbrev pub ended_candidate : ℕ → OpsCandidate → Option OpsStatus → OpsCandidate
ended_candidate now c none = c
ended_candidate now c (some s) = set_ops_status c (ended now s)

abbrev pub prepend :
    ℕ
    → OpsCandidate
    → Option OpsStatus
    → Outcome (List OpsCandidate × List OpsStatus)
    → Outcome (List OpsCandidate × List OpsStatus)
prepend now c none rest = panics
prepend now c (some s) panics = panics
prepend now c (some s) (returns (cs, details)) =
    returns (ended_candidate now c (some s) ∷ cs, ended now s ∷ details)

-- The candidates, whose end is noted when they are finished, and their statuses.
unfoldable pub target_details_of :
    ℕ → List OpsCandidate → Outcome (List OpsCandidate × List OpsStatus)
target_details_of now [] = returns ([], [])
target_details_of now (c ∷ cs) = prepend now c c.ops_status (target_details_of now cs)

abbrev pub plus_one : ℕ → ℕ
plus_one n = (n + 1) % 2 ^ 32

pub record Counts : Type 0 where
  pub total : ℕ
  pub failures : ℕ
  pub successes : ℕ
  pub waiting : ℕ

abbrev plus_if : Bool → ℕ → ℕ
plus_if true n = plus_one n
plus_if false n = n

abbrev pub count_one : OpsStatus → Counts → Counts
count_one s k = record {
  total = plus_one k.total;
  failures = plus_if (is_failed s.progress) k.failures;
  successes = plus_if (is_succeeded s.progress) k.successes;
  waiting = plus_if (is_pending s.progress) k.waiting;
}

unfoldable pub count_details : List OpsStatus → Counts → Counts
count_details [] k = k
count_details (s ∷ ss) k = count_details ss (count_one s k)

abbrev pub no_counts : Counts
no_counts = record { total = 0; failures = 0; successes = 0; waiting = 0 }

-- Whether the failures are positive, as an int32.
abbrev pub is_positive : ℕ → Bool
is_positive n = ltb 0 n && ltb n (2 ^ 31)

-- The progress of a job that is not finished.
unfoldable pub progress_from : Counts → Progress
progress_from k =
    if (k.successes + k.failures) % 2 ^ 32 == k.total
    then (if is_positive k.failures then failed else succeeded)
    else if k.waiting == k.total
    then pending
    else processing

unfoldable pub job_status_from : ℕ → ℕ → JobStatus → List OpsStatus → Counts → JobStatus
unfolding progress_from
job_status_from now generation old details k =
    let counted : JobStatus = record {
      progress = old.progress;
      start_time = old.start_time;
      end_time = old.end_time;
      observed_generation = generation;
      target_details = details;
      total_pod_count = k.total;
      failed_pod_count = k.failures;
      succeeded_pod_count = k.successes;
    } in
    if is_done old.progress then counted else record counted {
      progress = progress_from k;
      start_time = or_now now old.start_time;
      end_time = if is_done (progress_from k) then or_now now old.end_time else old.end_time;
    }

abbrev pub status_after :
    ℕ
    → ℕ
    → JobStatus
    → Outcome (List OpsCandidate × List OpsStatus)
    → Outcome (List OpsCandidate × JobStatus)
status_after now generation old panics = panics
status_after now generation old (returns (cs, details)) =
    returns (cs, job_status_from now generation old details (count_details details no_counts))

unfoldable pub calculate_status :
    ℕ → ℕ → JobStatus → List OpsCandidate → Outcome (List OpsCandidate × JobStatus)
calculate_status now generation old cs = status_after now generation old (target_details_of now cs)
