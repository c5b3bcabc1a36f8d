-- ===== src/Jobs.antt =====
-- Operation jobs: the targets of a job and how far each of them is, from
-- pkg/controllers/operationjob/opscore/candidate.go. The progress of a target and of a job is one of
-- the constants of kusionstack.io/kube-api, or not set.
pub mod Status
pub mod Operate
pub mod Partition
pub mod Release
pub mod Released
pub mod Careful
pub mod Turn
pub mod TurnExamples
pub mod Ended
pub mod Verdict
pub mod Examples
use kuperator.Common.{
  Outcome, returns, panics, ℕ, Bool, true, false, not, ◌&&◌, ◌||◌, Option, none, some, List, [],
  ◌∷◌, if◌then◌else◌, Text, codes, text_eq, Dict, lookup, insert, has,
}
use kuperator.Pod.{Names, Pod}

pub data Progress : Type 0 where
  not_set pending processing failed succeeded : Progress

-- `extra_info` is empty where the code has no map.
pub record OpsStatus : Type 0 where
  pub name : Text
  pub progress : Progress
  pub start_time : Option ℕ
  pub end_time : Option ℕ
  pub extra_info : Dict Text

pub record OpsCandidate : Type 0 where
  pub idx : ℕ
  pub pod : Option Pod
  pub pod_name : Text
  pub ops_status : Option OpsStatus

abbrev pub is_failed : Progress → Bool
is_failed failed = true
is_failed _ = false

abbrev pub is_succeeded : Progress → Bool
is_succeeded succeeded = true
is_succeeded _ = false

abbrev pub is_pending : Progress → Bool
is_pending pending = true
is_pending _ = false

abbrev pub is_done : Progress → Bool
is_done failed = true
is_done succeeded = true
is_done _ = false

abbrev progress_of : Option OpsStatus → Progress
progress_of none = not_set
progress_of (some s) = s.progress

abbrev pending_or_not_set : Progress → Bool
pending_or_not_set not_set = true
pending_or_not_set pending = true
pending_or_not_set _ = false

unfoldable pub is_candidate_ops_pending : OpsCandidate → Bool
is_candidate_ops_pending c = pending_or_not_set (progress_of c.ops_status)

unfoldable pub is_candidate_ops_finished : OpsCandidate → Bool
is_candidate_ops_finished c = is_done (progress_of c.ops_status)

unfoldable pub is_candidate_ops_failed : OpsCandidate → Bool
is_candidate_ops_failed c = is_failed (progress_of c.ops_status)

abbrev says_true : Option Text → Bool
says_true none = false
says_true (some v) = text_eq v (codes "true")

abbrev released_in : Option OpsStatus → Bool
released_in none = false
released_in (some s) = says_true (lookup (codes "Released") s.extra_info)

unfoldable pub is_candidate_ops_released : OpsCandidate → Bool
is_candidate_ops_released c = released_in c.ops_status

abbrev available_in : Names → Option Pod → Bool
available_in N none = false
available_in N (some p) = has N.service_available p.labels

unfoldable pub is_candidate_service_available : Names → OpsCandidate → Bool
is_candidate_service_available N c = available_in N c.pod

abbrev pub set_ops_status : OpsCandidate → OpsStatus → OpsCandidate
set_ops_status c s = record c { ops_status = some s }

abbrev no_status : OpsStatus
no_status = record {
  name = [];
  progress = not_set;
  start_time = none;
  end_time = none;
  extra_info = [];
}

abbrev or_no_status : Option OpsStatus → OpsStatus
or_no_status none = no_status
or_no_status (some s) = s

unfoldable pub mark_candidate_released : OpsCandidate → OpsCandidate
mark_candidate_released c =
    let s = or_no_status c.ops_status in
    set_ops_status c
      (record s { extra_info = insert (codes "Released") (codes "true") s.extra_info })

abbrev pub failed_unless_succeeded : OpsCandidate → Option OpsStatus → Outcome OpsCandidate
failed_unless_succeeded c none = panics
failed_unless_succeeded c (some s) =
    if is_succeeded s.progress
    then returns c
    else returns (set_ops_status c (record s { progress = failed }))

-- Follows the pointer to the status.
unfoldable pub mark_candidate_failed : OpsCandidate → Outcome OpsCandidate
mark_candidate_failed c = failed_unless_succeeded c c.ops_status
