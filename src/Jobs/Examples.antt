-- ===== src/Jobs/Examples.antt =====
-- A job with a failed target, a succeeded one and no other.
use kuperator.Common.{◌≡◌, refl, none, some, List, [], ◌∷◌, codes, Text, arith, returns, pos}
use kuperator.Jobs.{Progress, pending, processing, failed, succeeded, OpsStatus, OpsCandidate}
use kuperator.Jobs.Partition.{
  IsChoice, decide_candidate_by_partition, decide_candidate_by_partition_lem,
}
use kuperator.Jobs.Status.{JobStatus, calculate_status}
use kuperator.Jobs.Verdict.{IsCalculated, calculate_status_lem}

abbrev target : Text → Progress → OpsStatus
target name progress = record {
  name = name;
  progress = progress;
  start_time = some 2;
  end_time = some 5;
  extra_info = [];
}

abbrev candidate : Text → Progress → OpsCandidate
candidate name progress = record {
  idx = 0;
  pod = none;
  pod_name = name;
  ops_status = some (target name progress);
}

abbrev candidates : List OpsCandidate
candidates = candidate (codes "web-0") failed ∷ candidate (codes "web-1") succeeded ∷ []

abbrev running : JobStatus
running = record {
  progress = processing;
  start_time = some 1;
  end_time = none;
  observed_generation = 1;
  target_details = [];
  total_pod_count = 0;
  failed_pod_count = 0;
  succeeded_pod_count = 0;
}

calculate_status_lem_example :
    (cs' : List OpsCandidate) × (new : JobStatus) × (calculate_status 9 2 running candidates
      ≡ returns (cs', new))
    × IsCalculated 9 candidates cs' new
calculate_status_lem_example =
    calculate_status_lem 9 2 running candidates refl (omega arith)
      ((target (codes "web-0") failed, refl), ((target (codes "web-1") succeeded, refl), tt))

abbrev three : List OpsCandidate
three = candidate (codes "web-2") pending ∷ candidates

-- Of a failed target, a succeeded one and one that waits, the job works on two.
decide_candidate_by_partition_lem_example :
    (selected : List OpsCandidate) × (rest : List OpsCandidate) × (decide_candidate_by_partition
        (some (pos 2))
        three
      ≡ returns selected)
    × IsChoice 2 three selected rest
decide_candidate_by_partition_lem_example = decide_candidate_by_partition_lem 2 three
