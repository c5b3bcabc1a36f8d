-- ===== src/Jobs/Verdict.antt =====
-- calculateStatus against a description of a job's progress by that of its targets.
use kuperator.Common.{
  ℕ, ◌+◌, ◌^◌, ◌≤◌, ◌<◌, ◌==◌, ◌≡◌, refl, sym, ap, ◌∙◌, subst, Bool, true, false, ◌&&◌, ◌||◌, List,
  [], ◌∷◌, arith, if◌then◌else◌, length, ltb, returns,
}
use kuperator.Jobs.{
  Progress, not_set, pending, processing, failed, succeeded, OpsStatus, OpsCandidate, is_failed,
  is_succeeded, is_pending, is_done,
}
use kuperator.Jobs.Status.{
  JobStatus, Counts, count_one, count_details, no_counts, progress_from, job_status_from,
  target_details_of, calculate_status,
}
use kuperator.Jobs.Ended.{
  statuses_of, AllEnded, AllStatus, length-statuses_of, target_details_of-AllEnded,
}

-- How many targets have a progress that passes the test.
abbrev pub number : (Progress → Bool) → List OpsStatus → ℕ
number f [] = 0
number f (s ∷ ss) = if f s.progress then 1 + number f ss else number f ss

abbrev pub every : (Progress → Bool) → List OpsStatus → Bool
every f [] = true
every f (s ∷ ss) = f s.progress && every f ss

abbrev pub any : (Progress → Bool) → List OpsStatus → Bool
any f [] = false
any f (s ∷ ss) = f s.progress || any f ss

-- The progress of a job by that of its targets.
abbrev pub verdict : List OpsStatus → Progress
verdict ss =
    if every is_done ss
    then (if any is_failed ss then failed else succeeded)
    else if every is_pending ss
    then pending
    else processing

number-le-length : (f : Progress → Bool) (ss : List OpsStatus) → number f ss ≤ length ss
number-le-length f [] = omega arith
number-le-length f (s ∷ ss) = ground (arith, number-le-length f ss)

number-every : (f : Progress → Bool) (ss : List OpsStatus) → (number f ss == length ss) ≡ every f ss
number-every f [] = refl
number-every f (s ∷ ss) = ground (arith, number-every f ss, number-le-length f ss)

number-any : (f : Progress → Bool) (ss : List OpsStatus) → ltb 0 (number f ss) ≡ any f ss
number-any f [] = refl
number-any f (s ∷ ss) = ground (arith, number-any f ss)

is_done-or :
    (p : Progress)
    → (is_done p ≡ (is_succeeded p || is_failed p)) × ((is_succeeded p && is_failed p) ≡ false)
is_done-or not_set = (refl, refl)
is_done-or pending = (refl, refl)
is_done-or processing = (refl, refl)
is_done-or failed = (refl, refl)
is_done-or succeeded = (refl, refl)

number-is_done :
    (ss : List OpsStatus) → number is_succeeded ss + number is_failed ss ≡ number is_done ss
number-is_done [] = refl
number-is_done (s ∷ ss) =
    let (e, apart) = is_done-or s.progress in ground (arith, number-is_done ss, e, apart)

-- Within an int32 the counts are the numbers.
count_details_lem :
    (ss : List OpsStatus) (k : Counts)
    → k.total + length ss < 2 ^ 31
    → k.failures ≤ k.total
    → k.successes ≤ k.total
    → k.waiting ≤ k.total
    → let c = count_details ss k in
      (c.total ≡ k.total + length ss)
      × (c.failures ≡ k.failures + number is_failed ss)
      × (c.successes ≡ k.successes + number is_succeeded ss)
      × (c.waiting ≡ k.waiting + number is_pending ss)
unfolding count_details
count_details_lem [] k small f s w = omega arith
count_details_lem (x ∷ ss) k small f s w =
    let next = count_details_lem ss (count_one x k) in ground (arith, small, f, s, w, next)

progress_from-verdict :
    (ss : List OpsStatus)
    → length ss < 2 ^ 31
    → progress_from (count_details ss no_counts) ≡ verdict ss
unfolding progress_from
progress_from-verdict ss small = ground (
  arith,
  count_details_lem ss no_counts (omega (arith, small)) (omega arith) (omega arith) (omega arith),
  number-is_done ss,
  number-every is_done ss,
  number-every is_pending ss,
  number-any is_failed ss,
  number-le-length is_failed ss,
  number-le-length is_done ss,
)

job_status_from-verdict :
    (now generation : ℕ) (old : JobStatus) (details : List OpsStatus)
    → is_done old.progress ≡ false
    → length details < 2 ^ 31
    → let new = job_status_from now generation old details (count_details details no_counts) in
      (new.progress ≡ verdict details)
      × (new.target_details ≡ details)
      × (new.total_pod_count ≡ length details)
      × (new.failed_pod_count ≡ number is_failed details)
      × (new.succeeded_pod_count ≡ number is_succeeded details)
unfolding job_status_from
job_status_from-verdict now generation old details open_job small =
    let (total, failures, successes, waiting) =
      count_details_lem details no_counts (omega (arith, small)) (omega arith) (omega arith)
        (omega arith) in
    rw open_job (
      progress_from-verdict details small,
      refl,
      ground (arith, total),
      ground (arith, failures),
      ground (arith, successes),
    )

-- What is found of the progress of each is the same.
AllEnded-counts :
    (now : ℕ) (f : Progress → Bool) (ss ds : List OpsStatus)
    → AllEnded now ss ds
    → (length ds ≡ length ss)
      × (number f ds ≡ number f ss)
      × (every f ds ≡ every f ss)
      × (any f ds ≡ any f ss)
AllEnded-counts now f [] [] h = (refl, refl, refl, refl)
AllEnded-counts now f [] (d ∷ ds) h = cc
AllEnded-counts now f (s ∷ ss) [] h = cc
AllEnded-counts now f (s ∷ ss) (d ∷ ds) h =
    let rest = AllEnded-counts now f ss ds h.1 in
    let same : f d.progress ≡ f s.progress = ap f h.0.1 in
    (
      ground (arith, rest.0),
      ground (arith, same, rest.1),
      ground (arith, same, rest.2),
      ground (arith, same, rest.3),
    )

AllEnded-verdict : (now : ℕ) (ss ds : List OpsStatus) → AllEnded now ss ds → verdict ds ≡ verdict ss
AllEnded-verdict now ss ds h =
    let finished = AllEnded-counts now is_done ss ds h in
    let faulty = AllEnded-counts now is_failed ss ds h in
    let waits = AllEnded-counts now is_pending ss ds h in
    ground (arith, finished.2, faulty.3, waits.2)

calculate_status_read :
    (now generation : ℕ) (old : JobStatus) (cs cs' : List OpsCandidate) (details : List OpsStatus)
    → target_details_of now cs ≡ returns (cs', details)
    → calculate_status now generation old cs
      ≡ returns (cs', job_status_from now generation old details (count_details details no_counts))
unfolding calculate_status
calculate_status_read now generation old cs cs' details read = rw read refl

-- What calculateStatus gives for the targets: their statuses, with the end of a finished one noted,
-- and the progress of the job and its counts by the given statuses.
abbrev pub IsCalculated : ℕ → List OpsCandidate → List OpsCandidate → JobStatus → Type 0
IsCalculated now cs cs' new =
    AllEnded now (statuses_of cs) new.target_details
    × (statuses_of cs' ≡ new.target_details)
    × (new.progress ≡ verdict (statuses_of cs))
    × (new.total_pod_count ≡ length cs)
    × (new.failed_pod_count ≡ number is_failed (statuses_of cs))
    × (new.succeeded_pod_count ≡ number is_succeeded (statuses_of cs))

job_status_from-IsCalculated :
    (now generation : ℕ) (old : JobStatus) (cs cs' : List OpsCandidate) (details : List OpsStatus)
    → is_done old.progress ≡ false
    → length cs < 2 ^ 31
    → AllStatus cs
    → statuses_of cs' ≡ details
    → AllEnded now (statuses_of cs) details
    → IsCalculated now cs cs'
        (job_status_from now generation old details (count_details details no_counts))
job_status_from-IsCalculated now generation old cs cs' details open_job small all noted ends =
    let new = job_status_from now generation old details (count_details details no_counts) in
    let faulty = AllEnded-counts now is_failed (statuses_of cs) details ends in
    let good = AllEnded-counts now is_succeeded (statuses_of cs) details ends in
    let size : length details ≡ length cs = faulty.0 ∙ length-statuses_of cs all in
    let (progress, kept, total, failures, successes) =
      job_status_from-verdict now generation old details open_job (omega (arith, small, size)) in
    (
      subst (AllEnded now (statuses_of cs)) (sym kept) ends,
      noted ∙ sym kept,
      progress ∙ AllEnded-verdict now (statuses_of cs) details ends,
      total ∙ size,
      failures ∙ faulty.1,
      successes ∙ good.1,
    )

-- calculateStatus gives a job that is not finished, with fewer than 2^31 targets each of which has a
-- status, a new status: failed or succeeded when all targets are finished, by whether one failed,
-- pending when all are pending, and processing otherwise. The counts are those of the given targets,
-- whose statuses are kept in their order, but that a finished one without an end ends now. (A job
-- without targets has succeeded.)
pub calculate_status_lem :
    (now generation : ℕ) (old : JobStatus) (cs : List OpsCandidate)
    → is_done old.progress ≡ false
    → length cs < 2 ^ 31
    → AllStatus cs
    → (cs' : List OpsCandidate) × (new : JobStatus) × (calculate_status now generation old cs
        ≡ returns (cs', new))
      × IsCalculated now cs cs' new
calculate_status_lem now generation old cs open_job small all =
    let (cs', details, read, noted, ends) = target_details_of-AllEnded now cs all in
    (
      cs',
      job_status_from now generation old details (count_details details no_counts),
      calculate_status_read now generation old cs cs' details read,
      job_status_from-IsCalculated now generation old cs cs' details open_job small all noted ends,
    )
