-- ===== src/Jobs/Released.antt =====
-- pkg/controllers/operationjob/operationjob_manager.go, releaseTargets: what becomes of each target.
use kuperator.Common.{
  ◌≡◌, refl, sym, subst, ap, ◌∙◌, ℕ, suc, Text, Dict, Bool, true, false, not, ◌&&◌, ◌||◌, Option,
  none, some, List, [], ◌∷◌, arith, if◌then◌else◌, is_some, Bool-cases, inl, inr, Error,
}
use kuperator.Pod.{Pod}
use kuperator.Jobs.{
  Progress, not_set, pending, processing, failed, succeeded, OpsStatus, OpsCandidate,
  is_candidate_ops_finished, is_candidate_ops_released, mark_candidate_released,
}
use kuperator.Jobs.Operate.{Site}
use kuperator.Jobs.Careful.{has_succeeded}
use kuperator.Jobs.Release.{
  Errors, errors_of, is_nil, cancelled, assigned, fail_unfinished, noted, release_loop,
  mark_unless_error, mark_all, release_targets, noted-grows, noted-own, release_loop-grows,
  SameTarget, cancelled-SameTarget,
}

-- The handler, or with a lifecycle the error that the target's call has read, is an error for it.
abbrev pub has_error : Site → Option Error → Errors → OpsCandidate → Bool
has_error W read errors c =
    not (is_nil (errors_of c.pod_name errors)) || W.enable_lifecycle && is_some read

-- A target that has a status is finished, and succeeded exactly if it was before; it is released
-- only if it was before or there is no error.
abbrev pub IsReleased : Site → Option Error → Errors → OpsCandidate → OpsCandidate → Type 0
IsReleased W read errors c d =
    ((is_some c.ops_status && not (is_candidate_ops_finished d)) ≡ false)
    × (has_succeeded d ≡ has_succeeded c)
    × ((is_candidate_ops_released d
          && (not (is_candidate_ops_released c) && has_error W read errors c))
        ≡ false)

-- The targets are the given ones in their order, and each `IsReleased` with what its call, of those
-- from `i` on, has read.
abbrev pub AllReleased :
    Site → (ℕ → Option Error) → ℕ → Errors → List OpsCandidate → List OpsCandidate → Type 0
AllReleased W reads i errors [] [] = Unit {0}
AllReleased W reads i errors (c ∷ cs) (d ∷ ds) =
    IsReleased W (reads i) errors c d × AllReleased W reads (suc i) errors cs ds
AllReleased W reads i errors _ _ = true ≡ false

-- A target between the loop of the batch and the marking.
abbrev IsFailed : OpsCandidate → OpsCandidate → Type 0
IsFailed c d =
    ((is_some c.ops_status && not (is_candidate_ops_finished d)) ≡ false)
    × (has_succeeded d ≡ has_succeeded c)
    × (is_candidate_ops_released d ≡ is_candidate_ops_released c)
    × (d.pod_name ≡ c.pod_name)

module _ (i : ℕ) (pod : Option Pod) (pod_name name : Text) (start end : Option ℕ)
    (info : Dict Text) where
  abbrev with_status : Progress → OpsCandidate
  with_status p = record {
    idx = i;
    pod = pod;
    pod_name = pod_name;
    ops_status = some (record {
      name = name;
      progress = p;
      start_time = start;
      end_time = end;
      extra_info = info;
    });
  }

  fail_progress : (p : Progress) → IsFailed (with_status p) (fail_unfinished (with_status p))
  unfolding is_candidate_ops_finished is_candidate_ops_released
  fail_progress not_set = (refl, refl, refl, refl)
  fail_progress pending = (refl, refl, refl, refl)
  fail_progress processing = (refl, refl, refl, refl)
  fail_progress failed = (refl, refl, refl, refl)
  fail_progress succeeded = (refl, refl, refl, refl)

fail_status :
    (i : ℕ) (pod : Option Pod) (name : Text) (o : Option OpsStatus)
    → let c : OpsCandidate = record { idx = i; pod = pod; pod_name = name; ops_status = o } in
      IsFailed c (fail_unfinished c)
unfolding is_candidate_ops_finished is_candidate_ops_released
fail_status i pod name none = (refl, refl, refl, refl)
fail_status i pod name (some s) =
    fail_progress i pod name s.name s.start_time s.end_time s.extra_info s.progress

-- What is found of a target depends on its status alone.
same_released :
    (c d : OpsCandidate)
    → SameTarget c d
    → (is_some d.ops_status ≡ is_some c.ops_status)
      × (has_succeeded d ≡ has_succeeded c)
      × (is_candidate_ops_released d ≡ is_candidate_ops_released c)
unfolding is_candidate_ops_released
same_released c d same = (rw same.0 refl, rw same.0 refl, rw same.0 refl)

fail-IsFailed : (c d : OpsCandidate) → SameTarget c d → IsFailed c (fail_unfinished d)
fail-IsFailed c d same =
    let f = fail_status d.idx d.pod d.pod_name d.ops_status in
    let s = same_released c d same in
    (ground (arith, f.0, s.0), ground (arith, f.1, s.1), ground (arith, f.2, s.2), f.3 ∙ same.1)

mark_released :
    (i : ℕ) (pod : Option Pod) (name : Text) (o : Option OpsStatus)
    → let c : OpsCandidate = record { idx = i; pod = pod; pod_name = name; ops_status = o } in
      (is_candidate_ops_finished (mark_candidate_released c) ≡ is_candidate_ops_finished c)
      × (has_succeeded (mark_candidate_released c) ≡ has_succeeded c)
unfolding is_candidate_ops_finished mark_candidate_released
mark_released i pod name none = (refl, refl)
mark_released i pod name (some s) = (refl, refl)

-- The target is marked by the errors that are known at the end.
mark-IsReleased :
    (W : Site) (read : Option Error) (errors final : Errors) (c d : OpsCandidate)
    → IsFailed c d
    → (has_error W read errors c && is_nil (errors_of c.pod_name final)) ≡ false
    → IsReleased W read errors c (mark_unless_error final d)
mark-IsReleased W read errors final c d f kept =
    let name : is_nil (errors_of d.pod_name final) ≡ is_nil (errors_of c.pod_name final) =
      ap (λ n. is_nil (errors_of n final)) f.3 in
    elim (Bool-cases (is_nil (errors_of d.pod_name final))) [
      | inl clean ↦
          let m = mark_released d.idx d.pod d.pod_name d.ops_status in
          subst (λ b. IsReleased W read errors c (if b then mark_candidate_released d else d))
            (sym clean) (ground (arith, f.0, m.0), m.1 ∙ f.1, ground (arith, kept, name, clean))
      | inr dirty ↦
          subst (λ b. IsReleased W read errors c (if b then mark_candidate_released d else d))
            (sym dirty) (f.0, f.1, ground (arith, f.2))
    ]

noted-some :
    (W : Site) (name : Text) (o : Option Error) (now : Errors)
    → W.enable_lifecycle ≡ true
    → (is_some o && is_nil (errors_of name (noted W name o now))) ≡ false
noted-some W name none now on = refl
noted-some W name (some e) now on = noted-own W name e now on

noted-read :
    (W : Site) (name : Text) (read : Option Error) (now : Errors)
    → (W.enable_lifecycle && is_some read && is_nil (errors_of name (noted W name read now)))
      ≡ false
noted-read W name read now = elim (Bool-cases W.enable_lifecycle) [
  | inl on ↦ ground (arith, noted-some W name read now on)
  | inr off ↦ ground (arith, off)
]

-- No name loses its errors.
abbrev Keeps : Errors → Errors → Type 0
Keeps errors now =
    (k : Text) → is_nil (errors_of k errors) ≡ false → is_nil (errors_of k now) ≡ false

-- After the turn of a target with an error the map has an error for it, and so at the end.
has_error-final :
    (W : Site) (reads : ℕ → Option Error) (i : ℕ) (errors now : Errors) (c : OpsCandidate)
    (cs : List OpsCandidate)
    → Keeps errors now
    → let next = noted W c.pod_name (reads i) now in
      (has_error W (reads i) errors c
        && is_nil (errors_of c.pod_name (release_loop W reads (suc i) cs next).1))
      ≡ false
has_error-final W reads i errors now c cs keeps =
    let next = noted W c.pod_name (reads i) now in
    let final = (release_loop W reads (suc i) cs next).1 in
    let stays = release_loop-grows W reads (suc i) c.pod_name cs next in
    elim (Bool-cases (is_nil (errors_of c.pod_name next))) [
      | inl clean ↦ elim (Bool-cases (is_nil (errors_of c.pod_name errors))) [
        | inl empty ↦ ground (arith, noted-read W c.pod_name (reads i) now, clean, empty)
        | inr full ↦
            let dirty = noted-grows W c.pod_name c.pod_name (reads i) now (keeps c.pod_name full) in
            ground (arith, clean, dirty)
      ]
      | inr dirty ↦ ground (arith, stays dirty)
    ]

release_loop-AllReleased :
    (W : Site) (reads : ℕ → Option Error) (i : ℕ) (errors : Errors) (cs : List OpsCandidate)
    (now : Errors)
    → Keeps errors now
    → let r = release_loop W reads i cs now in AllReleased W reads i errors cs (mark_all r.1 r.0)
unfolding release_loop
release_loop-AllReleased W reads i errors [] now keeps = tt
release_loop-AllReleased W reads i errors (c ∷ cs) now keeps =
    let next = noted W c.pod_name (reads i) now in
    (
      mark-IsReleased W (reads i) errors (release_loop W reads (suc i) cs next).1 c
          (fail_unfinished (cancelled W c).0)
          (fail-IsFailed c (cancelled W c).0 (cancelled-SameTarget W c))
          (has_error-final W reads i errors now c cs keeps),
      release_loop-AllReleased W reads (suc i) errors cs next
          (λ k h. noted-grows W k c.pod_name (reads i) now (keeps k h)),
    )

-- The calls of the batch run at once: whichever of the calls each has its error read from, after
-- releaseTargets every target that has a status is finished, and the succeeded targets are those
-- that were. A target is marked as released only if it was before, or the handler's ReleaseTargets
-- has no error for it and, with a lifecycle, the error that its call has read is nil. (That is its
-- own error only if no other call has assigned the shared variable in between.)
pub release_targets-AllReleased :
    (W : Site) (writer : ℕ → ℕ) (errors : Errors) (cs : List OpsCandidate)
    → AllReleased W
        (λ i. assigned W cs (writer i))
        0
        errors
        cs
        (release_targets W writer errors cs).0
unfolding release_targets
release_targets-AllReleased W writer errors cs =
    release_loop-AllReleased W (λ i. assigned W cs (writer i)) 0 errors cs errors (λ k h. h)
