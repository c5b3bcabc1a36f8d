-- ===== src/Jobs/Release.antt =====
-- pkg/controllers/operationjob/operationjob_manager.go, releaseTargets: the targets of a job that is
-- deleted, or that have failed, are released. The calls of its batch run at once and assign one
-- shared `err`, so that a call may read what another has assigned last: `writer i` is the call whose
-- error call `i` reads, and any function may stand for it. (The writes to the map are taken one after
-- another. The handler's map is taken as not nil. The status that is calculated afterwards is in
-- Status.)
use kuperator.Common.{
  ℕ, zero, suc, ◌≡◌, refl, Bool, true, false, not, ◌&&◌, Option, none, some, List, [], ◌∷◌, ◌++◌,
  if◌then◌else◌, if-both, Bool-cases, inl, inr, Text, text_eq, text_eq_refl, text_eq→eq, Dict,
  lookup, insert, lookup-insert, Error,
}
use kuperator.Pod.{Pod}
use kuperator.Jobs.{
  failed, OpsCandidate, is_candidate_ops_finished, is_candidate_ops_failed,
  is_candidate_ops_released, mark_candidate_released,
}
use kuperator.Jobs.Operate.{
  Site, clean_candidate_ops_lifecycle, with_progress, clean_pod, with_pod, cancel_ops_lifecycle,
}

-- The errors of each target by its name; a name without errors has nil.
abbrev pub Errors : Type 0
Errors = Dict (List Error)

abbrev or_nil : Option (List Error) → List Error
or_nil none = []
or_nil (some es) = es

abbrev pub errors_of : Text → Errors → List Error
errors_of name errors = or_nil (lookup name errors)

abbrev pub is_nil : List Error → Bool
is_nil [] = true
is_nil (e ∷ es) = false

abbrev listed : Option Error → List Error
listed none = []
listed (some e) = e ∷ []

abbrev pub cancelled : Site → OpsCandidate → OpsCandidate × Option Error
cancelled W c = if W.enable_lifecycle then clean_candidate_ops_lifecycle W true c else (c, none)

abbrev pub fail_unfinished : OpsCandidate → OpsCandidate
fail_unfinished c = if is_candidate_ops_finished c then c else with_progress c failed c.ops_status

-- `error` is what the call reads in the shared variable.
abbrev pub noted : Site → Text → Option Error → Errors → Errors
noted W name error errors =
    if W.enable_lifecycle
    then insert name (errors_of name errors ++ listed error) errors
    else errors

-- The error that the call of the target at the index assigns to the shared variable.
unfoldable pub assigned : Site → List OpsCandidate → ℕ → Option Error
assigned W [] i = none
assigned W (c ∷ cs) zero = (cancelled W c).1
assigned W (c ∷ cs) (suc i) = assigned W cs i

-- The calls from `i` on; `reads i` is what call `i` reads in the shared variable.
unfoldable pub release_loop :
    Site → (ℕ → Option Error) → ℕ → List OpsCandidate → Errors → List OpsCandidate × Errors
release_loop W reads i [] errors = ([], errors)
release_loop W reads i (c ∷ cs) errors =
    let (rest, final) = release_loop W reads (suc i) cs (noted W c.pod_name (reads i) errors) in
    (fail_unfinished (cancelled W c).0 ∷ rest, final)

abbrev pub mark_unless_error : Errors → OpsCandidate → OpsCandidate
mark_unless_error errors c =
    if is_nil (errors_of c.pod_name errors) then mark_candidate_released c else c

abbrev pub mark_all : Errors → List OpsCandidate → List OpsCandidate
mark_all errors [] = []
mark_all errors (c ∷ cs) = mark_unless_error errors c ∷ mark_all errors cs

-- The targets, and their errors; `errors` are those that the handler's ReleaseTargets returns.
unfoldable pub release_targets :
    Site → (ℕ → ℕ) → Errors → List OpsCandidate → List OpsCandidate × Errors
release_targets W writer errors cs =
    let (done, final) = release_loop W (λ i. assigned W cs (writer i)) 0 cs errors in
    (mark_all final done, final)

-- The candidates that ensureFailedTargetsReleased releases.
unfoldable pub failed_unreleased : List OpsCandidate → List OpsCandidate
failed_unreleased [] = []
failed_unreleased (c ∷ cs) =
    let rest = failed_unreleased cs in
    if is_candidate_ops_failed c && not (is_candidate_ops_released c) then c ∷ rest else rest

is_nil-append : (xs ys : List Error) → is_nil xs ≡ false → is_nil (xs ++ ys) ≡ false
is_nil-append [] ys h = cc
is_nil-append (x ∷ xs) ys h = refl

is_nil-listed : (xs : List Error) (e : Error) → is_nil (xs ++ listed (some e)) ≡ false
is_nil-listed [] e = refl
is_nil-listed (x ∷ xs) e = refl

or_nil_if :
    (b : Bool) (xs : List Error) (o : Option (List Error))
    → or_nil (if b then some xs else o) ≡ (if b then xs else or_nil o)
or_nil_if true xs o = refl
or_nil_if false xs o = refl

errors_of-insert :
    (k name : Text) (es : List Error) (errors : Errors)
    → errors_of k (insert name es errors) ≡ (if text_eq name k then es else errors_of k errors)
errors_of-insert k name es errors =
    rw (lookup-insert name k es errors) (or_nil_if (text_eq name k) es (lookup k errors))

pub noted-grows :
    (W : Site) (k name : Text) (e : Option Error) (errors : Errors)
    → is_nil (errors_of k errors) ≡ false
    → is_nil (errors_of k (noted W name e errors)) ≡ false
noted-grows W k name e errors h =
    if-both (λ (es : Errors). is_nil (errors_of k es) ≡ false) W.enable_lifecycle
      (rw (errors_of-insert k name (errors_of name errors ++ listed e) errors)
        (elim (Bool-cases (text_eq name k)) [
          | inl same ↦
              let at : name ≡ k = text_eq→eq name k same in
              rw same (is_nil-append (errors_of name errors) (listed e) (rw at h))
          | inr other ↦ rw other h
        ]))
      h

pub noted-own :
    (W : Site) (name : Text) (e : Error) (errors : Errors)
    → W.enable_lifecycle ≡ true
    → is_nil (errors_of name (noted W name (some e) errors)) ≡ false
noted-own W name e errors on =
    rw
      (
        on,
        errors_of-insert name name (errors_of name errors ++ listed (some e)) errors,
        text_eq_refl name,
      )
      (is_nil-listed (errors_of name errors) e)

pub release_loop-grows :
    (W : Site) (reads : ℕ → Option Error) (i : ℕ) (k : Text) (cs : List OpsCandidate)
    (errors : Errors)
    → is_nil (errors_of k errors) ≡ false
    → is_nil (errors_of k (release_loop W reads i cs errors).1) ≡ false
unfolding release_loop
release_loop-grows W reads i k [] errors h = h
release_loop-grows W reads i k (c ∷ cs) errors h =
    release_loop-grows W reads (suc i) k cs (noted W c.pod_name (reads i) errors)
      (noted-grows W k c.pod_name (reads i) errors h)

-- What a call keeps of a target.
abbrev pub SameTarget : OpsCandidate → OpsCandidate → Type 0
SameTarget c d = (d.ops_status ≡ c.ops_status) × (d.pod_name ≡ c.pod_name)

with_pod-SameTarget : (c : OpsCandidate) (r : Pod × Option Error) → SameTarget c (with_pod c r).0
with_pod-SameTarget c (pod, e) = (refl, refl)

clean_pod-SameTarget :
    (W : Site) (c : OpsCandidate) (o : Option Pod) → SameTarget c (clean_pod W true c o).0
clean_pod-SameTarget W c none = (refl, refl)
clean_pod-SameTarget W c (some pod) = with_pod-SameTarget c (cancel_ops_lifecycle W pod)

pub cancelled-SameTarget : (W : Site) (c : OpsCandidate) → SameTarget c (cancelled W c).0
unfolding clean_candidate_ops_lifecycle
cancelled-SameTarget W c =
    if-both (λ (r : OpsCandidate × Option Error). SameTarget c r.0) W.enable_lifecycle
      (clean_pod-SameTarget W c c.pod) (refl, refl)
