-- ===== src/Transition/Rules/Interface.antt =====
-- pkg/controllers/podtransitionrule/processor/rules/types.go: what the processor may rely on of every
-- ruler, and that the label check meets it (labelcheck.go).
use kuperator.Common.{
  ◌≡◌, refl, subst, Bool, true, ◌||◌, some, List, [], ◌∷◌, arith, if◌then◌else◌, Option-cases, inl,
  inr, Text, text_eq, text_eq_refl, text_eq_iff, Dict, has, lookup, insert, Error, ok, err, Outcome,
  returns,
}
use kuperator.Pod.{Labels, Pod, contains, set_insert}
use kuperator.Pod.Sets.{contains-set_insert, has-insert}
use kuperator.Transition.Detail.{Reason, label_mismatch, filter_error}
use kuperator.Transition.Rules.{
  Selector, FilterResult, reject, reject_all_with_err, resolve, check_labels, label_check_filter,
  reject_each, insert_all,
}

-- The targets are keyed by the names of the pods.
abbrev pub IsKeyed : List (Text × Pod) → Type 0
IsKeyed [] = Unit {0}
IsKeyed ((k, pod) ∷ targets) = (pod.name ≡ k) × IsKeyed targets

abbrev pub AreTargets : Dict Pod → List Text → Type 0
AreTargets targets ks = (k : Text) → contains k ks ≡ true → has k targets ≡ true

-- Every subject is decided, and nothing else.
abbrev pub Decides : List Text → FilterResult → Type 0
Decides subjects r = (k : Text) → (contains k r.passed || has k r.rejected) ≡ contains k subjects

-- A ruler returns for keyed targets and subjects among them, and decides the subjects.
abbrev pub IsRuler : (Dict Pod → List Text → Outcome FilterResult) → Type 0
IsRuler filter =
    (targets : Dict Pod) (subjects : List Text)
    → IsKeyed targets
    → AreTargets targets subjects
    → (r : FilterResult) × (filter targets subjects ≡ returns r) × Decides subjects r

abbrev pub names_of : List (Text × Pod) → List Text
names_of [] = []
names_of ((k, pod) ∷ rest) = k ∷ names_of rest

lookup-IsKeyed :
    (targets : Dict Pod) (k : Text) (pod : Pod)
    → IsKeyed targets
    → lookup k targets ≡ some pod
    → pod.name ≡ k
unfolding lookup
lookup-IsKeyed [] k pod keyed e = cc
lookup-IsKeyed ((j, p) ∷ targets) k pod keyed e =
    ground (arith, text_eq_iff j k, lookup-IsKeyed targets k pod keyed.1)

AreTargets-tail :
    (targets : Dict Pod) (k : Text) (ks : List Text)
    → AreTargets targets (k ∷ ks)
    → AreTargets targets ks
unfolding contains
AreTargets-tail targets k ks h j m = h j (ground (arith, m))

-- The pods of names that are all targets.
abbrev pub Resolved : Dict Pod → List Text → Type 0
Resolved targets ks =
    (pods : List (Text × Pod)) × (resolve targets ks ≡ some pods)
    × (names_of pods ≡ ks)
    × IsKeyed pods

pub resolve-Resolved :
    (targets : Dict Pod) (ks : List Text)
    → IsKeyed targets
    → AreTargets targets ks
    → Resolved targets ks
unfolding resolve contains
resolve-Resolved targets [] keyed h = ([], refl, refl, tt)
resolve-Resolved targets (k ∷ ks) keyed h =
    let (rest, e, names, rest_keyed) =
      resolve-Resolved targets ks keyed (AreTargets-tail targets k ks h) in
    let found : has k targets ≡ true = h k (ground (arith, text_eq_refl k)) in
    elim (Option-cases (lookup k targets)) [
      | inl none_there ↦ absurd (ground (arith, found, none_there))
      | inr (pod, there) ↦ (
        (k, pod) ∷ rest,
        rw (there, e) refl,
        rw names refl,
        (lookup-IsKeyed targets k pod keyed there, rest_keyed),
      )
    ]

reject-has :
    (subjects : List Text) (rejects : Dict Reason) (reason : Reason) (k : Text)
    → has k (reject subjects [] rejects reason) ≡ (contains k subjects || has k rejects)
unfolding reject contains
reject-has [] rejects reason k = refl
reject-has (j ∷ subjects) rejects reason k =
    let same : text_eq j k ≡ true → has j rejects ≡ has k rejects =
      λ h. subst (λ x. has j rejects ≡ has x rejects) ((text_eq_iff j k).0 h) refl in
    ground (
      arith,
      same,
      reject-has subjects (if has j rejects then rejects else insert j reason rejects) reason k,
      has-insert k j reason rejects,
    )

pub reject_all_with_err-Decides :
    (subjects : List Text) (e : Error) → Decides subjects (reject_all_with_err subjects [] [] e)
unfolding reject_all_with_err contains lookup
reject_all_with_err-Decides subjects e k = ground (arith, reject-has subjects [] (filter_error e) k)

check_labels_lem :
    (matches : Labels → Bool) (pods : List (Text × Pod)) (passed : List Text)
    (rejected : Dict Reason) (k : Text)
    → (contains k (check_labels matches pods passed rejected).passed
        || has k (check_labels matches pods passed rejected).rejected)
      ≡ (contains k (names_of pods) || contains k passed || has k rejected)
unfolding check_labels contains
check_labels_lem matches [] passed rejected k = refl
check_labels_lem matches ((j, pod) ∷ pods) passed rejected k = ground (
  arith,
  check_labels_lem matches pods (if matches pod.labels then set_insert j passed else passed)
      (if matches pod.labels then rejected else insert j label_mismatch rejected) k,
  contains-set_insert k j passed,
  has-insert k j label_mismatch rejected,
)

pub label_check_filter-IsRuler : (selector : Selector) → IsRuler (label_check_filter selector)
unfolding label_check_filter contains lookup
label_check_filter-IsRuler (err e) targets subjects keyed h =
    (reject_all_with_err subjects [] [] e, refl, reject_all_with_err-Decides subjects e)
label_check_filter-IsRuler (ok matches) targets subjects keyed h =
    let (pods, e, names, pods_keyed) = resolve-Resolved targets subjects keyed h in
    (
      check_labels matches pods [] [],
      rw e refl,
      λ k.
          subst
            (λ ks.
              (contains k (check_labels matches pods [] []).passed
                || has k (check_labels matches pods [] []).rejected)
              ≡ contains k ks)
            names (ground (arith, check_labels_lem matches pods [] [] k)),
    )

pub has-reject_each :
    (ks : List Text) (reason : Reason) (rejects : Dict Reason) (k : Text)
    → has k (reject_each ks reason rejects) ≡ (contains k ks || has k rejects)
unfolding reject_each contains
has-reject_each [] reason rejects k = refl
has-reject_each (j ∷ ks) reason rejects k =
    ground
      (arith, has-reject_each ks reason (insert j reason rejects) k, has-insert k j reason rejects)

pub contains-insert_all :
    (ks s : List Text) (k : Text) → contains k (insert_all ks s) ≡ (contains k ks || contains k s)
unfolding insert_all contains
contains-insert_all [] s k = refl
contains-insert_all (j ∷ ks) s k =
    ground (arith, contains-insert_all ks (set_insert j s) k, contains-set_insert k j s)
