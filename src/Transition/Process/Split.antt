-- ===== src/Transition/Process/Split.antt =====
-- pkg/controllers/podtransitionrule/processor/processor.go: which pods a rule is asked about.
use kuperator.Common.{
  ◌≡◌, refl, sym, subst, Bool, true, false, not, ◌&&◌, ◌||◌, Option, none, some, List, [], ◌∷◌,
  arith, Bool-cases, inl, inr, Text, text_eq, text_eq_iff, Dict, lookup, ok, err, returns,
}
use kuperator.Pod.{Pod, contains, set_insert}
use kuperator.Pod.Sets.{contains-set_insert}
use kuperator.Transition.Rules.{Selector, TransitionRule, and_pod, resolve}
use kuperator.Transition.Rules.Interface.{names_of}
use kuperator.Transition.Process.{
  Setting, Parts, drop, skips_rule, matches_no_condition, drop_unless_nil, drop_by_filter, drops,
}

-- A test of the target of a name.
abbrev test_of : (Pod → Bool) → Option Pod → Bool
test_of test none = false
test_of test (some pod) = test pod

abbrev pub at : (Pod → Bool) → Dict Pod → Text → Bool
at test targets k = test_of test (lookup k targets)

-- Pods under their names, as the targets have them.
abbrev pub AreFrom : Dict Pod → List (Text × Pod) → Type 0
AreFrom targets [] = Unit {0}
AreFrom targets ((k, pod) ∷ pods) = (lookup k targets ≡ some pod) × AreFrom targets pods

resolve_step :
    (targets : Dict Pod) (k : Text) (ks : List Text) (o : Option Pod)
    (rest : Option (List (Text × Pod))) (pods : List (Text × Pod))
    → and_pod k o rest ≡ some pods
    → (pod : Pod) × (more : List (Text × Pod)) × (o ≡ some pod)
      × (rest ≡ some more)
      × (pods ≡ ((k, pod) ∷ more))
resolve_step targets k ks none rest pods e = cc
resolve_step targets k ks (some pod) none pods e = cc
resolve_step targets k ks (some pod) (some more) pods e =
    let same : ((k, pod) ∷ more) ≡ pods = cc in (pod, more, refl, refl, sym same)

pub resolve-AreFrom :
    (targets : Dict Pod) (ks : List Text) (pods : List (Text × Pod))
    → resolve targets ks ≡ some pods
    → AreFrom targets pods
unfolding resolve
resolve-AreFrom targets [] pods e = let same : [] ≡ pods = cc in subst (AreFrom targets) same tt
resolve-AreFrom targets (k ∷ ks) pods e =
    let (pod, more, there, rest, same) =
      resolve_step targets k ks (lookup k targets) (resolve targets ks) pods e in
    subst (AreFrom targets) (sym same) (there, resolve-AreFrom targets ks more rest)

-- How a loop parts the pods, when it drops those of a test.
abbrev pub IsParted : (Text → Bool) → List (Text × Pod) → List Text → Parts → Type 0
IsParted out pods skip (kept, skip_after) =
    (k : Text)
    → (contains k (names_of kept) ≡ (contains k (names_of pods) && not (out k)))
      × (contains k skip_after ≡ (contains k skip || (contains k (names_of pods) && out k)))

at-found :
    (test : Pod → Bool) (targets : Dict Pod) (j k : Text) (pod : Pod)
    → lookup j targets ≡ some pod
    → text_eq j k ≡ true
    → at test targets k ≡ test pod
at-found test targets j k pod there same =
    subst (λ x. at test targets x ≡ test pod) ((text_eq_iff j k).0 same) (rw there refl)

drop-IsParted :
    (test : Pod → Bool) (targets : Dict Pod) (pods : List (Text × Pod)) (skip : List Text)
    → AreFrom targets pods
    → IsParted (at test targets) pods skip (drop test pods skip)
      × AreFrom targets (drop test pods skip).0
unfolding drop contains
drop-IsParted test targets [] skip from = (λ k. (refl, ground arith), tt)
drop-IsParted test targets ((j, pod) ∷ pods) skip from = elim (Bool-cases (test pod)) [
  | inl on ↦
      let (parted, rest_from) = drop-IsParted test targets pods (set_insert j skip) from.1 in
      rw on (
        λ k. (
          ground (arith, on, parted k, at-found test targets j k pod from.0),
          ground (
            arith,
            on,
            parted k,
            contains-set_insert k j skip,
            at-found test targets j k pod from.0,
          ),
        ),
        rest_from,
      )
  | inr off ↦
      let (parted, rest_from) = drop-IsParted test targets pods skip from.1 in
      rw off (
        λ k. (
          ground (arith, off, parted k, at-found test targets j k pod from.0),
          ground (arith, off, parted k, at-found test targets j k pod from.0),
        ),
        (from.0, rest_from),
      )
]

IsParted-trans :
    (first second : Text → Bool) (pods : List (Text × Pod)) (skip : List Text) (p q : Parts)
    → IsParted first pods skip p
    → IsParted second p.0 p.1 q
    → IsParted (λ k. first k || second k) pods skip q
IsParted-trans first second pods skip (kept, out) (kept_after, out_after) one two =
    λ k. (ground (arith, one k, two k), ground (arith, one k, two k))

IsParted-none :
    (pods : List (Text × Pod)) (skip : List Text) → IsParted (λ k. false) pods skip (pods, skip)
IsParted-none pods skip = λ k. (ground arith, ground arith)

IsParted-same :
    (first second : Text → Bool) (pods : List (Text × Pod)) (skip : List Text) (p : Parts)
    → ((k : Text) → first k ≡ second k)
    → IsParted first pods skip p
    → IsParted second pods skip p
IsParted-same first second pods skip (kept, out) same one =
    λ k. (ground (arith, one k, same k), ground (arith, one k, same k))

abbrev mismatches : Option Selector → Pod → Bool
mismatches none pod = false
mismatches (some (ok matches)) pod = not (matches pod.labels)
mismatches (some (err e)) pod = false

abbrev pub is_valid : Option Selector → Bool
is_valid none = true
is_valid (some (ok matches)) = true
is_valid (some (err e)) = false

abbrev has_no_condition : Setting → TransitionRule → List Text → Pod → Bool
has_no_condition S rule [] pod = false
has_no_condition S rule (c ∷ cs) pod = matches_no_condition S rule pod

-- A rule does not apply to a pod: the pod's annotation skips the rule, the pod matches none of its
-- conditions, or not its filter.
unfoldable pub excused : Setting → TransitionRule → Pod → Bool
excused S rule pod =
    skips_rule rule pod
    || (has_no_condition S rule rule.conditions pod || mismatches rule.filter pod)

at-excused :
    (S : Setting) (rule : TransitionRule) (targets : Dict Pod) (k : Text)
    → at (excused S rule) targets k ≡ (
        at (skips_rule rule) targets k
        || (at (has_no_condition S rule rule.conditions) targets k
            || at (mismatches rule.filter) targets k))
unfolding excused
at-excused S rule targets k =
    elim (lookup k targets)
      as (λ o. test_of (excused S rule) o ≡ (
        test_of (skips_rule rule) o
        || (test_of (has_no_condition S rule rule.conditions) o
            || test_of (mismatches rule.filter) o))) [ none ↦ refl | some pod ↦ refl ]

-- The parts, and that the kept pods are still targets.
abbrev Parted : (Pod → Bool) → Dict Pod → List (Text × Pod) → List Text → Parts → Type 0
Parted out targets pods skip p = IsParted (at out targets) pods skip p × AreFrom targets p.0

at-none : (targets : Dict Pod) (k : Text) → false ≡ at (λ pod. false) targets k
at-none targets k = elim (lookup k targets) as (λ o. false ≡ test_of (λ pod. false) o) [
  | none ↦ refl
  | some pod ↦ refl
]

unparted :
    (targets : Dict Pod) (p : Parts) → AreFrom targets p.0 → Parted (λ pod. false) targets p.0 p.1 p
unparted targets (pods, skip) from = (
  IsParted-same (λ k. false) (at (λ pod. false) targets) pods skip (pods, skip) (at-none targets)
      (IsParted-none pods skip),
  from,
)

drop_unless_nil-Parted :
    (S : Setting) (rule : TransitionRule) (conditions : List Text) (targets : Dict Pod) (p : Parts)
    → AreFrom targets p.0
    → Parted
        (has_no_condition S rule conditions)
        targets
        p.0
        p.1
        (drop_unless_nil conditions (matches_no_condition S rule) p)
drop_unless_nil-Parted S rule [] targets (pods, skip) from = unparted targets (pods, skip) from
drop_unless_nil-Parted S rule (c ∷ cs) targets (pods, skip) from =
    drop-IsParted (matches_no_condition S rule) targets pods skip from

drop_by_filter-Parted :
    (filter : Option Selector) (targets : Dict Pod) (p : Parts)
    → is_valid filter ≡ true
    → AreFrom targets p.0
    → (q : Parts) × (drop_by_filter filter p ≡ returns q)
      × Parted (mismatches filter) targets p.0 p.1 q
drop_by_filter-Parted none targets (pods, skip) valid from =
    ((pods, skip), refl, unparted targets (pods, skip) from)
drop_by_filter-Parted (some (ok matches)) targets (pods, skip) valid from = (
  drop (λ pod. not (matches pod.labels)) pods skip,
  refl,
  drop-IsParted (λ pod. not (matches pod.labels)) targets pods skip from,
)
drop_by_filter-Parted (some (err e)) targets (pods, skip) valid from =
    absurd (ground (arith, valid))

-- The pods that a rule is asked about are those it is not excused for; the others are skipped.
pub drops-IsParted :
    (S : Setting) (rule : TransitionRule) (targets : Dict Pod) (pods : List (Text × Pod))
    (skip : List Text)
    → is_valid rule.filter ≡ true
    → AreFrom targets pods
    → (q : Parts) × (drops S rule pods skip ≡ returns q)
      × IsParted (at (excused S rule) targets) pods skip q
drops-IsParted S rule targets pods skip valid from =
    let one = drop-IsParted (skips_rule rule) targets pods skip from in
    let p = drop (skips_rule rule) pods skip in
    let two = drop_unless_nil-Parted S rule rule.conditions targets p one.1 in
    let q = drop_unless_nil rule.conditions (matches_no_condition S rule) p in
    let (r, e, three) = drop_by_filter-Parted rule.filter targets q valid two.1 in
    let first = at (skips_rule rule) targets in
    let second = at (has_no_condition S rule rule.conditions) targets in
    let third = at (mismatches rule.filter) targets in
    (
      r,
      e,
      IsParted-same (λ k. first k || (second k || third k)) (at (excused S rule) targets) pods skip
          r (λ k. sym (at-excused S rule targets k))
          (IsParted-trans first (λ k. second k || third k) pods skip p r one.0
            (IsParted-trans second third p.0 p.1 q r two.0 three.0)),
    )
