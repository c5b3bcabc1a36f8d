-- ===== src/Transition/Process/Cleared.antt =====
-- pkg/controllers/podtransitionrule/processor/processor.go: Process, on the pods of a stage.
use kuperator.Common.{
  ◌≡◌, refl, subst, Bool, true, false, Option, none, some, List, [], ◌∷◌, arith, Text, Dict, lookup,
  has, Outcome, returns,
}
use kuperator.Pod.{Pod, contains}
use kuperator.Pod.Sets.{contains-set_insert, has-insert}
use kuperator.Transition.Rules.{TransitionRule, Ruler, FilterResult, get_ruler}
use kuperator.Transition.Rules.Order.{sort_rules}
use kuperator.Transition.Rules.Interface.{names_of, IsKeyed, AreTargets, IsRuler, resolve-Resolved}
use kuperator.Transition.Process.{
  Setting, Progress, ProcessResult, after_ruler, process_rule, process_rules, effective_rules,
  in_stage_names, empty_passes, start_progress, process_names, empty_result, result_from, process,
}
use kuperator.Transition.Process.Split.{is_valid, drops-IsParted, resolve-AreFrom}
use kuperator.Transition.Process.Step.{passes_of, record_passes-Recorded}
use kuperator.Transition.Process.Sound.{IsSound, Grows, Turn, is_owed, update_progress-Turn}

-- The selectors of the rules can be parsed, and their rulers decide their subjects.
abbrev pub AreValid :
    (Ruler → Dict Pod → List Text → Outcome FilterResult) → List TransitionRule → Type 0
AreValid filter [] = Unit {0}
AreValid filter (rule ∷ rules) =
    (is_valid rule.filter ≡ true)
    × ((ruler : Ruler) → get_ruler rule ≡ some ruler → IsRuler (filter ruler))
    × AreValid filter rules

-- No rule is owed by a pod.
abbrev pub AllCleared : Setting → Dict Pod → List TransitionRule → Dict (List Text) → Text → Type 0
AllCleared S targets [] passes k = Unit {0}
AllCleared S targets (rule ∷ rules) passes k =
    (is_owed S targets rule passes k ≡ false) × AllCleared S targets rules passes k

in_stage_names-AreTargets :
    (S : Setting) (stage : Text) (targets : Dict Pod)
    → AreTargets targets (in_stage_names S stage targets)
unfolding in_stage_names lookup contains
in_stage_names-AreTargets S stage [] k m = m
in_stage_names-AreTargets S stage ((j, pod) ∷ targets) k m = ground (
  arith,
  m,
  in_stage_names-AreTargets S stage targets k,
  contains-set_insert k j (in_stage_names S stage targets),
)

has-empty_passes : (names : List Text) (k : Text) → has k (empty_passes names) ≡ contains k names
unfolding empty_passes contains lookup
has-empty_passes [] k = refl
has-empty_passes (j ∷ names) k =
    ground (arith, has-empty_passes names k, has-insert k j [] (empty_passes names))

start_progress-IsSound : (names : List Text) → IsSound names (start_progress names)
unfolding contains lookup
start_progress-IsSound names = record {
  known = has-empty_passes names;
  processing_within = λ k m. m;
  skip_within = λ k m. absurd (ground (arith, m));
  rejected_within = λ k m. absurd (ground (arith, m));
  decided = λ k m. ground (arith, m);
}

contrapose : (a b : Bool) → (a ≡ true → b ≡ true) → b ≡ false → a ≡ false
contrapose a b h off = ground arith

is_owed-stays :
    (S : Setting) (targets : Dict Pod) (rule : TransitionRule) (passes later : Dict (List Text))
    (k : Text)
    → (contains rule.name (passes_of k passes) ≡ true
        → contains rule.name (passes_of k later) ≡ true)
    → is_owed S targets rule passes k ≡ false
    → is_owed S targets rule later k ≡ false
is_owed-stays S targets rule passes later k grows cleared = ground (arith, cleared, grows)

module _ (S : Setting) (filter : Ruler → Dict Pod → List Text → Outcome FilterResult)
    (targets : Dict Pod) (keyed : IsKeyed targets) where
  module _ (names : List Text) (are : AreTargets targets names) where
    after_ruler-Turn :
        (rule : TransitionRule) (st : Progress)
        → is_valid rule.filter ≡ true
        → ((ruler : Ruler) → get_ruler rule ≡ some ruler → IsRuler (filter ruler))
        → IsSound names st
        → (o : Option Ruler) → get_ruler rule ≡ o
        → Turn S filter targets names rule st (after_ruler S filter rule targets st o)
    after_ruler-Turn rule st valid law sound none e =
        (st, refl, sound, (λ k m. m, λ k r m. m), λ k m off. ground (arith, e))
    after_ruler-Turn rule st valid law sound (some ruler) e =
        let (pods, found, same, pods_keyed) =
          resolve-Resolved targets st.processing keyed
            (λ k m. are k (sound.processing_within k m)) in
        let (p, dropped, parted) =
          drops-IsParted S rule targets pods st.skip valid
            (resolve-AreFrom targets st.processing pods found) in
        let within : (k : Text) → contains k (names_of p.0) ≡ true → contains k names ≡ true =
          λ k m.
            sound.processing_within k
              (subst (λ ks. contains k ks ≡ true) same (ground (arith, m, parted k))) in
        let (r, filtered, decides) =
          law ruler e targets (names_of p.0) keyed (λ k m. are k (within k m)) in
        let (passes, recorded_by, recorded) =
          record_passes-Recorded rule.name r.passed st.pass_info
            (λ k m. ground (arith, m, decides k, within k, sound.known k)) in
        let (st_after, e_after, sound_after, grows, clears) =
          update_progress-Turn S filter targets names rule st pods p r passes sound same parted
            decides recorded in
        (st_after, rw (found, dropped, filtered, recorded_by) e_after, sound_after, grows, clears)

    process_rules-AllCleared :
        (rules : List TransitionRule) (st : Progress)
        → AreValid filter rules
        → IsSound names st
        → (st_after : Progress) × (process_rules S filter rules targets (returns st)
            ≡ returns st_after)
          × IsSound names st_after
          × Grows st st_after
          × ((k : Text)
              → contains k names ≡ true
              → has k st_after.rejected ≡ false
              → AllCleared S targets rules st_after.pass_info k)
    unfolding process_rules process_rule
    process_rules-AllCleared [] st valid sound =
        (st, refl, sound, (λ k m. m, λ k r m. m), λ k m off. tt)
    process_rules-AllCleared (rule ∷ rules) st valid sound =
        let (st_one, e_one, sound_one, grows_one, clears) =
          after_ruler-Turn rule st valid.0 valid.1 sound (get_ruler rule) refl in
        let (st_two, e_two, sound_two, grows_two, cleared) =
          process_rules-AllCleared rules st_one valid.2 sound_one in
        (
          st_two,
          rw (e_one, process_rules) e_two,
          sound_two,
          (λ k m. grows_two.0 k (grows_one.0 k m), λ k r m. grows_two.1 k r (grows_one.1 k r m)),
          λ k m off. (
            is_owed-stays S targets rule st_one.pass_info st_two.pass_info k
                (grows_two.1 k rule.name)
                (clears k m (contrapose (has k st_one.rejected) _ (grows_two.0 k) off)),
            cleared k m off,
          ),
        )

  -- What Process returns, of the pods of the stage.
  abbrev pub Processed : List TransitionRule → List Text → Outcome ProcessResult → Type 0
  Processed rules names o =
      (r : ProcessResult) × (o ≡ returns r)
      × ((k : Text) → has k r.pass_rules ≡ contains k names)
      × ((k : Text) → has k r.result_rejected ≡ true → contains k names ≡ true)
      × ((k : Text)
          → contains k names ≡ true
          → has k r.result_rejected ≡ false
          → AllCleared S targets rules r.pass_rules k)

  process_names-Processed :
      (rules : List TransitionRule) (names : List Text)
      → AreTargets targets names
      → AreValid filter rules
      → Processed rules names (process_names S filter rules targets names)
  unfolding contains lookup
  process_names-Processed rules [] are valid =
      (empty_result, refl, λ k. refl, λ k m. m, λ k m off. absurd (ground (arith, m)))
  process_names-Processed rules (j ∷ names) are valid =
      let (st, e, sound, grows, cleared) =
        process_rules-AllCleared (j ∷ names) are rules (start_progress (j ∷ names)) valid
          (start_progress-IsSound (j ∷ names)) in
      (result_from st, rw e refl, sound.known, sound.rejected_within, cleared)

  pub process-Processed :
      (stage : Text) (rules : List TransitionRule)
      → AreValid filter (sort_rules (effective_rules S stage rules))
      → Processed
          (sort_rules (effective_rules S stage rules))
          (in_stage_names S stage targets)
          (process S filter stage rules targets)
  unfolding process
  process-Processed stage rules valid =
      process_names-Processed (sort_rules (effective_rules S stage rules))
        (in_stage_names S stage targets) (in_stage_names-AreTargets S stage targets) valid

  -- With rulers that decide their subjects and selectors that can be parsed, Process does not panic.
  -- It has an entry for each pod of the stage and for no other.
  pub process-pass_rules :
      (stage : Text) (rules : List TransitionRule)
      → AreValid filter (sort_rules (effective_rules S stage rules))
      → (r : ProcessResult) × (process S filter stage rules targets ≡ returns r)
        × ((k : Text) → has k r.pass_rules ≡ contains k (in_stage_names S stage targets))
  process-pass_rules stage rules valid =
      let (r, e, known, within, cleared) = process-Processed stage rules valid in (r, e, known)
