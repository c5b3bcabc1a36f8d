-- ===== src/Transition/Details/Verdict.antt =====
-- pkg/controllers/podtransitionrule: what the status of a pod says of the rules.
use kuperator.Common.{
  ◌≡◌, refl, sym, subst, ◌∙◌, Bool, true, false, not, ◌&&◌, ◌||◌, some, List, [], ◌∷◌, arith,
  is_some, Bool-cases, inl, inr, Text, text_eq, text_eq_iff, Dict, lookup, has, Outcome, returns,
}
use kuperator.Pod.{Pod, contains}
use kuperator.Transition.Detail.{Detail}
use kuperator.Transition.Rules.{TransitionRule, Ruler, FilterResult, get_ruler}
use kuperator.Transition.Rules.Order.{sort_rules}
use kuperator.Transition.Rules.Interface.{IsKeyed}
use kuperator.Transition.Process.{Setting, ProcessResult, effective_rules, in_stage_names}
use kuperator.Transition.Process.Split.{at, excused}
use kuperator.Transition.Process.Step.{passes_of}
use kuperator.Transition.Process.Cleared.{AreValid, AllCleared, process-Processed}
use kuperator.Transition.Details.{Merged, update_detail, add_result, no_result, process_stages}
use kuperator.Transition.Details.Merge.{is_rejected, rules_in, rules_at, Agrees, add_entries-Adds}

-- A rule has a ruler, applies to the pod, and is not among some passed rules.
abbrev pub is_unmet : Setting → Dict Pod → List Text → Text → TransitionRule → Bool
is_unmet S targets passed k rule =
    is_some (get_ruler rule) && not (at (excused S rule) targets k || contains rule.name passed)

abbrev pub AllMet : Setting → Dict Pod → List Text → Text → List TransitionRule → Type 0
AllMet S targets passed k [] = Unit {0}
AllMet S targets passed k (rule ∷ rules) =
    (is_unmet S targets passed k rule ≡ false) × AllMet S targets passed k rules

abbrev rules_of : Setting → List TransitionRule → Text → List TransitionRule
rules_of S rules stage = sort_rules (effective_rules S stage rules)

-- In every stage that the pod is in, the rules of the stage are met.
abbrev pub MetIn : Setting → Dict Pod → List TransitionRule → List Text → List Text → Text → Type 0
MetIn S targets rules [] passed k = Unit {0}
MetIn S targets rules (stage ∷ stages) passed k =
    (contains k (in_stage_names S stage targets) ≡ true
      → AllMet S targets passed k (sort_rules (effective_rules S stage rules)))
    × MetIn S targets rules stages passed k

abbrev pub AreValidIn :
    (Ruler → Dict Pod → List Text → Outcome FilterResult)
    → Setting
    → List TransitionRule
    → List Text
    → Type 0
AreValidIn filter S rules [] = Unit {0}
AreValidIn filter S rules (stage ∷ stages) =
    AreValid filter (sort_rules (effective_rules S stage rules)) × AreValidIn filter S rules stages

AllCleared-met :
    (S : Setting) (targets : Dict Pod) (passes : Dict (List Text)) (passed : List Text) (k : Text)
    (rules : List TransitionRule)
    → ((r : Text) → contains r (passes_of k passes) ≡ true → contains r passed ≡ true)
    → AllCleared S targets rules passes k
    → AllMet S targets passed k rules
AllCleared-met S targets passes passed k [] grows cleared = tt
AllCleared-met S targets passes passed k (rule ∷ rules) grows cleared = (
  ground (arith, cleared.0, grows rule.name),
  AllCleared-met S targets passes passed k rules grows cleared.1,
)

AllMet-grows :
    (S : Setting) (targets : Dict Pod) (before after : List Text) (k : Text)
    (rules : List TransitionRule)
    → ((r : Text) → contains r before ≡ true → contains r after ≡ true)
    → AllMet S targets before k rules
    → AllMet S targets after k rules
AllMet-grows S targets before after k [] grows met = tt
AllMet-grows S targets before after k (rule ∷ rules) grows met = (
  ground (arith, met.0, grows rule.name),
  AllMet-grows S targets before after k rules grows met.1,
)

MetIn-grows :
    (S : Setting) (targets : Dict Pod) (rules : List TransitionRule)
    (stages before after : List Text) (k : Text)
    → ((r : Text) → contains r before ≡ true → contains r after ≡ true)
    → MetIn S targets rules stages before k
    → MetIn S targets rules stages after k
MetIn-grows S targets rules [] before after k grows met = tt
MetIn-grows S targets rules (stage ∷ stages) before after k grows met = (
  λ m.
      AllMet-grows S targets before after k (sort_rules (effective_rules S stage rules)) grows
        (met.0 m),
  MetIn-grows S targets rules stages before after k grows met.1,
)

module _ (S : Setting) (filter : Ruler → Dict Pod → List Text → Outcome FilterResult)
    (targets : Dict Pod) (keyed : IsKeyed targets) (rules : List TransitionRule) where
  -- The merged statuses agree with their rejections, and where there is none the rules are met.
  abbrev IsSettled : List Text → Merged → Type 0
  IsSettled stages m =
      (k : Text)
      → Agrees k m.details
        × (is_rejected k m.details ≡ false → MetIn S targets rules stages (rules_at k m.details) k)

  add_result-IsSettled :
      (stage : Text) (stages : List Text) (r : ProcessResult) (m : Merged)
      → ((k : Text) → has k r.pass_rules ≡ contains k (in_stage_names S stage targets))
      → ((k : Text)
          → contains k (in_stage_names S stage targets) ≡ true
          → has k r.result_rejected ≡ false
          → AllCleared S targets (rules_of S rules stage) r.pass_rules k)
      → IsSettled stages m
      → IsSettled (stage ∷ stages) (add_result stage r m)
  unfolding update_detail
  add_result-IsSettled stage stages r m known cleared settled k =
      let adds = add_entries-Adds r.result_rejected stage r.pass_rules m.details k in
      let after = rules_at k (update_detail m.details r stage) in
      (
        adds.2 (settled k).0,
        λ off. (
          λ inside.
              AllCleared-met S targets r.pass_rules after k (rules_of S rules stage)
                (λ t h. adds.1 t (ground (arith, h)))
                (cleared k inside (ground (arith, off, inside, known k, adds.0))),
          MetIn-grows S targets rules stages (rules_at k m.details) after k
              (λ t h. adds.1 t (ground (arith, h))) ((settled k).1 (ground (arith, off, adds.0))),
        ),
      )

  process_stages-IsSettled :
      (stages : List Text)
      → AreValidIn filter S rules stages
      → (m : Merged) × (process_stages S filter stages rules targets ≡ returns m)
        × IsSettled stages m
  unfolding process_stages lookup
  process_stages-IsSettled [] valid = (no_result, refl, λ k. (refl, λ off. tt))
  process_stages-IsSettled (stage ∷ stages) valid =
      let (m, e, settled) = process_stages-IsSettled stages valid.1 in
      let (r, f, known, within, cleared) =
        process-Processed S filter targets keyed stage rules valid.0 in
      (
        add_result stage r m,
        rw (e, f) refl,
        add_result-IsSettled stage stages r m known cleared settled,
      )

  detail_Met :
      (stages : List Text) (m : Merged) (k : Text) (d : Detail)
      → IsSettled stages m
      → lookup k m.details ≡ some d
      → d.passed ≡ true
      → MetIn S targets rules stages d.passed_rules k
  detail_Met stages m k d settled there passed =
      let (agrees, met) = settled k in
      subst (λ o. MetIn S targets rules stages (rules_in o) k) there
        (met (ground (arith, agrees, there, passed)))

  MetIn-at :
      (stages passed : List Text) (k stage : Text)
      → contains stage stages ≡ true
      → contains k (in_stage_names S stage targets) ≡ true
      → MetIn S targets rules stages passed k
      → AllMet S targets passed k (rules_of S rules stage)
  unfolding contains
  MetIn-at [] passed k stage m inside met = absurd (ground (arith, m))
  MetIn-at (s ∷ stages) passed k stage m inside met = elim (Bool-cases (text_eq s stage)) [
    | inl on ↦
        let same = (text_eq_iff s stage).0 on in
        subst (λ x. AllMet S targets passed k (rules_of S rules x)) same
          (met.0 (subst (λ x. contains k (in_stage_names S x targets) ≡ true) (sym same) inside))
    | inr off ↦ MetIn-at stages passed k stage (ground (arith, m, off)) inside met.1
  ]

  -- With rulers that decide their subjects and selectors that can be parsed, a pod whose status lets
  -- it pass, in whatever order the stages finish, has passed, by that status, every rule that has a
  -- ruler and applies to the pod, of every stage that it is in.
  pub process_stages-AllMet :
      (stages : List Text) (m : Merged) (k stage : Text) (d : Detail)
      → AreValidIn filter S rules stages
      → process_stages S filter stages rules targets ≡ returns m
      → lookup k m.details ≡ some d
      → d.passed ≡ true
      → contains stage stages ≡ true
      → contains k (in_stage_names S stage targets) ≡ true
      → AllMet S targets d.passed_rules k (sort_rules (effective_rules S stage rules))
  process_stages-AllMet stages m k stage d valid e there passed among inside =
      let (n, f, settled) = process_stages-IsSettled stages valid in
      let both : returns n ≡ returns m = sym f ∙ e in
      let same : n ≡ m = cc in
      MetIn-at stages d.passed_rules k stage among inside
        (detail_Met stages m k d (subst (IsSettled stages) same settled) there passed)
