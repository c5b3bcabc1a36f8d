-- ===== src/Transition/Status/Checked.antt =====
-- pkg/controllers/podtransitionrule: the checker's verdict on a pod, from the statuses that the
-- controller writes.
use kuperator.Common.{
  ◌≡◌, refl, sym, subst, ◌∙◌, true, false, Option, none, some, List, [], ◌∷◌, arith, if◌then◌else◌,
  Bool-cases, Option-cases, inl, inr, Text, text_eq, text_eq_iff, Dict, lookup, lookup-insert, ok,
  Outcome, returns, panics,
}
use kuperator.Pod.{Pod, contains}
use kuperator.Transition.Detail.{RejectInfo, Detail}
use kuperator.Transition.Rules.{TransitionRule, Ruler, FilterResult}
use kuperator.Transition.Rules.Order.{sort_rules}
use kuperator.Transition.Rules.Interface.{IsKeyed}
use kuperator.Transition.Process.{Setting, ProcessResult, process, effective_rules, in_stage_names}
use kuperator.Transition.Details.{
  Merged, merged_detail, add_entry, add_entries, update_detail, add_outcome, add_result, no_result,
  process_stages,
}
use kuperator.Transition.Details.Verdict.{AreValidIn, AllMet, process_stages-AllMet}
use kuperator.Transition.Checker.{
  CheckState, Rule, find_detail, get_state, in_stage_and_passed, get_state_passed_iff,
}
use kuperator.Transition.Status.{
  and_detail, sort_strings, keys_of, detail_list, new_details, with_status,
}

-- The statuses stand under the names of their pods.
abbrev AreNamed : Dict Detail → Type 0
AreNamed details = (k : Text) (d : Detail) → lookup k details ≡ some d → d.name ≡ k

find_detail-detail_list :
    (ks : List Text) (details : Dict Detail) (item : Text) (d : Detail)
    → AreNamed details
    → find_detail item (detail_list ks details) ≡ some d
    → lookup item details ≡ some d
unfolding detail_list
find_detail-detail_list [] details item d named e = cc
find_detail-detail_list (k ∷ ks) details item d named e = elim (Option-cases (lookup k details)) [
  | inl missing ↦
      find_detail-detail_list ks details item d named
        (subst (λ o. find_detail item (and_detail o (detail_list ks details)) ≡ some d) missing e)
  | inr (c, there) ↦
      let found : (if text_eq c.name item
            then some c
            else find_detail item (detail_list ks details))
          ≡ some d =
        subst (λ o. find_detail item (and_detail o (detail_list ks details)) ≡ some d) there e in
      elim (Bool-cases (text_eq c.name item)) [
        | inl on ↦
            let same : k ≡ item = sym (named k c there) ∙ (text_eq_iff c.name item).0 on in
            let here : some c ≡ some d = rw on at found in
            subst (λ x. lookup x details ≡ some d) same (there ∙ here)
        | inr off ↦ find_detail-detail_list ks details item d named (rw off at found)
      ]
]

merged_detail-name :
    (pod stage : Text) (rules : List Text) (rejected : Option RejectInfo) (details : Dict Detail)
    (o : Option Detail)
    → AreNamed details
    → lookup pod details ≡ o
    → (merged_detail pod stage rules rejected o).name ≡ pod
merged_detail-name pod stage rules rejected details none named e = refl
merged_detail-name pod stage rules rejected details (some d) named e = named pod d e

add_entry-AreNamed :
    (rejected : Dict RejectInfo) (stage pod : Text) (rules : List Text) (details : Dict Detail)
    → AreNamed details
    → AreNamed (add_entry rejected stage pod rules details)
unfolding add_entry
add_entry-AreNamed rejected stage pod rules details named k d e =
    let new = merged_detail pod stage rules (lookup pod rejected) (lookup pod details) in
    let at_k : (if text_eq pod k then some new else lookup k details) ≡ some d =
      sym (lookup-insert pod k new details) ∙ e in
    elim (Bool-cases (text_eq pod k)) [
      | inr off ↦ named k d (rw off at at_k)
      | inl on ↦
          let both : some new ≡ some d = rw on at at_k in
          let same : new ≡ d = cc in
          subst (λ x. x.name ≡ k) same
            (merged_detail-name pod stage rules (lookup pod rejected) details (lookup pod details)
                named refl
              ∙ (text_eq_iff pod k).0 on)
    ]

add_entries-AreNamed :
    (rejected : Dict RejectInfo) (stage : Text) (entries : Dict (List Text)) (details : Dict Detail)
    → AreNamed details
    → AreNamed (add_entries rejected stage entries details)
unfolding add_entries
add_entries-AreNamed rejected stage [] details named = named
add_entries-AreNamed rejected stage ((pod, rules) ∷ entries) details named =
    add_entries-AreNamed rejected stage entries (add_entry rejected stage pod rules details)
      (add_entry-AreNamed rejected stage pod rules details named)

add_outcome-AreNamed :
    (stage : Text) (o : Outcome ProcessResult) (p : Outcome Merged) (m : Merged)
    → ((n : Merged) → p ≡ returns n → AreNamed n.details)
    → add_outcome stage o p ≡ returns m
    → AreNamed m.details
unfolding update_detail
add_outcome-AreNamed stage panics p m named e = absurd (ground (arith, e))
add_outcome-AreNamed stage (returns r) panics m named e = absurd (ground (arith, e))
add_outcome-AreNamed stage (returns r) (returns n) m named e =
    let same : add_result stage r n ≡ m = cc in
    subst (λ x. AreNamed x.details) same
      (add_entries-AreNamed r.result_rejected stage r.pass_rules n.details (named n refl))

process_stages-AreNamed :
    (S : Setting) (filter : Ruler → Dict Pod → List Text → Outcome FilterResult)
    (targets : Dict Pod) (rules : List TransitionRule) (stages : List Text) (m : Merged)
    → process_stages S filter stages rules targets ≡ returns m
    → AreNamed m.details
unfolding process_stages lookup
process_stages-AreNamed S filter targets rules [] m e =
    let same : no_result ≡ m = cc in
    subst (λ x. AreNamed x.details) same (λ k d h. absurd (ground (arith, h)))
process_stages-AreNamed S filter targets rules (stage ∷ stages) m e =
    add_outcome-AreNamed stage (process S filter stage rules targets)
      (process_stages S filter stages rules targets) m
      (process_stages-AreNamed S filter targets rules stages) e

-- When the status of a PodTransitionRule is what the controller writes, with rulers that decide their
-- subjects and selectors that can be parsed, a verdict of GetState that is in stage and passed, for a
-- pod that was in that stage, means that the pod has passed every rule of the stage that has a ruler
-- and applies to it.
pub checked-AllMet :
    (S : Setting) (filter : Ruler → Dict Pod → List Text → Outcome FilterResult)
    (targets : Dict Pod) (rules : List TransitionRule) (stages : List Text) (m : Merged)
    (name item stage : Text) (others : List Rule) (state : CheckState)
    → IsKeyed targets
    → AreValidIn filter S rules stages
    → process_stages S filter stages rules targets ≡ returns m
    → text_eq [] stage ≡ false
    → get_state stage item (ok (with_status name m ∷ others)) ≡ ok state
    → in_stage_and_passed state ≡ true
    → contains stage stages ≡ true
    → contains item (in_stage_names S stage targets) ≡ true
    → (d : Detail) × (lookup item m.details ≡ some d)
      × AllMet S targets d.passed_rules item (sort_rules (effective_rules S stage rules))
unfolding new_details
checked-AllMet S filter targets rules stages m name item stage others state keyed valid e nonempty
      verdict passed among inside =
    let all_let =
      (get_state_passed_iff stage item (with_status name m ∷ others) state nonempty verdict).0
        passed in
    let (d, found, in_stage, lets) = all_let.0 in
    let there =
      find_detail-detail_list (sort_strings (keys_of m.details)) m.details item d
        (process_stages-AreNamed S filter targets rules stages m e) found in
    (
      d,
      there,
      process_stages-AllMet S filter targets keyed rules stages m item stage d valid e there lets
          among inside,
    )
