-- ===== src/Transition/Examples.antt =====
-- Two rules, one of which has yet to process the pod.
use kuperator.Common.{
  ◌≡◌, refl, ◌↔◌, ◌⊎◌, Bool, true, ◌&&◌, if◌then◌else◌, [], ◌∷◌, codes, text_eq, Text, List,
}
use kuperator.Transition.Register.{
  Cache, register_stage, stage_of, in_stage, HoldsWith, is_empty, get, stage_of-register_stage,
}
use kuperator.Transition.Checker.{
  CheckState, Rule, AllLet, in_stage_and_passed, get_state, states_of, get_state_passed_iff,
}

abbrev rules : List Rule
rules =
    (record {
      name = codes "available";
      details =
          (record {
            name = codes "web-0";
            stage = codes "PreCheck";
            passed = true;
            passed_rules = [];
            reject_info = [];
          })
          ∷ [];
    })
    ∷ (record { name = codes "webhook"; details = [] })
    ∷ []

abbrev verdict : CheckState
verdict = record { stage = codes "PreCheck"; states = (codes "PreCheck", true) ∷ ([], true) ∷ [] }

get_state_passed_iff_example :
    (in_stage_and_passed verdict ≡ true) ↔ AllLet (codes "PreCheck") (codes "web-0") rules
unfolding get_state states_of text_eq
get_state_passed_iff_example =
    get_state_passed_iff (codes "PreCheck") (codes "web-0") rules verdict refl refl

-- The objects are truth values, and a stage is registered for those that are true.
abbrev no_stages : Cache Bool
no_stages = record {
  stage_key = [];
  in_stage_func = [];
  stages = [];
  condition_key = [];
  condition = [];
}

abbrev one_stage : Cache Bool
one_stage = register_stage Bool no_stages (codes "PreCheck") (λ b. b)

stage_of-register_stage_example :
    ((j : Text)
      → in_stage Bool one_stage true j ≡ (
          if text_eq (codes "PreCheck") j
          then is_empty Bool (get Bool (codes "PreCheck") no_stages.in_stage_func) && true
          else in_stage Bool no_stages true j))
    × (HoldsWith Bool no_stages (codes "PreCheck") (λ b. b) true (stage_of Bool one_stage true)
        ⊎ ((stage_of Bool one_stage true ≡ [])
            × ((j : Text) → ¬ HoldsWith Bool no_stages (codes "PreCheck") (λ b. b) true j)))
stage_of-register_stage_example =
    stage_of-register_stage Bool no_stages (codes "PreCheck") (λ b. b) true
