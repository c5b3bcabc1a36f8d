-- ===== src/Transition/Checker.antt =====
-- pkg/controllers/podtransitionrule/checker/checker.go: the verdict of all rules on a pod, as their
-- statuses show it. (The messages for people are left out.)
use kuperator.Common.{
  ◌≡◌, refl, ◌↔◌, Bool, true, false, ◌&&◌, Option, none, some, List, [], ◌∷◌, arith, if◌then◌else◌,
  Text, text_eq, text_eq_iff, Result, ok, err, subst,
}
use kuperator.Transition.Detail.{Detail}

-- The stage of each rule for the pod, and whether the rule lets the pod pass.
pub record CheckState : Type 0 where
  pub stage : Text
  pub states : List (Text × Bool)

abbrev all_in_stage : Text → List (Text × Bool) → Bool
all_in_stage stage [] = true
all_in_stage stage ((s, passed) ∷ rest) = text_eq s stage && all_in_stage stage rest

abbrev all_passed : Text → List (Text × Bool) → Bool
all_passed stage [] = true
all_passed stage ((s, passed) ∷ rest) = text_eq s stage && passed && all_passed stage rest

unfoldable pub in_stage : CheckState → Bool
in_stage s = all_in_stage s.stage s.states

unfoldable pub in_stage_and_passed : CheckState → Bool
in_stage_and_passed s = all_passed s.stage s.states

-- A rule with its status.
pub record Rule : Type 0 where
  pub name : Text
  pub details : List Detail

abbrev pub find_detail : Text → List Detail → Option Detail
find_detail item [] = none
find_detail item (d ∷ ds) = if text_eq d.name item then some d else find_detail item ds

-- A rule without a status for the pod is still to be processed: it passes, in no stage.
abbrev state_of : Option Detail → Text × Bool
state_of none = ([], true)
state_of (some d) = (d.stage, d.passed)

unfoldable pub states_of : Text → List Rule → List (Text × Bool)
states_of item [] = []
states_of item (r ∷ rs) = state_of (find_detail item r.details) ∷ states_of item rs

-- From the stage of the item and the rules that List finds for it.
unfoldable pub get_state : Text → Text → Result (List Rule) → Result CheckState
get_state stage item (err e) = err e
get_state stage item (ok rules) = ok (record { stage = stage; states = states_of item rules })

-- The rule has a status for the item, in the stage and passed.
abbrev pub Lets : Text → Text → Rule → Type 0
Lets stage item r =
    (d : Detail) × (find_detail item r.details ≡ some d) × (d.stage ≡ stage) × (d.passed ≡ true)

abbrev pub AllLet : Text → Text → List Rule → Type 0
AllLet stage item [] = Unit {0}
AllLet stage item (r ∷ rs) = Lets stage item r × AllLet stage item rs

passed_by :
    (stage item : Text) (o : Option Detail)
    → text_eq [] stage ≡ false
    → ((text_eq (state_of o).0 stage && (state_of o).1) ≡ true)
      ↔ ((d : Detail) × (o ≡ some d) × (d.stage ≡ stage) × (d.passed ≡ true))
passed_by stage item none nonempty =
    (λ h. absurd (ground (arith, h, nonempty)), λ p. absurd (ground (arith, p.1)))
passed_by stage item (some d) nonempty = (
  λ h. (d, refl, (text_eq_iff d.stage stage).0 (ground (arith, h)), ground (arith, h)),
  λ p. ground (arith, p.1, text_eq_iff p.0.stage stage, p.2, p.3),
)

all_passed_iff :
    (stage item : Text) (rules : List Rule)
    → text_eq [] stage ≡ false
    → (all_passed stage (states_of item rules) ≡ true) ↔ AllLet stage item rules
unfolding states_of
all_passed_iff stage item [] nonempty = (λ h. tt, λ h. refl)
all_passed_iff stage item (r ∷ rs) nonempty =
    let (to, from) = passed_by stage item (find_detail item r.details) nonempty in
    let (to_rest, from_rest) = all_passed_iff stage item rs nonempty in
    (
      λ h. (to (ground (arith, h)), to_rest (ground (arith, h))),
      λ p. ground (arith, from p.0, from_rest p.1),
    )

-- In a stage with a name, the verdict of GetState is in stage and passed exactly if every rule has a
-- status for the pod that is in the stage and passed: a rule that has yet to process the pod holds
-- it back.
pub get_state_passed_iff :
    (stage item : Text) (rules : List Rule) (state : CheckState)
    → text_eq [] stage ≡ false
    → get_state stage item (ok rules) ≡ ok state
    → (in_stage_and_passed state ≡ true) ↔ AllLet stage item rules
unfolding get_state in_stage_and_passed
get_state_passed_iff stage item rules state nonempty e =
    let same : (record { stage = stage; states = states_of item rules }) ≡ state = cc in
    subst (λ s. (all_passed s.stage s.states ≡ true) ↔ AllLet stage item rules) same
      (all_passed_iff stage item rules nonempty)
