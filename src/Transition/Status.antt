-- ===== src/Transition/Status.antt =====
-- pkg/controllers/podtransitionrule/podtransitionrule_controller.go: the status that Reconcile writes,
-- which the lifecycle controller reads through the checker (checker/checker.go).
pub mod Checked
use kuperator.Common.{
  sort_by, ℕ, Bool, true, false, Option, none, some, List, [], ◌∷◌, if◌then◌else◌, ltb, ◌==◌, Text,
  Dict, lookup, Outcome, returns, panics,
}
use kuperator.Pod.{Pod}
use kuperator.Transition.Detail.{Detail}
use kuperator.Transition.Details.{Merged}
use kuperator.Transition.Checker.{Rule}

-- s < t, of strings.
unfoldable pub text_less : Text → Text → Bool
text_less s [] = false
text_less [] (d ∷ t) = true
text_less (c ∷ s) (d ∷ t) = if c == d then text_less s t else ltb c d

-- sort.Strings
unfoldable pub sort_strings : List Text → List Text
sort_strings = sort_by text_less

unfoldable pub keys_of : Dict Detail → List Text
keys_of [] = []
keys_of ((k, d) ∷ details) = k ∷ keys_of details

abbrev pub and_detail : Option Detail → List Detail → List Detail
and_detail none rest = rest
and_detail (some d) rest = d ∷ rest

-- (A key is always found.)
unfoldable pub detail_list : List Text → Dict Detail → List Detail
detail_list [] details = []
detail_list (k ∷ ks) details = and_detail (lookup k details) (detail_list ks details)

-- The details of the new status.
unfoldable pub new_details : Dict Detail → List Detail
unfolding sort_strings keys_of detail_list
new_details details = detail_list (sort_strings (keys_of details)) details

-- A rule with the status that the controller writes for it.
abbrev pub with_status : Text → Merged → Rule
with_status name m = record { name = name; details = new_details m.details }
