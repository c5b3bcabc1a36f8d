-- ===== src/Transition/Details/Merge.antt =====
-- pkg/controllers/podtransitionrule/podtransitionrule_controller.go: what updateDetail adds.
use kuperator.Common.{
  ◌≡◌, refl, subst, Bool, true, false, not, ◌&&◌, ◌||◌, Option, none, some, List, [], ◌∷◌, arith,
  if◌then◌else◌, is_some, Bool-cases, inl, inr, Text, text_eq, text_eq_iff, Dict, lookup, insert,
  lookup-insert, has,
}
use kuperator.Pod.{contains}
use kuperator.Pod.Sets.{contains-append}
use kuperator.Transition.Detail.{RejectInfo, Detail}
use kuperator.Transition.Process.Step.{passes_of}
use kuperator.Transition.Details.{no_infos, with_info, merged_detail, add_entry, add_entries}

abbrev rejected_in : Option Detail → Bool
rejected_in none = false
rejected_in (some d) = not (no_infos d.reject_info)

abbrev passed_in : Option Detail → Bool
passed_in none = true
passed_in (some d) = d.passed

abbrev pub rules_in : Option Detail → List Text
rules_in none = []
rules_in (some d) = d.passed_rules

-- Of the status of a pod: whether it has a rejection, whether it lets the pod pass, and the rules.
abbrev pub is_rejected : Text → Dict Detail → Bool
is_rejected k details = rejected_in (lookup k details)

abbrev pub is_passed : Text → Dict Detail → Bool
is_passed k details = passed_in (lookup k details)

abbrev pub rules_at : Text → Dict Detail → List Text
rules_at k details = rules_in (lookup k details)

-- A status agrees with its rejections.
abbrev pub Agrees : Text → Dict Detail → Type 0
Agrees k details = is_passed k details ≡ not (is_rejected k details)

-- What an entry for j with some rules, rejected or not, makes of the status of k.
abbrev pub Adds : Bool → (Text → Bool) → Bool → Text → Dict Detail → Dict Detail → Type 0
Adds rejects rule present k details after =
    (is_rejected k after ≡ (is_rejected k details || rejects))
    × ((r : Text)
        → (contains r (rules_at k details) || rule r) ≡ true
        → contains r (rules_at k after) ≡ true)
    × (Agrees k details → Agrees k after)
    × (has k after ≡ (present || has k details))

no_infos-with_info :
    (infos : List RejectInfo) (o : Option RejectInfo)
    → no_infos (with_info infos o) ≡ (no_infos infos && not (is_some o))
no_infos-with_info [] none = refl
no_infos-with_info (i ∷ infos) none = refl
no_infos-with_info [] (some j) = refl
no_infos-with_info (i ∷ infos) (some j) = refl

merged_detail-rejected :
    (k stage : Text) (rules : List Text) (rejected : Option RejectInfo) (o : Option Detail)
    → rejected_in (some (merged_detail k stage rules rejected o))
      ≡ (rejected_in o || is_some rejected)
merged_detail-rejected k stage rules rejected none = ground (arith, no_infos-with_info [] rejected)
merged_detail-rejected k stage rules rejected (some d) =
    ground (arith, no_infos-with_info d.reject_info rejected)

merged_detail-rules :
    (k stage : Text) (rules : List Text) (rejected : Option RejectInfo) (o : Option Detail)
    (r : Text)
    → contains r (merged_detail k stage rules rejected o).passed_rules
      ≡ (contains r (rules_in o) || contains r rules)
unfolding contains
merged_detail-rules k stage rules rejected none r = refl
merged_detail-rules k stage rules rejected (some d) r = contains-append r d.passed_rules rules

merged_detail-passed :
    (k stage : Text) (rules : List Text) (rejected : Option RejectInfo) (o : Option Detail)
    → (merged_detail k stage rules rejected o).passed
      ≡ not (rejected_in (some (merged_detail k stage rules rejected o)))
merged_detail-passed k stage rules rejected o = ground arith

add_entry-lookup :
    (rejected : Dict RejectInfo) (stage j : Text) (rules : List Text) (details : Dict Detail)
    (k : Text)
    → lookup k (add_entry rejected stage j rules details) ≡ (
        if text_eq j k
        then some (merged_detail k stage rules (lookup k rejected) (lookup k details))
        else lookup k details)
unfolding add_entry
add_entry-lookup rejected stage j rules details k = elim (Bool-cases (text_eq j k)) [
  | inl on ↦
      let P : Text → Type 0 = λ x.
        lookup x
          (insert j (merged_detail j stage rules (lookup j rejected) (lookup j details)) details)
        ≡ some (merged_detail x stage rules (lookup x rejected) (lookup x details)) in
      rw on (
        subst P ((text_eq_iff j k).0 on) (
          rw
            (
              lookup-insert j j (merged_detail j stage rules (lookup j rejected) (lookup j details))
                  details,
              (text_eq_iff j j).1 refl,
            )
            refl))
  | inr off ↦
      rw
        (lookup-insert j k (merged_detail j stage rules (lookup j rejected) (lookup j details))
          details)
        (rw off refl)
]

add_entry-Adds :
    (rejected : Dict RejectInfo) (stage j : Text) (rules : List Text) (details : Dict Detail)
    (k : Text)
    → Adds
        (text_eq j k && has k rejected)
        (λ r. text_eq j k && contains r rules)
        (text_eq j k)
        k
        details
        (add_entry rejected stage j rules details)
add_entry-Adds rejected stage j rules details k =
    let at_k = add_entry-lookup rejected stage j rules details k in
    rw at_k (elim (Bool-cases (text_eq j k)) [
      | inl on ↦
          let o = lookup k details in
          let i = lookup k rejected in
          rw on (
            ground (arith, merged_detail-rejected k stage rules i o),
            λ r h. ground (arith, h, merged_detail-rules k stage rules i o r),
            λ h. merged_detail-passed k stage rules i o,
            refl,
          )
      | inr off ↦ rw off (ground arith, λ r h. ground (arith, h), λ h. h, refl)
    ])

pub add_entries-Adds :
    (rejected : Dict RejectInfo) (stage : Text) (entries : Dict (List Text)) (details : Dict Detail)
    (k : Text)
    → Adds
        (has k entries && has k rejected)
        (λ r. contains r (passes_of k entries))
        (has k entries)
        k
        details
        (add_entries rejected stage entries details)
unfolding add_entries lookup contains
add_entries-Adds rejected stage [] details k =
    (ground arith, λ r h. ground (arith, h), λ h. h, refl)
add_entries-Adds rejected stage ((j, rules) ∷ entries) details k =
    let one = add_entry-Adds rejected stage j rules details k in
    let rest =
      add_entries-Adds rejected stage entries (add_entry rejected stage j rules details) k in
    (
      ground (arith, one.0, rest.0),
      λ r h. rest.1 r (ground (arith, h, one.1 r)),
      λ h. rest.2 (one.2 h),
      ground (arith, one.3, rest.3),
    )
