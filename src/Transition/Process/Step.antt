-- ===== src/Transition/Process/Step.antt =====
-- pkg/controllers/podtransitionrule/processor/processor.go: one turn of the loop over the rules.
use kuperator.Common.{
  ◌≡◌, refl, subst, true, ◌&&◌, ◌||◌, Option, none, some, List, [], ◌∷◌, arith, Option-cases,
  Bool-cases, inl, inr, Text, text_eq, text_eq_iff, Dict, lookup, insert, lookup-insert, has,
}
use kuperator.Pod.{contains, set_insert}
use kuperator.Pod.Sets.{contains-set_insert, has-insert}
use kuperator.Transition.Detail.{Reason, RejectInfo}
use kuperator.Transition.Process.{record_passes, record_rejects}

abbrev or_nil : Option (List Text) → List Text
or_nil none = []
or_nil (some rules) = rules

-- The rules that a pod is recorded to pass.
abbrev pub passes_of : Text → Dict (List Text) → List Text
passes_of k passes = or_nil (lookup k passes)

pub has-record_rejects :
    (rule : Text) (rejects : Dict Reason) (infos : Dict RejectInfo) (k : Text)
    → has k (record_rejects rule rejects infos) ≡ (has k rejects || has k infos)
unfolding record_rejects lookup
has-record_rejects rule [] infos k = refl
has-record_rejects rule ((j, reason) ∷ rejects) infos k =
    let info : RejectInfo = record { rule_name = rule; reason = reason } in
    ground
      (arith, has-record_rejects rule rejects (insert j info infos) k, has-insert k j info infos)

-- What record_passes makes of a map that has all the pods.
abbrev pub Recorded : Text → List Text → Dict (List Text) → Dict (List Text) → Type 0
Recorded rule ks passes m =
    (k : Text)
    → (has k m ≡ has k passes)
      × ((r : Text)
          → contains r (passes_of k m)
            ≡ (contains r (passes_of k passes) || (contains k ks && text_eq rule r)))

Recorded-step :
    (rule j : Text) (ks : List Text) (rules : List Text) (passes m : Dict (List Text))
    → lookup j passes ≡ some rules
    → Recorded rule ks (insert j (set_insert rule rules) passes) m
    → Recorded rule (j ∷ ks) passes m
unfolding contains
Recorded-step rule j ks rules passes m there rest k = elim (Bool-cases (text_eq j k)) [
  | inl on ↦
      let here : lookup k passes ≡ some rules =
        subst (λ x. lookup x passes ≡ some rules) ((text_eq_iff j k).0 on) there in
      let after : lookup k (insert j (set_insert rule rules) passes)
          ≡ some (set_insert rule rules) =
        ground (arith, on, lookup-insert j k (set_insert rule rules) passes) in
      (
        ground (arith, (rest k).0, here, after),
        λ r.
            let recorded : contains r (passes_of k m)
                ≡ (contains r (set_insert rule rules) || (contains k ks && text_eq rule r)) =
              subst
                (λ o.
                  contains r (passes_of k m)
                  ≡ (contains r (or_nil o) || (contains k ks && text_eq rule r)))
                after ((rest k).1 r) in
            rw here (ground (arith, on, recorded, contains-set_insert r rule rules)),
      )
  | inr off ↦
      let after : lookup k (insert j (set_insert rule rules) passes) ≡ lookup k passes =
        ground (arith, off, lookup-insert j k (set_insert rule rules) passes) in
      (
        ground (arith, (rest k).0, after),
        λ r.
            let recorded : contains r (passes_of k m)
                ≡ (contains r (passes_of k passes) || (contains k ks && text_eq rule r)) =
              subst
                (λ o.
                  contains r (passes_of k m)
                  ≡ (contains r (or_nil o) || (contains k ks && text_eq rule r)))
                after ((rest k).1 r) in
            ground (arith, off, recorded),
      )
]

abbrev pub AreKnown : List Text → Dict (List Text) → Type 0
AreKnown ks passes = (k : Text) → contains k ks ≡ true → has k passes ≡ true

AreKnown-step :
    (j : Text) (v : List Text) (ks : List Text) (passes : Dict (List Text))
    → AreKnown (j ∷ ks) passes
    → AreKnown ks (insert j v passes)
unfolding contains
AreKnown-step j v ks passes known k m = ground (arith, m, known k, has-insert k j v passes)

pub record_passes-Recorded :
    (rule : Text) (ks : List Text) (passes : Dict (List Text))
    → AreKnown ks passes
    → (m : Dict (List Text)) × (record_passes rule ks passes ≡ some m) × Recorded rule ks passes m
unfolding record_passes contains
record_passes-Recorded rule [] passes known = (passes, refl, λ k. (refl, λ r. ground arith))
record_passes-Recorded rule (j ∷ ks) passes known = elim (Option-cases (lookup j passes)) [
  | inl missing ↦ absurd (ground (arith, missing, known j, (text_eq_iff j j).1 refl))
  | inr (rules, there) ↦
      let (m, e, recorded) =
        record_passes-Recorded rule ks (insert j (set_insert rule rules) passes)
          (AreKnown-step j (set_insert rule rules) ks passes known) in
      (m, rw (there, record_passes) e, Recorded-step rule j ks rules passes m there recorded)
]
