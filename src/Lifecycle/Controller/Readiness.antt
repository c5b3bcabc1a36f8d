-- ===== src/Lifecycle/Controller/Readiness.antt =====
-- setServiceReadiness: the condition of the readiness gate after it.
use kuperator.Common.{
  ℕ, zero, suc, ◌+◌, ◌≡◌, refl, ◌⊎◌, inl, inr, ◌∙◌, Bool, true, false, Option, none, some, List, [],
  ◌∷◌, ◌++◌, arith, if◌then◌else◌, Text, text_eq, text_eq_refl, length, Bool-cases,
}
use kuperator.Pod.{
  Names, Pod, Condition, Status, condition_true, condition_false, condition_unknown, contains,
}
use kuperator.Lifecycle.Controller.{
  last_index, condition_at, set_condition_at, status_of, same_status, with_status, new_condition,
  set_conditions, update_condition, set_gate, set_service_readiness,
}

last_index-set :
    (kind : Text) (i j : ℕ) (f : Option ℕ) (c d : Condition) (cs : List Condition)
    → condition_at i cs ≡ some d
    → c.kind ≡ d.kind
    → last_index kind j f (set_condition_at i c cs) ≡ last_index kind j f cs
unfolding last_index condition_at set_condition_at
last_index-set kind i j f c d [] at same = refl
last_index-set kind zero j f c d (x ∷ cs) at same = let e : x ≡ d = cc in rw (same, e) refl
last_index-set kind (suc i) j f c d (x ∷ cs) at same =
    last_index-set kind i (suc j) (if text_eq x.kind kind then some j else f) c d cs at same

condition_at-set :
    (i : ℕ) (c d : Condition) (cs : List Condition)
    → condition_at i cs ≡ some d
    → condition_at i (set_condition_at i c cs) ≡ some c
unfolding condition_at set_condition_at
condition_at-set i c d [] at = absurd (ground arith)
condition_at-set zero c d (x ∷ cs) at = refl
condition_at-set (suc i) c d (x ∷ cs) at = condition_at-set i c d cs at

last_index-append :
    (j : ℕ) (f : Option ℕ) (c : Condition) (cs : List Condition)
    → last_index c.kind j f (cs ++ (c ∷ [])) ≡ some (j + length cs)
unfolding last_index
last_index-append j f c [] = rw (text_eq_refl c.kind) (ground arith)
last_index-append j f c (x ∷ cs) =
    last_index-append (suc j) (if text_eq x.kind c.kind then some j else f) c cs ∙ ground arith

condition_at-append :
    (c : Condition) (cs : List Condition) → condition_at (length cs) (cs ++ (c ∷ [])) ≡ some c
unfolding condition_at
condition_at-append c [] = refl
condition_at-append c (x ∷ cs) = condition_at-append c cs

last_index-condition_at :
    (kind : Text) (i j : ℕ) (f : Option ℕ) (cs : List Condition)
    → last_index kind j f cs ≡ some i
    → (f ≡ some i) ⊎ ((n : ℕ) × (i ≡ j + n) × (d : Condition) × (condition_at n cs ≡ some d))
unfolding last_index condition_at
last_index-condition_at kind i j f [] h = inl h
last_index-condition_at kind i j f (x ∷ cs) h =
    elim (last_index-condition_at kind i (suc j) (if text_eq x.kind kind then some j else f) cs h) [
      | inr (n, e, d, at) ↦ inr (suc n, omega (arith, e), d, at)
      | inl e ↦ elim (Bool-cases (text_eq x.kind kind)) [
        | inl same ↦ inr (0, ground (arith, e, same), x, refl)
        | inr other ↦ inl (ground (arith, e, other))
      ]
    ]

-- The status of the last condition for the gate.
abbrev pub status_at : Option Condition → Option Status
status_at none = none
status_at (some c) = some c.status

abbrev readiness_at : List Condition → Option ℕ → Option Status
readiness_at conditions none = none
readiness_at conditions (some i) = status_at (condition_at i conditions)

abbrev pub service_readiness : Names → Pod → Option Status
service_readiness N pod =
    readiness_at pod.conditions (last_index N.service_ready_gate 0 none pod.conditions)

same_status_iff : (a b : Status) → same_status a b ≡ true → a ≡ b
same_status_iff condition_true condition_true h = refl
same_status_iff condition_true condition_false h = absurd (ground arith)
same_status_iff condition_true condition_unknown h = absurd (ground arith)
same_status_iff condition_false condition_true h = absurd (ground arith)
same_status_iff condition_false condition_false h = refl
same_status_iff condition_false condition_unknown h = absurd (ground arith)
same_status_iff condition_unknown condition_true h = absurd (ground arith)
same_status_iff condition_unknown condition_false h = absurd (ground arith)
same_status_iff condition_unknown condition_unknown h = refl

same_status_of : (b : Bool) → same_status (status_of b) (status_of b) ≡ true
same_status_of true = refl
same_status_of false = refl

module _ (N : Names) (later : ℕ) (is_ready : Bool) where
  -- A pod whose gate has the wanted status needs no update.
  abbrev Settled : Pod → Type 0
  Settled pod =
      (service_readiness N pod ≡ some (status_of is_ready))
      × ((set_service_readiness N later pod is_ready).1 ≡ false)

  Settled-by :
      (pod : Pod) (i : ℕ) (c : Condition)
      → contains N.service_ready_gate pod.readiness_gates ≡ true
      → last_index N.service_ready_gate 0 none pod.conditions ≡ some i
      → condition_at i pod.conditions ≡ some c
      → c.status ≡ status_of is_ready
      → Settled pod
  unfolding set_service_readiness
  Settled-by pod i c gate index at status = (
    rw (index, at) (ground (arith, status)),
    rw (gate, index, at, status, same_status_of is_ready) refl,
  )

  Settled-condition :
      (time : ℕ) (pod : Pod) (i : ℕ) (o : Option Condition)
      → contains N.service_ready_gate pod.readiness_gates ≡ true
      → last_index N.service_ready_gate 0 none pod.conditions ≡ some i
      → condition_at i pod.conditions ≡ o
      → Settled (update_condition time pod is_ready i o).0
  Settled-condition time pod i none gate index at =
      elim (last_index-condition_at N.service_ready_gate i 0 none pod.conditions index) [
        | inl e ↦ absurd (ground arith)
        | inr (n, e, d, h) ↦ absurd (ground (arith, e, h, at))
      ]
  Settled-condition time pod i (some c) gate index at =
      elim (Bool-cases (same_status c.status (status_of is_ready))) [
        | inl same ↦
            rw same (
              Settled-by pod i c gate index at (same_status_iff c.status (status_of is_ready) same))
        | inr other ↦ rw other (
            Settled-by
              (set_conditions pod (set_condition_at i (with_status time is_ready c) pod.conditions))
              i (with_status time is_ready c) gate
              (last_index-set N.service_ready_gate i 0 none (with_status time is_ready c) c
                  pod.conditions at refl
                ∙ index)
              (condition_at-set i (with_status time is_ready c) c pod.conditions at) refl)
      ]

  Settled-gate :
      (time : ℕ) (pod : Pod) (o : Option ℕ)
      → contains N.service_ready_gate pod.readiness_gates ≡ true
      → last_index N.service_ready_gate 0 none pod.conditions ≡ o
      → Settled (set_gate N time pod is_ready o).0
  Settled-gate time pod none gate index =
      let c = new_condition N time is_ready in
      Settled-by (set_conditions pod (pod.conditions ++ (c ∷ []))) (length pod.conditions) c gate
        (last_index-append 0 none c pod.conditions ∙ ground arith)
        (condition_at-append c pod.conditions) refl
  Settled-gate time pod (some i) gate index =
      Settled-condition time pod i (condition_at i pod.conditions) gate index refl

  -- On a pod with the readiness gate, setServiceReadiness leaves the wanted status in the gate's
  -- condition, and a second call has nothing to write.
  pub set_service_readiness-Settled :
      (time : ℕ) (pod : Pod)
      → contains N.service_ready_gate pod.readiness_gates ≡ true
      → let pod' = (set_service_readiness N time pod is_ready).0 in
        (service_readiness N pod' ≡ some (status_of is_ready))
        × ((set_service_readiness N later pod' is_ready).1 ≡ false)
  unfolding set_service_readiness
  set_service_readiness-Settled time pod gate =
      rw gate
        (Settled-gate time pod (last_index N.service_ready_gate 0 none pod.conditions) gate refl)
