-- ===== src/References/Claimed.antt =====
-- pkg/controllers/utils/refmanager/ref_manager.go: what ClaimOwned claims and what it leaves alone.
use kuperator.Common.{
  ◌≡◌, refl, ap, ◌∙◌, sym, subst, ◌⊎◌, inl, inr, Bool, true, false, not, ◌&&◌, ◌||◌, Option, none,
  some, List, [], ◌∷◌, arith, if◌then◌else◌, if-cases, if-both, is_some, count, length, ◌≤◌, Text,
  text_eq, Result, ok, err, Error, in_deletion,
}
use kuperator.References.{
  OwnerReference, Object, RefManager, controller_of, set_reference, adopt_if, adopt, release, Claim,
  attempted, claim_by, claim_object, is_selected, Claims, add_claim, claim_owned,
}

abbrev is_owner : Text → Option OwnerReference → Bool
is_owner uid none = false
is_owner uid (some ref) = text_eq ref.uid uid

-- The owner controls the object.
abbrev pub is_controlled : RefManager → Object → Bool
is_controlled m o = is_owner m.owner_uid (controller_of o.owner_references)

abbrev has_other : Text → Option OwnerReference → Bool
has_other uid none = false
has_other uid (some ref) = not (text_eq ref.uid uid)

-- Another owner controls the object.
abbrev pub is_foreign : RefManager → Object → Bool
is_foreign m o = has_other m.owner_uid (controller_of o.owner_references)

-- What is relied on: SetControllerReference makes the owner the controller, and neither it nor an
-- Update that succeeds changes the labels; the latter keeps the owner references.
pub record IsFaithful (m : RefManager) : Type 0 where
  pub set_controls : (o p : Object) → m.set_controller_reference o ≡ ok p → is_controlled m p ≡ true
  pub set_labels : (o p : Object) → m.set_controller_reference o ≡ ok p → p.labels ≡ o.labels
  pub update_owners :
      (o p : Object) → m.update o ≡ (p, none) → p.owner_references ≡ o.owner_references
  pub update_labels : (o p : Object) → m.update o ≡ (p, none) → p.labels ≡ o.labels

-- The owner controls the object, and selects it.
abbrev pub is_owned : RefManager → Object → Bool
is_owned m o = is_controlled m o && is_selected m o

-- A claimed object is owned. One that is owned is claimed and left as it is; one that another owner
-- controls is neither claimed nor changed, and while the owner is deleted none is changed.
abbrev pub IsClaim : RefManager → Object → Claim → Type 0
IsClaim m o c =
    ((c.1 && not (is_owned m c.0)) ≡ false)
    × ((is_owned m o ≡ false) ⊎ (c ≡ (o, true, none)))
    × ((is_foreign m o ≡ false) ⊎ (c ≡ (o, false, none)))
    × ((m.owner_is_deleting ≡ false) ⊎ (c.0 ≡ o))

abbrev AllOwned : RefManager → List Object → Type 0
AllOwned m [] = Unit {0}
AllOwned m (o ∷ os) = (is_owned m o ≡ true) × AllOwned m os

-- The object may be changed: neither owned nor foreign, and the owner is not deleted.
abbrev pub may_change : RefManager → Object → Bool
may_change m o = not (is_owned m o) && (not (is_foreign m o) && not m.owner_is_deleting)

abbrev Changes : RefManager → List Object → List Object → Type 0
Changes m [] [] = Unit {0}
Changes m (o ∷ os) (p ∷ ps) = ((may_change m o ≡ true) ⊎ (p ≡ o)) × Changes m os ps
Changes m _ _ = true ≡ false

-- All claimed objects are owned, and they are at least as many as were owned before. The objects
-- are the given ones, and only those that may be changed are.
abbrev pub AreClaims : RefManager → List Object → Claims → Type 0
AreClaims m os r = AllOwned m r.1 × (count (is_owned m) os ≤ length r.1) × Changes m os r.0

module _ (m : RefManager) (faithful : IsFaithful m) where
  -- A claim that owns nothing and changes nothing.
  refused : (o : Object) → is_owned m o ≡ false → IsClaim m o (o, false, none)
  refused o not_owned = (refl, inl not_owned, inr refl, inr refl)

  attempted-false :
      (o : Object) (r : Object × Option Error)
      → is_owned m o ≡ false
      → is_foreign m o ≡ false
      → m.owner_is_deleting ≡ false
      → IsClaim m o (attempted false r)
  attempted-false o (p, none) a b c = (refl, inl a, inl b, inl c)
  attempted-false o (p, some e) a b c = (refl, inl a, inl b, inl c)

  updated-is_owned :
      (o p q : Object)
      → m.set_controller_reference o ≡ ok p
      → m.update p ≡ (q, none)
      → is_selected m o ≡ true
      → is_owned m q ≡ true
  updated-is_owned o p q set wrote selected =
      let owners = faithful.update_owners p q wrote in
      let labels = faithful.update_labels p q wrote ∙ faithful.set_labels o p set in
      let controlled : is_controlled m q ≡ true =
        ap (λ rs. is_owner m.owner_uid (controller_of rs)) owners ∙ faithful.set_controls o p set in
      ground (arith, controlled, ap m.selector labels, selected)

  written :
      (o p : Object) (r : Object × Option Error)
      → m.set_controller_reference o ≡ ok p
      → m.update p ≡ r
      → is_selected m o ≡ true
      → is_owned m o ≡ false
      → is_foreign m o ≡ false
      → m.owner_is_deleting ≡ false
      → IsClaim m o (attempted true r)
  written o p (q, none) set wrote selected a b c =
      (ground (arith, updated-is_owned o p q set wrote selected), inl a, inl b, inl c)
  written o p (q, some e) set wrote selected a b c = (refl, inl a, inl b, inl c)

  set-IsClaim :
      (o : Object) (r : Result Object)
      → m.set_controller_reference o ≡ r
      → is_selected m o ≡ true
      → is_owned m o ≡ false
      → is_foreign m o ≡ false
      → m.owner_is_deleting ≡ false
      → IsClaim m o (attempted true (set_reference m o r))
  set-IsClaim o (err e) set selected a b c = (refl, inl a, inl b, inl c)
  set-IsClaim o (ok p) set selected a b c = written o p (m.update p) set refl selected a b c

  adopt-IsClaim :
      (o : Object)
      → is_selected m o ≡ true
      → is_owned m o ≡ false
      → is_foreign m o ≡ false
      → m.owner_is_deleting ≡ false
      → IsClaim m o (attempted true (adopt m o))
  unfolding adopt
  adopt-IsClaim o selected a b c =
      subst
        (λ d. IsClaim m o (attempted true (adopt_if m o (if d then some in_deletion else none))))
        (sym c) (set-IsClaim o (m.set_controller_reference o) refl selected a b c)

  claim_by-IsClaim :
      (o : Object) (c : Option OwnerReference)
      → controller_of o.owner_references ≡ c
      → IsClaim m o (claim_by m (is_selected m) o c)
  claim_by-IsClaim o none at =
      let free : is_controlled m o ≡ false = ap (is_owner m.owner_uid) at in
      let native : is_foreign m o ≡ false = ap (has_other m.owner_uid) at in
      let idle : is_owned m o ≡ false = ground (arith, free) in
      if-cases (IsClaim m o) (m.owner_is_deleting || not (is_selected m o)) (λ e. refused o idle)
        (λ wanted.
          if-both (IsClaim m o) o.is_deleting (refused o idle)
            (adopt-IsClaim o (ground (arith, wanted)) idle native (ground (arith, wanted))))
  claim_by-IsClaim o (some ref) at =
      let ours : is_controlled m o ≡ text_eq ref.uid m.owner_uid = ap (is_owner m.owner_uid) at in
      let theirs : is_foreign m o ≡ not (text_eq ref.uid m.owner_uid) =
        ap (has_other m.owner_uid) at in
      if-cases (IsClaim m o) (not (text_eq ref.uid m.owner_uid))
        (λ other. refused o (ground (arith, ours, other)))
        (λ own.
          let native : is_foreign m o ≡ false = ground (arith, theirs, own) in
          if-cases (IsClaim m o) (is_selected m o)
            (λ chosen. (ground (arith, ours, own, chosen), inr refl, inl native, inr refl))
            (λ left.
              let idle : is_owned m o ≡ false = ground (arith, left) in
              if-cases (IsClaim m o) m.owner_is_deleting (λ e. refused o idle)
                (λ alive. attempted-false o (release m o) idle native alive)))

  claim_object-IsClaim : (o : Object) → IsClaim m o (claim_object m (is_selected m) o)
  unfolding claim_object
  claim_object-IsClaim o = claim_by-IsClaim o (controller_of o.owner_references) refl

  changed : (o : Object) (c : Claim) → IsClaim m o c → (may_change m o ≡ true) ⊎ (c.0 ≡ o)
  changed o c h = elim h.1 [
    | inr same ↦ inr (ap (λ x. x.0) same)
    | inl idle ↦ elim h.2 [
      | inr same ↦ inr (ap (λ x. x.0) same)
      | inl native ↦ elim h.3 [
        | inr same ↦ inr same
        | inl alive ↦ inl (ground (arith, idle, native, alive))
      ]
    ]
  ]

  -- A claim that fails, or is refused, is of an object that was not owned.
  unclaimed-idle :
      (o : Object) (c : Claim)
      → (is_owned m o ≡ false) ⊎ (c ≡ (o, true, none))
      → (c.1 && not (is_some c.2)) ≡ false
      → is_owned m o ≡ false
  unclaimed-idle o c (inl idle) u = idle
  unclaimed-idle o c (inr same) u =
      ground (arith, ap (λ x. x.1) same, ap (λ x. is_some x.2) same, u)

  add_claim-AreClaims :
      (o : Object) (os : List Object) (c : Claim) (r : Claims)
      → IsClaim m o c
      → AreClaims m os r
      → AreClaims m (o ∷ os) (add_claim c r)
  add_claim-AreClaims o os (p, owned, some e) r h k = (
    k.0,
    ground (arith, unclaimed-idle o (p, owned, some e) h.1 (ground arith), k.1),
    (changed o (p, owned, some e) h, k.2),
  )
  add_claim-AreClaims o os (p, true, none) r h k =
      ((ground (arith, h.0), k.0), ground (arith, k.1), (changed o (p, true, none) h, k.2))
  add_claim-AreClaims o os (p, false, none) r h k = (
    k.0,
    ground (arith, unclaimed-idle o (p, false, none) h.1 refl, k.1),
    (changed o (p, false, none) h, k.2),
  )

  -- ClaimOwned returns only objects that the owner controls and selects, at least as many as it
  -- controlled and selected before. It leaves those and the objects that another owner controls as
  -- they are, and while the owner is deleted it leaves all as they are.
  pub claim_owned-AreClaims : (os : List Object) → AreClaims m os (claim_owned m os)
  unfolding claim_owned
  claim_owned-AreClaims [] = (tt, omega arith, tt)
  claim_owned-AreClaims (o ∷ os) =
      add_claim-AreClaims o os (claim_object m (is_selected m) o) (claim_owned m os)
        (claim_object-IsClaim o) (claim_owned-AreClaims os)
