-- ===== src/References.antt =====
-- pkg/controllers/utils/refmanager/ref_manager.go: the objects that a controller owns by their owner
-- references. The library's SetControllerReference and the client's Update are parameters. (The
-- schema is not nil. The owner is as it was given, so the check that is made once is made each time.)
pub mod Claimed
pub mod Examples
use kuperator.Common.{
  Bool, true, false, not, ◌&&◌, ◌||◌, Option, none, some, List, [], ◌∷◌, if◌then◌else◌, is_some,
  Text, text_eq, Result, ok, err, Error, not_found, in_deletion,
}
use kuperator.Pod.{Labels}

pub record OwnerReference : Type 0 where
  pub uid : Text
  pub is_controller : Bool

pub record Object : Type 0 where
  pub labels : Labels
  pub is_deleting : Bool
  pub owner_references : List OwnerReference

pub record RefManager : Type 0 where
  pub update : Object → Object × Option Error
  pub selector : Labels → Bool
  pub owner_uid : Text
  pub owner_is_deleting : Bool
  pub set_controller_reference : Object → Result Object

-- metav1.GetControllerOf
abbrev pub controller_of : List OwnerReference → Option OwnerReference
controller_of [] = none
controller_of (r ∷ rs) = if r.is_controller then some r else controller_of rs

abbrev pub can_adopt : RefManager → Option Error
can_adopt m = if m.owner_is_deleting then some in_deletion else none

abbrev pub set_reference : RefManager → Object → Result Object → Object × Option Error
set_reference m o (err e) = (o, some e)
set_reference m o (ok owned) = m.update owned

abbrev pub adopt_if : RefManager → Object → Option Error → Object × Option Error
adopt_if m o (some e) = (o, some e)
adopt_if m o none = set_reference m o (m.set_controller_reference o)

-- The object as it is left in memory, and the error.
unfoldable pub adopt : RefManager → Object → Object × Option Error
adopt m o = adopt_if m o (can_adopt m)

abbrev pub remove_first : Text → List OwnerReference → List OwnerReference
remove_first uid [] = []
remove_first uid (r ∷ rs) = if text_eq r.uid uid then rs else r ∷ remove_first uid rs

abbrev has_owner : Text → List OwnerReference → Bool
has_owner uid [] = false
has_owner uid (r ∷ rs) = text_eq r.uid uid || has_owner uid rs

unfoldable pub release : RefManager → Object → Object × Option Error
release m o =
    if has_owner m.owner_uid o.owner_references
    then m.update (record o { owner_references = remove_first m.owner_uid o.owner_references })
    else (o, none)

-- The object, whether the owner owns it now, and the error.
abbrev pub Claim : Type 0
Claim = Object × Bool × Option Error

abbrev pub is_not_found : Error → Bool
is_not_found not_found = true
is_not_found _ = false

-- The claim after an attempt; an object that is gone is no error.
abbrev pub attempted : Bool → Object × Option Error → Claim
attempted owned (o, none) = (o, owned, none)
attempted owned (o, some e) = (o, false, if is_not_found e then none else some e)

abbrev pub claim_controlled : RefManager → (Object → Bool) → Object → OwnerReference → Claim
claim_controlled m match o ref =
    if not (text_eq ref.uid m.owner_uid)
    then (o, false, none)
    else if match o
    then (o, true, none)
    else if m.owner_is_deleting
    then (o, false, none)
    else attempted false (release m o)

abbrev pub claim_orphan : RefManager → (Object → Bool) → Object → Claim
claim_orphan m match o =
    if m.owner_is_deleting || not (match o)
    then (o, false, none)
    else if o.is_deleting
    then (o, false, none)
    else attempted true (adopt m o)

abbrev pub claim_by : RefManager → (Object → Bool) → Object → Option OwnerReference → Claim
claim_by m match o (some ref) = claim_controlled m match o ref
claim_by m match o none = claim_orphan m match o

unfoldable pub claim_object : RefManager → (Object → Bool) → Object → Claim
claim_object m match o = claim_by m match o (controller_of o.owner_references)

abbrev pub is_selected : RefManager → Object → Bool
is_selected m o = m.selector o.labels

-- The objects as they are left, those that are claimed, and the errors.
abbrev pub Claims : Type 0
Claims = List Object × List Object × List Error

abbrev pub add_claim : Claim → Claims → Claims
add_claim (o, owned, some e) (objects, claimed, errors) = (o ∷ objects, claimed, e ∷ errors)
add_claim (o, true, none) (objects, claimed, errors) = (o ∷ objects, o ∷ claimed, errors)
add_claim (o, false, none) (objects, claimed, errors) = (o ∷ objects, claimed, errors)

unfoldable pub claim_owned : RefManager → List Object → Claims
claim_owned m [] = ([], [], [])
claim_owned m (o ∷ os) = add_claim (claim_object m (is_selected m) o) (claim_owned m os)
