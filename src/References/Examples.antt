-- ===== src/References/Examples.antt =====
-- An owner among three objects: its own, an orphan, and one of another owner. The cluster stores
-- what it is given, and SetControllerReference puts the owner's reference in front.
use kuperator.Common.{
  ◌≡◌, refl, true, false, none, List, [], ◌∷◌, ok, codes, text_eq, ap, sym, subst, Result,
}
use kuperator.References.{OwnerReference, Object, RefManager, claim_owned}
use kuperator.References.Claimed.{is_controlled, IsFaithful, AreClaims, claim_owned-AreClaims}

abbrev ours : OwnerReference
ours = record { uid = codes "7"; is_controller = true }

abbrev own_it : Object → Object
own_it o = record o { owner_references = ours ∷ o.owner_references }

abbrev manager : RefManager
manager = record {
  update = λ o. (o, none);
  selector = λ labels. true;
  owner_uid = codes "7";
  owner_is_deleting = false;
  set_controller_reference = λ o. ok (own_it o);
}

abbrev object : List OwnerReference → Object
object refs = record { labels = []; is_deleting = false; owner_references = refs }

abbrev or_orphan : Result Object → Object
or_orphan (ok o) = o
or_orphan _ = object []

manager-IsFaithful : IsFaithful manager
unfolding text_eq
manager-IsFaithful = record {
  set_controls = λ o p e. subst (λ q. is_controlled manager q ≡ true) (ap or_orphan e) refl;
  set_labels = λ o p e. sym (ap (λ r. (or_orphan r).labels) e);
  update_owners = λ o p e. sym (ap (λ r. (r.0).owner_references) e);
  update_labels = λ o p e. sym (ap (λ r. (r.0).labels) e);
}

abbrev three : List Object
three =
    object (ours ∷ [])
    ∷ object []
    ∷ object (record { uid = codes "8"; is_controller = true } ∷ [])
    ∷ []

claim_owned-AreClaims_example : AreClaims manager three (claim_owned manager three)
claim_owned-AreClaims_example = claim_owned-AreClaims manager manager-IsFaithful three
