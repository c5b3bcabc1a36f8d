-- ===== src/Decorations/Related.antt =====
-- pkg/controllers/utils/poddecoration/strategy/manager.go and utils.go: what the strategy reads of the
-- cluster for a pod, its CollaSet and the ResourceContext of that. (The resources of a CollaSet that
-- the code keeps during an update are read again here, from one state of the cluster.)
use kuperator.Common.{
  Bool, false, not, Option, none, some, List, [], ◌∷◌, if◌then◌else◌, Text, codes, text_eq, ◌++◌,
  Dict, lookup, insert, Result, ok, err, ◌>>=◌, not_controlled,
}
use kuperator.Pod.{Names, OwnerRef, Pod, set_insert}
use kuperator.Decorations.{Placed, PodInfo, set_pod_state}

pub record CollaSet : Type 0 where
  pub name : Text
  pub updated_revision : Text
  pub context : Text

-- The id of an instance as strconv.Itoa writes it, and the names and revisions of decorations that
-- its entry PodDecorationRevisions parses to, none if it is absent or cannot be parsed.
pub record ContextDetail : Type 0 where
  pub id : Text
  pub decoration_revisions : List (Text × Text)

pub record ResourceContext : Type 0 where
  pub name : Text
  pub contexts : List ContextDetail

-- Names of labels, and the client: Get of a CollaSet and of a ResourceContext.
pub record Setting : Type 0 where
  pub names : Names
  pub instance_id_label : Text
  pub decoration_label_prefix : Text
  pub revision_hash_label : Text
  pub get_collaset : Text → Text → Result CollaSet
  pub get_context : Text → Text → Result ResourceContext

pub record RelatedResource : Type 0 where
  pub related_collaset : CollaSet
  pub resource_context : ResourceContext
  pub allocated_ids : List Text
  pub context_revisions : Dict Text

-- IsActive
abbrev is_collaset_owner : Option OwnerRef → Bool
is_collaset_owner none = false
is_collaset_owner (some ref) = text_eq ref.owner_kind (codes "CollaSet")

unfoldable pub is_active : Pod → Bool
is_active pod = if is_collaset_owner pod.controller then not pod.is_deleting else false

abbrev or_name : Text → Text → Text
or_name [] name = name
or_name (c ∷ s) name = c ∷ s

unfoldable pub get_resource_context : Setting → Text → CollaSet → Result ResourceContext
get_resource_context W namespace cls = W.get_context namespace (or_name cls.context cls.name)

unfoldable pub get_allocated_id : List ContextDetail → List Text → List Text
get_allocated_id [] ids = ids
get_allocated_id (d ∷ ds) ids = get_allocated_id ds (set_insert d.id ids)

abbrev set_if_found : Text → Option Text → Dict Text → Dict Text
set_if_found id none res = res
set_if_found id (some revision) res = insert id revision res

unfoldable pub get_updated_pod_decoration_revision :
    Text → List ContextDetail → Dict Text → Dict Text
get_updated_pod_decoration_revision pd [] res = res
get_updated_pod_decoration_revision pd (d ∷ ds) res =
    get_updated_pod_decoration_revision pd ds
      (set_if_found d.id (lookup pd d.decoration_revisions) res)

-- getResources
unfoldable pub get_resources : Setting → Text → Text → Text → Result RelatedResource
get_resources W namespace collaset pd = W.get_collaset namespace collaset >>= λ cls.
    get_resource_context W namespace cls >>= λ rc. ok (record {
      related_collaset = cls;
      resource_context = rc;
      allocated_ids = get_allocated_id rc.contexts [];
      context_revisions = get_updated_pod_decoration_revision pd rc.contexts [];
    })

-- relatedPod
abbrev pub of_owner : Setting → Text → Text → Option OwnerRef → Result RelatedResource
of_owner W namespace pd none = err not_controlled
of_owner W namespace pd (some ref) =
    if text_eq ref.owner_kind (codes "CollaSet")
    then get_resources W namespace ref.owner_name pd
    else err not_controlled

abbrev or_empty : Option Text → Text
or_empty none = []
or_empty (some v) = v

abbrev or_else : Option Text → Text → Text
or_else none other = other
or_else (some v) other = v

abbrev pub info_of : Setting → Placed → Text → RelatedResource → PodInfo
info_of W p pd r =
    let labels = p.pod.labels in
    let id = or_empty (lookup W.instance_id_label labels) in
    let revision = or_empty (lookup (W.decoration_label_prefix ++ pd) labels) in
    record {
      name = p.pod.name;
      namespace = p.pod.namespace;
      labels = labels;
      collaset = r.related_collaset.name;
      resource_context = r.resource_context.name;
      instance_id = id;
      revision = or_else (lookup id r.context_revisions) revision;
      state = record (set_pod_state W.names p) {
        is_collaset_updated_revision =
            text_eq r.related_collaset.updated_revision
              (or_empty (lookup W.revision_hash_label labels));
      };
    }

unfoldable pub build_pod_info : Setting → Placed → Text → Result PodInfo
build_pod_info W p pd =
    of_owner W p.pod.namespace pd p.pod.controller >>= λ r. ok (info_of W p pd r)
