-- ===== src/Decorations/Examples.antt =====
-- A decoration that is rolled out with a partition of one, for a set of two pods: web-1 was deleted
-- and is not back.
use kuperator.Common.{
  All, ◌≡◌, refl, true, not, ◌&&◌, ◌||◌, none, some, [], ◌∷◌, Text, codes, text_eq, Dict, lookup,
  insert, has, any, ok, sort_by, insert_by,
}
use kuperator.Pod.{OwnerRef, contains, set_labels, set_insert}
use kuperator.Pod.Sample.{sample_names, sample_pod}
use kuperator.Decorations.{Placed, PodInfo, PodDecoration, set_pod_state, is_before, compare}
use kuperator.Decorations.Related.{
  CollaSet, ResourceContext, Setting, is_active, build_pod_info, get_resources,
  get_resource_context, get_allocated_id, get_updated_pod_decoration_revision,
}
use kuperator.Decorations.Strategy.{
  Manager, Gathered, add_pods, add_olds, nothing_gathered, update_partition_pods,
  update_selected_pods,
}
use kuperator.Decorations.Partition.{by_partition_only, KeepsBack, update_selected_pods-KeepsBack}
use kuperator.Decorations.Held.{IsPlace, update_selected_pods-IsPlace}
use kuperator.Decorations.Effective.{
  keeps_old, get_effective_revisions, get_effective_revisions_iff,
}

abbrev web : CollaSet
web = record { name = codes "web"; updated_revision = codes "web-2"; context = [] }

abbrev context : ResourceContext
context = record {
  name = codes "web";
  contexts =
      record { id = codes "0"; decoration_revisions = [] }
      ∷ record { id = codes "1"; decoration_revisions = [] }
      ∷ [];
}

abbrev setting : Setting
setting = record {
  names = sample_names;
  instance_id_label = codes "id";
  decoration_label_prefix = codes "pd/";
  revision_hash_label = codes "hash";
  get_collaset = λ namespace name. ok web;
  get_context = λ namespace name. ok context;
}

abbrev sidecar : PodDecoration
sidecar = record {
  name = codes "sidecar";
  namespace = codes "default";
  selector = some (λ labels. true);
  rolling_update = by_partition_only 1;
  updated_revision = codes "sidecar-2";
  current_revision = codes "sidecar-1";
}

abbrev owner : OwnerRef
owner = record {
  owner_kind = codes "CollaSet";
  api_version = codes "v1";
  uid = codes "7";
  owner_name = codes "web";
}

abbrev web_0 : Placed
web_0 = record {
  pod = record (set_labels sample_pod ((codes "id", codes "0") ∷ [])) { controller = some owner };
  node_name = codes "node";
  creation_timestamp = 3;
  restart_counts = 0 ∷ [];
}

abbrev web_1 : PodInfo
web_1 = record {
  name = codes "web-1";
  namespace = codes "default";
  labels = (codes "id", codes "1") ∷ [];
  collaset = codes "web";
  resource_context = codes "web";
  instance_id = codes "1";
  revision = codes "sidecar-2";
  state = set_pod_state sample_names web_0;
}

abbrev old_manager : Manager
old_manager = record {
  effective_pods = (codes "web-1", web_1) ∷ [];
  related_collasets = [];
  partition_old_revision_pods = [];
  latest = sidecar;
}

abbrev after : Manager
after = (update_selected_pods setting sidecar (web_0 ∷ []) old_manager).0

updated : update_selected_pods setting sidecar (web_0 ∷ []) old_manager ≡ (after, none)
unfolding update_selected_pods add_pods is_active text_eq build_pod_info get_resources
    get_resource_context get_allocated_id get_updated_pod_decoration_revision insert add_olds
    contains set_insert lookup
updated = refl

update_selected_pods-KeepsBack_example : KeepsBack 1 sidecar after
update_selected_pods-KeepsBack_example =
    update_selected_pods-KeepsBack setting sidecar (web_0 ∷ []) old_manager after 1 refl updated

update_selected_pods-IsPlace_example :
    (f : Gathered) × (add_pods setting (codes "sidecar") (web_0 ∷ []) nothing_gathered ≡ ok f)
    × All (IsPlace setting sidecar f.instance_ids) after.effective_pods
update_selected_pods-IsPlace_example =
    update_selected_pods-IsPlace setting sidecar (web_0 ∷ []) old_manager after updated

-- The place of web-1 is held, and web-0 is kept back.
web_0-kept : after.partition_old_revision_pods ≡ codes "web-0" ∷ []
unfolding update_selected_pods add_pods is_active text_eq build_pod_info get_resources
    get_resource_context get_allocated_id get_updated_pod_decoration_revision insert add_olds
    contains set_insert lookup update_partition_pods sort_by insert_by is_before compare
web_0-kept = refl

abbrev on_pod : Dict Text
on_pod = (codes "sidecar", codes "sidecar-0") ∷ (codes "proxy", codes "proxy-1") ∷ []

abbrev stable : Dict Text
stable = (codes "sidecar", codes "sidecar-1") ∷ []

abbrev none_updated : Dict Text
none_updated = []

get_effective_revisions_iff_example :
    let result = get_effective_revisions none_updated stable on_pod in
    (contains (codes "sidecar-0") result.0
      ≡ any (λ e. text_eq e.1 (codes "sidecar-0")) none_updated)
    × (contains (codes "sidecar-0") result.1 ≡ (
        any (λ e. keeps_old none_updated stable e.0 && text_eq e.1 (codes "sidecar-0")) on_pod
        || any
            (λ e.
              not (has e.0 on_pod && not (has e.0 none_updated)) && text_eq e.1 (codes "sidecar-0"))
            stable))
unfolding lookup text_eq
get_effective_revisions_iff_example =
    get_effective_revisions_iff none_updated stable on_pod (codes "sidecar-0") (refl, (refl, tt))
