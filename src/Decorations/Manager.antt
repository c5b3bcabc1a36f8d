-- ===== src/Decorations/Manager.antt =====
-- pkg/controllers/utils/poddecoration/strategy/manager.go: the managers of all decorations, by
-- namespace and name. (A manager that podDecorationMgr makes is updated at once, so it has a latest
-- decoration. An event goes to each listener: here, the CollaSets that are told of.)
use kuperator.Common.{
  Bool, true, false, Option, none, some, List, [], ◌∷◌, Text, Dict, lookup, insert, delete, Error,
}
use kuperator.Pod.{Pod}
use kuperator.Decorations.{Placed, PodDecoration}
use kuperator.Decorations.Related.{Setting}
use kuperator.Decorations.Strategy.{Manager, update_selected_pods, get_suitable_revision}

abbrev pub Managers : Type 0
Managers = Dict (Dict Manager)

abbrev or_none : Option (Dict Manager) → Dict Manager
or_none none = []
or_none (some ms) = ms

-- The managers of a namespace.
abbrev pub in_namespace : Text → Managers → Dict Manager
in_namespace namespace ms = or_none (lookup namespace ms)

abbrev or_new : PodDecoration → Option Manager → Manager
or_new pd (some pm) = pm
or_new pd none = record {
  effective_pods = [];
  related_collasets = [];
  partition_old_revision_pods = [];
  latest = pd;
}

unfoldable pub pod_decoration_mgr : Managers → PodDecoration → Manager
pod_decoration_mgr ms pd = or_new pd (lookup pd.name (in_namespace pd.namespace ms))

abbrev put_manager : PodDecoration → Managers → Manager → Managers
put_manager pd ms pm = insert pd.namespace (insert pd.name pm (in_namespace pd.namespace ms)) ms

abbrev events_of : Manager → Option Error → List Text
events_of pm none = pm.related_collasets
events_of pm (some e) = []

-- UpdateSelectedPods: the managers, the error, and the CollaSets that are told of.
unfoldable pub update_strategy :
    Setting → PodDecoration → List Placed → Managers → Managers × Option Error × List Text
update_strategy W pd pods ms =
    let (pm, error) = update_selected_pods W pd pods (pod_decoration_mgr ms pd) in
    (put_manager pd ms pm, error, events_of pm error)

abbrev removed : PodDecoration → Managers → Option Manager → Managers × List Text
removed pd ms none = (ms, [])
removed pd ms (some pm) =
    (insert pd.namespace (delete pd.name (in_namespace pd.namespace ms)) ms, pm.related_collasets)

unfoldable pub delete_pod_decoration : PodDecoration → Managers → Managers × List Text
delete_pod_decoration pd ms = removed pd ms (lookup pd.name (in_namespace pd.namespace ms))

abbrev latest_of : Dict Manager → List PodDecoration
latest_of [] = []
latest_of ((name, pm) ∷ rest) = pm.latest ∷ latest_of rest

unfoldable pub latest_pod_decorations : Text → Managers → List PodDecoration
latest_pod_decorations namespace ms = latest_of (in_namespace namespace ms)

-- The updated and the stable revisions, by the name of the decoration.
abbrev pub Revisions : Type 0
Revisions = Dict Text × Dict Text

abbrev pub note_revision : Text → Option (Text × Bool) → Revisions → Revisions
note_revision name none rs = rs
note_revision name (some ([], is_updated)) rs = rs
note_revision name (some (c ∷ s, true)) (updated, stable) = (insert name (c ∷ s) updated, stable)
note_revision name (some (c ∷ s, false)) (updated, stable) = (updated, insert name (c ∷ s) stable)

unfoldable pub revisions_from : Pod → Dict Manager → Revisions → Revisions
revisions_from pod [] rs = rs
revisions_from pod ((name, pm) ∷ rest) rs =
    revisions_from pod rest (note_revision name (get_suitable_revision pm pod) rs)

unfoldable pub effective_pod_revisions : Managers → Pod → Revisions
effective_pod_revisions ms pod = revisions_from pod (in_namespace pod.namespace ms) ([], [])
