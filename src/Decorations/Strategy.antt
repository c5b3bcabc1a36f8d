-- ===== src/Decorations/Strategy.antt =====
-- pkg/controllers/utils/poddecoration/strategy/manager.go: the manager of one decoration, which
-- decides the revision of the decoration for each pod.
use kuperator.Common.{
  ◌-◌, Bool, true, false, not, Option, none, some, List, [], ◌∷◌, if◌then◌else◌, ℤ, pos, negsuc,
  Text, Dict, insert, has, Result, ok, err, ◌>>=◌, Error, not_found, length, drop, sort_by,
}
use kuperator.Pod.{Labels, Pod, contains, set_insert}
use kuperator.Decorations.{
  Selector, Placed, PodInfo, RollingUpdate, PodDecoration, instance_key, is_before,
}
use kuperator.Decorations.Related.{
  Setting, RelatedResource, is_active, get_resources, build_pod_info,
}

-- utils.Selected and match: without a selector the first takes every pod, and the second none.
abbrev pub selected : Option Selector → Labels → Bool
selected none labels = true
selected (some test) labels = test labels

abbrev pub matches : Option Selector → Labels → Bool
matches none labels = false
matches (some test) labels = test labels

-- podDecorationManager
pub record Manager : Type 0 where
  pub effective_pods : Dict PodInfo
  pub related_collasets : List Text
  pub partition_old_revision_pods : List Text
  pub latest : PodDecoration

-- What the two loops of updateSelectedPods gather. (The code marks an old entry as deleted in place,
-- also where the update then fails; the mark is read nowhere.)
pub record Gathered : Type 0 where
  pub effective : Dict PodInfo
  pub instance_ids : List Text
  pub collasets : List Text

abbrev pub add_info : PodInfo → Gathered → Gathered
add_info info f = record {
  effective = insert info.name info f.effective;
  instance_ids = set_insert (instance_key info) f.instance_ids;
  collasets = set_insert info.collaset f.collasets;
}

abbrev pub add_pod : Setting → Text → Placed → Gathered → Result Gathered
add_pod W pd p f =
    if is_active p.pod then (build_pod_info W p pd >>= λ info. ok (add_info info f)) else ok f

unfoldable pub add_pods : Setting → Text → List Placed → Gathered → Result Gathered
add_pods W pd [] f = ok f
add_pods W pd (p ∷ ps) f = add_pod W pd p f >>= λ g. add_pods W pd ps g

abbrev pub is_not_found : Error → Bool
is_not_found not_found = true
is_not_found _ = false

abbrev pub placeholder : PodInfo → PodInfo
placeholder info = record info { state = record info.state { is_deleted = true } }

abbrev pub hold_place : PodInfo → Text → Gathered → Result RelatedResource → Result Gathered
hold_place info name f (err e) = if is_not_found e then ok f else err e
hold_place info name f (ok r) =
    if contains info.instance_id r.allocated_ids
    then ok (record f { effective = insert name (placeholder info) f.effective })
    else ok f

abbrev pub add_old : Setting → PodDecoration → Text → PodInfo → Gathered → Result Gathered
add_old W pd name info f =
    let g = record f { collasets = set_insert info.collaset f.collasets } in
    if contains (instance_key info) g.instance_ids
    then ok g
    else if not (selected pd.selector info.labels)
    then ok g
    else if has name g.effective
    then ok g
    else hold_place info name g (get_resources W info.namespace info.collaset pd.name)

unfoldable pub add_olds : Setting → PodDecoration → Dict PodInfo → Gathered → Result Gathered
add_olds W pd [] f = ok f
add_olds W pd ((name, info) ∷ olds) f = add_old W pd name info f >>= λ g. add_olds W pd olds g

abbrev pub infos_of : Dict PodInfo → List PodInfo
infos_of [] = []
infos_of ((name, info) ∷ rest) = info ∷ infos_of rest

abbrev pub names_from : List PodInfo → List Text → List Text
names_from [] names = names
names_from (info ∷ infos) names = names_from infos (set_insert info.name names)

-- The pods from the index on, `len - partition`, at least 0.
abbrev pub kept_back : ℤ → List PodInfo → List PodInfo
kept_back (pos p) infos = drop (length infos - p) infos
kept_back (negsuc p) infos = []

unfoldable pub update_partition_pods : Dict PodInfo → Text → ℤ → List Text
update_partition_pods pods revision partition =
    names_from (kept_back partition (sort_by (is_before revision) (infos_of pods))) []

abbrev pub partition_of : Option RollingUpdate → Option ℤ
partition_of none = none
partition_of (some r) = r.partition

abbrev pub partitioned : Option ℤ → Manager → Manager
partitioned none pm = pm
partitioned (some p) pm = record pm {
  partition_old_revision_pods =
      update_partition_pods pm.effective_pods pm.latest.updated_revision p;
}

abbrev pub finish_update : Manager → Result Gathered → Manager × Option Error
finish_update pm (err e) = (pm, some e)
finish_update pm (ok f) = (
  partitioned (partition_of pm.latest.rolling_update)
      (record pm { related_collasets = f.collasets; effective_pods = f.effective }),
  none,
)

abbrev pub nothing_gathered : Gathered
nothing_gathered = record { effective = []; instance_ids = []; collasets = [] }

unfoldable pub update_selected_pods :
    Setting → PodDecoration → List Placed → Manager → Manager × Option Error
update_selected_pods W pd pods pm =
    finish_update (record pm { latest = pd })
      (add_pods W pd.name pods nothing_gathered >>= λ f. add_olds W pd pm.effective_pods f)

abbrev pub by_selector : PodDecoration → Labels → Option Selector → Text × Bool
by_selector pd labels test =
    if matches test labels then (pd.updated_revision, true) else (pd.current_revision, false)

abbrev pub by_partition : Manager → Text → Option ℤ → Text × Bool
by_partition pm name none = (pm.latest.updated_revision, true)
by_partition pm name (some p) =
    if contains name pm.partition_old_revision_pods
    then (pm.latest.current_revision, false)
    else (pm.latest.updated_revision, true)

abbrev pub by_strategy : Manager → Pod → Option RollingUpdate → Text × Bool
by_strategy pm pod none = (pm.latest.updated_revision, true)
by_strategy pm pod (some r) = elim r.rolling_selector [
  | some test ↦ by_selector pm.latest pod.labels (some test)
  | none ↦ by_partition pm pod.name r.partition
]

-- getSuitableRevision: the revision, if any, and whether it is the updated one.
unfoldable pub get_suitable_revision : Manager → Pod → Option (Text × Bool)
get_suitable_revision pm pod =
    if matches pm.latest.selector pod.labels
    then some (by_strategy pm pod pm.latest.rolling_update)
    else none
