-- ===== src/Decorations/Partition.antt =====
-- pkg/controllers/utils/poddecoration/strategy/manager.go: which pods a partition keeps at the
-- current revision of a decoration.
use mathlib.Core.List.{Perm}
use kuperator.Common.{
  ◌≡◌, refl, sym, ap, ◌∙◌, ℕ, ◌-◌, Bool, true, false, not, ◌&&◌, ◌||◌, Option, none, some, List, [],
  ◌∷◌, ◌++◌, arith, if◌then◌else◌, ltb, pos, Text, text_eq, Result, ok, err, ◌>>=◌, length, take,
  drop, take-drop, length-drop, subst, sort_by, sort_by-perm, length-sort_by, sort_by-IsGrouped,
  any, Separates, Separates-take,
}
use kuperator.Pod.{Pod, contains, set_insert}
use kuperator.Pod.Sets.{contains-set_insert}
use kuperator.Decorations.{Placed, PodInfo, RollingUpdate, PodDecoration, is_before}
use kuperator.Decorations.Related.{Setting}
use kuperator.Decorations.Strategy.{
  Manager, Gathered, matches, infos_of, names_from, kept_back, update_partition_pods, partitioned,
  partition_of, finish_update, add_pods, add_olds, nothing_gathered, update_selected_pods,
  by_strategy, get_suitable_revision,
}

-- The pod had the revision when the strategy was updated.
abbrev pub is_at : Text → PodInfo → Bool
is_at revision info = text_eq info.revision revision

abbrev pub is_named : Text → PodInfo → Bool
is_named name info = text_eq info.name name

is_before-first :
    (revision : Text) (x y : PodInfo)
    → (is_at revision x && (not (is_at revision y) && not (is_before revision x y))) ≡ false
unfolding is_before
is_before-first revision x y = ground arith

is_before-last :
    (revision : Text) (x y : PodInfo)
    → (is_at revision x && (not (is_at revision y) && is_before revision y x)) ≡ false
unfolding is_before
is_before-last revision x y = ground arith

contains-names_from :
    (name : Text) (infos : List PodInfo) (names : List Text)
    → contains name (names_from infos names) ≡ (any (is_named name) infos || contains name names)
contains-names_from name [] names = refl
contains-names_from name (info ∷ infos) names = ground (
  arith,
  contains-names_from name infos (set_insert info.name names),
  contains-set_insert name info.name names,
)

-- What the pods that a partition keeps back are, of those that a strategy knows.
abbrev pub IsPartition : ℕ → Text → List PodInfo → List PodInfo → List PodInfo → Type 0
IsPartition p revision infos ahead behind =
    Perm (ahead ++ behind) infos
    × (length behind ≡ (if ltb p (length infos) then p else length infos))
    × Separates (is_at revision) ahead behind

kept_back-IsPartition :
    (p : ℕ) (revision : Text) (infos : List PodInfo)
    → let sorted = sort_by (is_before revision) infos in
      IsPartition p revision infos (take (length sorted - p) sorted) (kept_back (pos p) sorted)
kept_back-IsPartition p revision infos =
    let sorted = sort_by (is_before revision) infos in
    let n = length sorted - p in
    let parts : take n sorted ++ drop n sorted ≡ sorted = take-drop n sorted in
    (
      rw parts (sort_by-perm (is_before revision) infos),
      ground (arith, length-drop n sorted, length-sort_by (is_before revision) infos),
      Separates-take (is_at revision) n sorted (
          sort_by-IsGrouped (is_before revision) (is_at revision) (is_before-first revision)
            (is_before-last revision) infos),
    )

-- The decoration is rolled out by a partition.
abbrev pub by_partition_only : ℕ → Option RollingUpdate
by_partition_only p = some (record { rolling_selector = none; partition = some (pos p) })

-- The revision of a pod: the current one for those that are kept back, else the updated one.
abbrev pub revision_by : PodDecoration → List PodInfo → Pod → Option (Text × Bool)
revision_by pd behind pod =
    if matches pd.selector pod.labels
    then some (
        if any (is_named pod.name) behind
        then (pd.current_revision, false)
        else (pd.updated_revision, true))
    else none

abbrev pub KeepsBack : ℕ → PodDecoration → Manager → Type 0
KeepsBack p pd pm =
    (ahead : List PodInfo) × (behind : List PodInfo) × IsPartition p pd.updated_revision
      (infos_of pm.effective_pods) ahead behind
    × ((pod : Pod) → get_suitable_revision pm pod ≡ revision_by pd behind pod)

kept-named :
    (name : Text) (infos : List PodInfo)
    → contains name (names_from infos []) ≡ any (is_named name) infos
unfolding contains
kept-named name infos = ground (arith, contains-names_from name infos [])

partitioned-KeepsBack :
    (p : ℕ) (pm : Manager)
    → pm.latest.rolling_update ≡ by_partition_only p
    → KeepsBack p pm.latest (partitioned (some (pos p)) pm)
unfolding update_partition_pods get_suitable_revision
partitioned-KeepsBack p pm rolling =
    let pd = pm.latest in
    let sorted = sort_by (is_before pd.updated_revision) (infos_of pm.effective_pods) in
    let behind = kept_back (pos p) sorted in
    let after = partitioned (some (pos p)) pm in
    (
      take (length sorted - p) sorted,
      behind,
      kept_back-IsPartition p pd.updated_revision (infos_of pm.effective_pods),
      λ pod.
          ap (λ r. if matches pd.selector pod.labels then some (by_strategy after pod r) else none)
            rolling
          ∙ ap
              (λ b.
                if matches pd.selector pod.labels
                then some (if b then (pd.current_revision, false) else (pd.updated_revision, true))
                else none)
              (kept-named pod.name behind),
    )

finish_update-KeepsBack :
    (p : ℕ) (pm after : Manager) (r : Result Gathered)
    → pm.latest.rolling_update ≡ by_partition_only p
    → finish_update pm r ≡ (after, none)
    → KeepsBack p pm.latest after
finish_update-KeepsBack p pm after (err e) rolling done = cc
finish_update-KeepsBack p pm after (ok f) rolling done =
    let new : Manager = record pm {
      related_collasets = f.collasets;
      effective_pods = f.effective;
    } in
    let same : partitioned (some (pos p)) new ≡ after =
      ap (λ r. partitioned (partition_of r) new) (sym rolling) ∙ ap (λ x. x.0) done in
    subst (KeepsBack p pm.latest) same (partitioned-KeepsBack p new rolling)

-- When updateSelectedPods has succeeded for a decoration that is rolled out by a partition only,
-- the pods that the strategy knows fall in two parts: those that are kept back are as many as the
-- partition says, or all if there are fewer, and one that is at the updated revision is kept back
-- only if all that are not kept back are. From then on a pod that the decoration selects gets the
-- current revision if one of its name is kept back, else the updated one; any other pod gets none.
-- (The CRD says that the partition is the number of pods to update.)
pub update_selected_pods-KeepsBack :
    (W : Setting) (pd : PodDecoration) (pods : List Placed) (pm after : Manager) (p : ℕ)
    → pd.rolling_update ≡ by_partition_only p
    → update_selected_pods W pd pods pm ≡ (after, none)
    → KeepsBack p pd after
unfolding update_selected_pods
update_selected_pods-KeepsBack W pd pods pm after p rolling done =
    finish_update-KeepsBack p (record pm { latest = pd }) after
      (add_pods W pd.name pods nothing_gathered >>= λ f. add_olds W pd pm.effective_pods f) rolling
      done
