-- ===== src/Decorations/Held.antt =====
-- pkg/controllers/utils/poddecoration/strategy/manager.go: the places that updateSelectedPods holds
-- for deleted pods, so that a partition counts them until their instances are back.
use kuperator.Common.{
  All, All-insert, All-map, bind-ok, bind-keeps, ◌≡◌, refl, sym, subst, ap, ◌∙◌, Bool, true, false,
  not, ◌&&◌, Option, none, some, List, [], ◌∷◌, arith, Text, text_eq_refl, if-both, if-cases, ℤ,
  Dict, has, Result, ok, err, ◌>>=◌, Error,
}
use kuperator.Pod.{contains, set_insert}
use kuperator.Pod.Sets.{contains-set_insert}
use kuperator.Decorations.{Placed, PodInfo, PodDecoration, instance_key, set_pod_state}
use kuperator.Decorations.Related.{
  Setting, RelatedResource, is_active, get_resources, build_pod_info, of_owner, info_of,
}
use kuperator.Decorations.Strategy.{
  Manager, Gathered, selected, add_info, add_pod, add_pods, placeholder, is_not_found, hold_place,
  add_old, add_olds, finish_update, partition_of, partitioned, nothing_gathered,
  update_selected_pods,
}

abbrev is_allocated_in : Text → Result RelatedResource → Bool
is_allocated_in id (err e) = false
is_allocated_in id (ok r) = contains id r.allocated_ids

-- The resource context of the instance's CollaSet has allocated its id.
abbrev pub is_allocated : Setting → PodDecoration → PodInfo → Bool
is_allocated W pd info =
    is_allocated_in info.instance_id (get_resources W info.namespace info.collaset pd.name)

-- An entry is a placeholder exactly if none of the instances of the pods is its own; then the
-- decoration selects it, and its instance is allocated.
abbrev pub IsPlace : Setting → PodDecoration → List Text → PodInfo → Type 0
IsPlace W pd instances info =
    (info.state.is_deleted ≡ not (contains (instance_key info) instances))
    × ((info.state.is_deleted && not (selected pd.selector info.labels)) ≡ false)
    × ((info.state.is_deleted && not (is_allocated W pd info)) ≡ false)

-- A pod that is there.
abbrev IsLive : List Text → PodInfo → Type 0
IsLive instances info =
    (info.state.is_deleted ≡ false) × (contains (instance_key info) instances ≡ true)

abbrev is_deleted_in : Result PodInfo → Bool
is_deleted_in (ok info) = info.state.is_deleted
is_deleted_in (err e) = false

build_pod_info-alive :
    (W : Setting) (p : Placed) (pd : Text) (info : PodInfo)
    → build_pod_info W p pd ≡ ok info
    → info.state.is_deleted ≡ false
unfolding build_pod_info set_pod_state
build_pod_info-alive W p pd info e =
    let (r, _, made) =
      bind-ok (of_owner W p.pod.namespace pd p.pod.controller) (λ r. ok (info_of W p pd r)) info
        e in
    sym (ap is_deleted_in made)

-- All entries that were found are of pods that are there.
abbrev AllLive : Result Gathered → Type 0
AllLive (ok f) = All (IsLive f.instance_ids) f.effective
AllLive (err e) = Unit {0}

add_info-AllLive :
    (info : PodInfo) (f : Gathered)
    → info.state.is_deleted ≡ false
    → AllLive (ok f)
    → AllLive (ok (add_info info f))
add_info-AllLive info f alive h =
    let ids = set_insert (instance_key info) f.instance_ids in
    All-insert (IsLive ids) info.name info f.effective
      (
        alive,
        ground (
          arith,
          contains-set_insert (instance_key info) (instance_key info) f.instance_ids,
          text_eq_refl (instance_key info),
        ),
      )
      (All-map (IsLive f.instance_ids) (IsLive ids) f.effective
        (λ i l. (
          l.0,
          ground
              (arith, l.1, contains-set_insert (instance_key i) (instance_key info) f.instance_ids),
        ))
        h)

built-AllLive :
    (W : Setting) (pd : Text) (p : Placed) (f : Gathered) (r : Result PodInfo)
    → build_pod_info W p pd ≡ r
    → AllLive (ok f)
    → AllLive (r >>= λ info. ok (add_info info f))
built-AllLive W pd p f (ok info) e h =
    add_info-AllLive info f (build_pod_info-alive W p pd info e) h
built-AllLive W pd p f (err x) e h = tt

add_pod-AllLive :
    (W : Setting) (pd : Text) (p : Placed) (f : Gathered)
    → AllLive (ok f)
    → AllLive (add_pod W pd p f)
add_pod-AllLive W pd p f h =
    if-both AllLive (is_active p.pod) (built-AllLive W pd p f (build_pod_info W p pd) refl h) h

add_pods-AllLive :
    (W : Setting) (pd : Text) (ps : List Placed) (f : Gathered)
    → AllLive (ok f)
    → AllLive (add_pods W pd ps f)
unfolding add_pods
add_pods-AllLive W pd [] f h = h
add_pods-AllLive W pd (p ∷ ps) f h =
    bind-keeps AllLive AllLive (λ g. add_pods W pd ps g) (add_pod W pd p f) (λ e. tt)
      (λ g l. add_pods-AllLive W pd ps g l) (add_pod-AllLive W pd p f h)

-- The second loop: it keeps the instances of the pods.
abbrev AllPlaced : Setting → PodDecoration → List Text → Result Gathered → Type 0
AllPlaced W pd ids (ok f) = (f.instance_ids ≡ ids) × All (IsPlace W pd ids) f.effective
AllPlaced W pd ids (err e) = Unit {0}

hold_place-AllPlaced :
    (W : Setting) (pd : PodDecoration) (ids : List Text) (info : PodInfo) (name : Text)
    (f : Gathered) (r : Result RelatedResource)
    → get_resources W info.namespace info.collaset pd.name ≡ r
    → contains (instance_key info) ids ≡ false
    → selected pd.selector info.labels ≡ true
    → AllPlaced W pd ids (ok f)
    → AllPlaced W pd ids (hold_place info name f r)
hold_place-AllPlaced W pd ids info name f (err e) read free chosen h =
    if-both (AllPlaced W pd ids) (is_not_found e) h tt
hold_place-AllPlaced W pd ids info name f (ok r) read free chosen h =
    if-cases (AllPlaced W pd ids) (contains info.instance_id r.allocated_ids)
      (λ allocated.
        let at : is_allocated W pd (placeholder info) ≡ true =
          ap (is_allocated_in info.instance_id) read ∙ allocated in
        let made : IsPlace W pd ids (placeholder info) =
          (ground (arith, free), ground (arith, chosen), ground (arith, at)) in
        (h.0, All-insert (IsPlace W pd ids) name (placeholder info) f.effective made h.1))
      (λ gone. h)

add_old-AllPlaced :
    (W : Setting) (pd : PodDecoration) (ids : List Text) (name : Text) (info : PodInfo)
    (f : Gathered)
    → AllPlaced W pd ids (ok f)
    → AllPlaced W pd ids (add_old W pd name info f)
add_old-AllPlaced W pd ids name info f h =
    let g : Gathered = record f { collasets = set_insert info.collaset f.collasets } in
    let free : AllPlaced W pd ids (ok g) = h in
    if-cases (AllPlaced W pd ids) (contains (instance_key info) g.instance_ids) (λ e. h)
      (λ vacant.
        if-cases (AllPlaced W pd ids) (not (selected pd.selector info.labels)) (λ e. h)
          (λ chosen. if-both (AllPlaced W pd ids) (has name g.effective) h (
            hold_place-AllPlaced W pd ids info name g
              (get_resources W info.namespace info.collaset pd.name) refl
              (ap (contains (instance_key info)) (sym h.0) ∙ vacant) (ground (arith, chosen)) h)))

add_olds-AllPlaced :
    (W : Setting) (pd : PodDecoration) (ids : List Text) (olds : Dict PodInfo) (f : Gathered)
    → AllPlaced W pd ids (ok f)
    → AllPlaced W pd ids (add_olds W pd olds f)
unfolding add_olds
add_olds-AllPlaced W pd ids [] f h = h
add_olds-AllPlaced W pd ids ((name, info) ∷ olds) f h =
    bind-keeps (AllPlaced W pd ids) (AllPlaced W pd ids) (λ g. add_olds W pd olds g)
      (add_old W pd name info f) (λ e. tt) (λ g l. add_olds-AllPlaced W pd ids olds g l)
      (add_old-AllPlaced W pd ids name info f h)

-- A pod that is there is no placeholder.
live-IsPlace :
    (W : Setting) (pd : PodDecoration) (ids : List Text) (i : PodInfo)
    → IsLive ids i
    → IsPlace W pd ids i
live-IsPlace W pd ids i l = (ground (arith, l), ground (arith, l.0), ground (arith, l.0))

-- The manager after an update, where the pods were found.
abbrev IsHeld : Setting → PodDecoration → List Text → Manager → Type 0
IsHeld W pd ids pm = All (IsPlace W pd ids) pm.effective_pods

partitioned-IsHeld :
    (W : Setting) (pd : PodDecoration) (ids : List Text) (p : Option ℤ) (pm : Manager)
    → IsHeld W pd ids pm
    → IsHeld W pd ids (partitioned p pm)
partitioned-IsHeld W pd ids none pm h = h
partitioned-IsHeld W pd ids (some p) pm h = h

abbrev manager_of : Manager × Option Error → Manager
manager_of r = r.0

finish_update-IsHeld :
    (W : Setting) (pd : PodDecoration) (ids : List Text) (pm after : Manager) (r : Result Gathered)
    → AllPlaced W pd ids r
    → finish_update pm r ≡ (after, none)
    → IsHeld W pd ids after
finish_update-IsHeld W pd ids pm after (err e) h done = cc
finish_update-IsHeld W pd ids pm after (ok f) h done =
    let new : Manager = record pm {
      related_collasets = f.collasets;
      effective_pods = f.effective;
    } in
    subst (IsHeld W pd ids) (ap manager_of done)
      (partitioned-IsHeld W pd ids (partition_of pm.latest.rolling_update) new h.1)

IsHeld-update :
    (W : Setting) (pd : PodDecoration) (pm after : Manager) (r : Result Gathered)
    → AllLive r
    → finish_update pm (r >>= λ f. add_olds W pd pm.effective_pods f) ≡ (after, none)
    → (f : Gathered) × (r ≡ ok f) × IsHeld W pd f.instance_ids after
IsHeld-update W pd pm after (err e) live done = cc
IsHeld-update W pd pm after (ok f) live done =
    let ids = f.instance_ids in
    let placed : AllPlaced W pd ids (ok f) =
      (refl, All-map (IsLive ids) (IsPlace W pd ids) f.effective (live-IsPlace W pd ids) live) in
    (
      f,
      refl,
      finish_update-IsHeld W pd ids pm after (add_olds W pd pm.effective_pods f)
          (add_olds-AllPlaced W pd ids pm.effective_pods f placed) done,
    )

-- When updateSelectedPods has succeeded, each entry that the strategy keeps is either of a pod that
-- is there, or the placeholder of a deleted pod: then no pod that is there has its instance, its
-- instance is still allocated, and the decoration selects its labels.
pub update_selected_pods-IsPlace :
    (W : Setting) (pd : PodDecoration) (pods : List Placed) (pm after : Manager)
    → update_selected_pods W pd pods pm ≡ (after, none)
    → (f : Gathered) × (add_pods W pd.name pods nothing_gathered ≡ ok f)
      × All (IsPlace W pd f.instance_ids) after.effective_pods
unfolding update_selected_pods
update_selected_pods-IsPlace W pd pods pm after done =
    IsHeld-update W pd (record pm { latest = pd }) after (add_pods W pd.name pods nothing_gathered)
      (add_pods-AllLive W pd.name pods nothing_gathered tt) done
