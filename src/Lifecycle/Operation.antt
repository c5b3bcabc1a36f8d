-- ===== src/Lifecycle/Operation.antt =====
-- pkg/controllers/utils/podopslifecycle/utils.go: how an operator begins, finishes and undoes its
-- lifecycle on a pod. `now` is the text of the current time, as it is written into a label.
pub mod Begin
pub mod Finish
pub mod Allow
pub mod Clean
pub mod Examples
use kuperator.Common.{
  ℕ, ◌-◌, ◌*◌, Bool, true, false, not, ◌&&◌, ◌||◌, Option, none, some, List, [], ◌∷◌, ◌++◌, ltb,
  if◌then◌else◌, is_some, Text, text_eq, has_prefix, Dict, lookup, insert, delete, has, Result, ok,
  err, Error, type_taken, type_exists, parse_int, half_word, word, zero, suc, ◌==◌, ◌+◌,
}
use kuperator.Pod.{
  Prefix, operating, operation_type, operate, undo_operation_type, Names, key, Pod, Labels,
  set_labels,
}
use kuperator.Lifecycle.Ids.{is_lifecycle_on_pod}

-- The pod as a call leaves it, and the two results of the call.
abbrev pub Reply : Type 0
Reply = Pod × Bool × Option Error

abbrev pub UpdateFunc : Type 0
UpdateFunc = Pod → Reply

-- The client's Update.
abbrev pub Client : Type 0
Client = Pod → Pod × Option Error

-- LifecycleAdapter
pub record Adapter : Type 0 where
  pub id : Text
  pub op_type : Text
  pub allow_multi_type : Bool
  pub when_begin : UpdateFunc
  pub when_finish : UpdateFunc

abbrev text_or_empty : Option Text → Text
text_or_empty none = []
text_or_empty (some v) = v

abbrev pub is_empty : List Text → Bool
is_empty [] = true
is_empty (k ∷ ks) = false

abbrev pub all_updates : Bool → List UpdateFunc → Pod → Reply
all_updates updated [] pod = (pod, updated, none)
all_updates updated (f ∷ fs) pod =
    let (pod', now_updated, error) = f pod in
    elim error [
      | some e ↦ (pod', updated, some e)
      | none ↦ all_updates (updated || now_updated) fs pod'
    ]

unfoldable pub default_update_all : List UpdateFunc → Pod → Reply
default_update_all fs pod = all_updates false fs pod

abbrev after_update : Pod × Option Error → Reply
after_update (pod, some e) = (pod, false, some e)
after_update (pod, none) = (pod, true, none)

-- The end of Begin and of Finish: the update functions, and a write if anything changed.
unfoldable pub update_and_write : Client → Bool → List UpdateFunc → Pod → Reply
unfolding default_update_all
update_and_write client need_update fs pod =
    let (pod', updated, error) = default_update_all fs pod in
    elim error [
      | some e ↦ (pod', updated, some e)
      | none ↦ if need_update || updated then after_update (client pod') else (pod', false, none)
    ]

abbrev positive : ℕ → Option ℕ
positive zero = none
positive (suc n) = some (suc n)

-- The delay less time.Since(start), if that is positive. The start was parsed as an int64 of
-- nanoseconds: from `half_word` on it is negative.
abbrev pub wait_left : ℕ → ℕ → ℕ → Option ℕ
wait_left delay_seconds now started =
    let delay = delay_seconds * 1_000_000_000 in
    if ltb started half_word
    then positive (delay + started - now)
    else positive (delay - (now + (word - started)))

module _ (N : Names) where
  unfoldable pub check_operating_id : Adapter → Labels → Bool
  check_operating_id a labels = has (key N operating a.id) labels

  unfoldable pub check_operation_type : Adapter → Labels → Text × Bool
  check_operation_type a labels =
      let v = text_or_empty (lookup (key N operation_type a.id) labels) in (v, text_eq v a.op_type)

  unfoldable pub check_operate : Adapter → Labels → Option Text
  check_operate a labels = lookup (key N operate a.id) labels

  unfoldable pub is_during_ops : Adapter → Pod → Bool
  unfolding check_operating_id check_operation_type
  is_during_ops a pod = check_operating_id a pod.labels && (check_operation_type a pod.labels).1

  unfoldable pub set_operating_id : Text → Adapter → Labels → Labels
  set_operating_id now a labels = insert (key N operating a.id) now labels

  unfoldable pub set_operation_type : Adapter → Labels → Labels
  set_operation_type a labels = insert (key N operation_type a.id) a.op_type labels

  unfoldable pub delete_operating_id : Adapter → Labels → Labels
  delete_operating_id a labels = delete (key N operating a.id) labels

  -- The keys of the labels that give this type to an operation.
  unfoldable pub query_by_operation_type : Text → Labels → List Text
  query_by_operation_type t [] = []
  query_by_operation_type t ((k, v) ∷ rest) =
      let others = query_by_operation_type t rest in
      if has_prefix k (N.prefix operation_type) && text_eq v t then k ∷ others else others

  -- The labels that Begin adds to those that are there.
  unfoldable pub begin_labels : Text → Adapter → Bool → Bool → Labels → Labels
  unfolding set_operating_id set_operation_type
  begin_labels now a has_id has_type labels =
      let labels' = if has_id then labels else set_operating_id now a labels in
      if has_type then labels' else set_operation_type a labels'

  unfoldable pub begin : Client → Text → Adapter → List UpdateFunc → Pod → Reply
  unfolding check_operating_id check_operation_type begin_labels update_and_write
  begin client now a fs pod =
      let has_id = check_operating_id a pod.labels in
      let (operation, has_type) = check_operation_type a pod.labels in
      let funcs = fs ++ (a.when_begin ∷ []) in
      if has_id && has_type
      then (if text_eq operation a.op_type
          then update_and_write client false funcs pod
          else (pod, false, some (type_taken operation)))
      else if not (is_empty (query_by_operation_type a.op_type pod.labels))
          && not a.allow_multi_type
      then (pod, false, some (type_exists a.op_type))
      else update_and_write client true funcs
          (set_labels pod (begin_labels now a has_id has_type pod.labels))

  unfoldable pub finish : Client → Adapter → List UpdateFunc → Pod → Reply
  unfolding check_operating_id check_operation_type delete_operating_id update_and_write
  finish client a fs pod =
      let has_id = check_operating_id a pod.labels in
      let (operation, has_type) = check_operation_type a pod.labels in
      let funcs = fs ++ (a.when_finish ∷ []) in
      if has_type && not (text_eq operation a.op_type)
      then (pod, false, some (type_taken operation))
      else if has_id || has_type
      then update_and_write client true funcs (set_labels pod (delete_operating_id a pod.labels))
      else update_and_write client false funcs pod

  unfoldable pub undo : Client → Adapter → Pod → Pod × Option Error
  undo client a pod =
      client (set_labels pod (insert (key N undo_operation_type a.id) a.op_type pod.labels))

  -- The delay to wait for, and whether the operation is allowed.
  unfoldable pub allow_ops : ℕ → Adapter → ℕ → Pod → Option ℕ × Bool
  unfolding is_during_ops check_operate
  allow_ops now a delay_seconds pod =
      if is_during_ops a pod
      then elim (check_operate a pod.labels) [
        | none ↦ (none, false)
        | some start ↦ if delay_seconds == 0 then (none, true) else elim (parse_int start) [
          | none ↦ (none, true)
          | some started ↦ (wait_left delay_seconds now started, true)
        ]
      ]
      else (none, false)

  abbrev pub after_undo : Client → Text → Adapter → List UpdateFunc → Pod × Option Error → Reply
  after_undo client now a fs (pod, some e) = (pod, false, some e)
  after_undo client now a fs (pod, none) = begin client now a fs pod

  abbrev pub after_check : Client → Text → Adapter → List UpdateFunc → Pod → Result Bool → Reply
  after_check client now a fs pod (err e) = (pod, false, some e)
  after_check client now a fs pod (ok true) = after_undo client now a fs (undo client a pod)
  after_check client now a fs pod (ok false) = begin client now a fs pod

  unfoldable pub begin_with_cleaning_old : Client → Text → Adapter → List UpdateFunc → Pod → Reply
  begin_with_cleaning_old client now a fs pod =
      after_check client now a fs pod (is_lifecycle_on_pod N a.id pod.labels)

-- AddLabel, and the update function that adds the label for a deletion.
unfoldable pub add_label : Text → Text → UpdateFunc
add_label k v pod =
    if has k pod.labels
    then (pod, false, none)
    else (set_labels pod (insert k v pod.labels), true, none)

unfoldable pub when_begin_delete : Text → Text → UpdateFunc
when_begin_delete preparing_delete now pod = add_label preparing_delete now pod
