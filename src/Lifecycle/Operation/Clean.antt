-- ===== src/Lifecycle/Operation/Clean.antt =====
-- Beginning an operation after the one with the same id is undone.
use kuperator.Common.{
  ◌≡◌, Bool, true, false, Option, none, some, List, Text, ok, Error, arith, insert,
}
use kuperator.Pod.{Names, IsNames, Pod, set_labels, key, undo_operation_type}
use kuperator.Lifecycle.Ids.{is_lifecycle_on_pod}
use kuperator.Lifecycle.Operation.{
  Adapter, Client, UpdateFunc, is_during_ops, undo, after_undo, after_check,
  begin_with_cleaning_old,
}
use kuperator.Lifecycle.Operation.Begin.{Accepts, AllLeave, Leaves, begin-during}

module _ (N : Names) (names : IsNames N) (a : Adapter) where
  after_undo-during :
      (client : Client) (now : Text) (fs : List UpdateFunc) (r : Pod × Option Error)
      → a.allow_multi_type ≡ true
      → Accepts N a client
      → AllLeave N a fs
      → Leaves N a a.when_begin
      → r.1 ≡ none
      → let s = after_undo N client now a fs r in (s.2 ≡ none) × (is_during_ops N a s.0 ≡ true)
  after_undo-during client now fs (pod, some e) multi accepts leaves when h = absurd (ground arith)
  after_undo-during client now fs (pod, none) multi accepts leaves when h =
      begin-during N names a client now fs pod multi accepts leaves when

  after_check-during :
      (client : Client) (now : Text) (fs : List UpdateFunc) (pod : Pod) (b : Bool)
      → a.allow_multi_type ≡ true
      → Accepts N a client
      → AllLeave N a fs
      → Leaves N a a.when_begin
      → let s = after_check N client now a fs pod (ok b) in
        (s.2 ≡ none) × (is_during_ops N a s.0 ≡ true)
  unfolding undo
  after_check-during client now fs pod true multi accepts leaves when =
      let undone = set_labels pod (insert (key N undo_operation_type a.id) a.op_type pod.labels) in
      after_undo-during client now fs (client undone) multi accepts leaves when (accepts undone).0
  after_check-during client now fs pod false multi accepts leaves when =
      begin-during N names a client now fs pod multi accepts leaves when

  -- Where several operators may have one type and the labels of the pod can be read,
  -- BeginWithCleaningOld returns no error and the operation is during on the pod that it leaves,
  -- whether or not one with the same id had to be undone, if the client and the update functions
  -- return no error and take no operation off that is during.
  pub begin_with_cleaning_old-during :
      (client : Client) (now : Text) (fs : List UpdateFunc) (pod : Pod) (b : Bool)
      → a.allow_multi_type ≡ true
      → Accepts N a client
      → AllLeave N a fs
      → Leaves N a a.when_begin
      → is_lifecycle_on_pod N a.id pod.labels ≡ ok b
      → let s = begin_with_cleaning_old N client now a fs pod in
        (s.2 ≡ none) × (is_during_ops N a s.0 ≡ true)
  unfolding begin_with_cleaning_old
  begin_with_cleaning_old-during client now fs pod b multi accepts leaves when read =
      rw read (after_check-during client now fs pod b multi accepts leaves when)
