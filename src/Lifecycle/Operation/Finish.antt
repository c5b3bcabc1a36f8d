-- ===== src/Lifecycle/Operation/Finish.antt =====
-- Finish in podopslifecycle/utils.go, and whether the pod is during ops after it.
use kuperator.Common.{
  ◌≡◌, Bool, true, false, ◌||◌, none, List, [], ◌∷◌, ◌++◌, arith, text_eq_refl, lookup-delete,
}
use kuperator.Pod.{operating, Names, key, Pod, Labels, set_labels}
use kuperator.Lifecycle.Operation.{
  UpdateFunc, Client, Adapter, check_operating_id, is_during_ops, all_updates, update_and_write,
  delete_operating_id, finish,
}

module _ (N : Names) (a : Adapter) where
  -- An update function, or a client, that does not fail or give the pod the operation's id again.
  abbrev pub LeavesOff : UpdateFunc → Type 0
  LeavesOff f =
      (p : Pod)
      → ((f p).2 ≡ none)
        × (check_operating_id N a p.labels ≡ false → check_operating_id N a (f p).0.labels ≡ false)

  abbrev pub AllLeaveOff : List UpdateFunc → Type 0
  AllLeaveOff [] = Unit {0}
  AllLeaveOff (f ∷ fs) = LeavesOff f × AllLeaveOff fs

  abbrev pub AcceptsOff : Client → Type 0
  AcceptsOff c =
      (p : Pod)
      → ((c p).1 ≡ none)
        × (check_operating_id N a p.labels ≡ false → check_operating_id N a (c p).0.labels ≡ false)

  all_updates-off :
      (b : Bool) (fs : List UpdateFunc) (f : UpdateFunc) (p : Pod)
      → AllLeaveOff fs
      → LeavesOff f
      → check_operating_id N a p.labels ≡ false
      → let r = all_updates b (fs ++ (f ∷ [])) p in
        (r.2 ≡ none) × (check_operating_id N a r.0.labels ≡ false)
  all_updates-off b [] f p h k d = ground (arith, k p)
  all_updates-off b (g ∷ fs) f p h k d =
      ground (arith, h.0 p, all_updates-off (b || (g p).1) fs f (g p).0 h.1 k)

  update_and_write-off :
      (c : Client) (need : Bool) (fs : List UpdateFunc) (f : UpdateFunc) (p : Pod)
      → AcceptsOff c
      → AllLeaveOff fs
      → LeavesOff f
      → check_operating_id N a p.labels ≡ false
      → let r = update_and_write c need (fs ++ (f ∷ [])) p in
        (r.2 ≡ none) × (check_operating_id N a r.0.labels ≡ false)
  unfolding update_and_write
  update_and_write-off c need fs f p ok h k d =
      ground
        (arith, all_updates-off false fs f p h k d, ok (all_updates false (fs ++ (f ∷ [])) p).0)

  delete_operating_id-off :
      (labels : Labels) → check_operating_id N a (delete_operating_id N a labels) ≡ false
  unfolding check_operating_id delete_operating_id
  delete_operating_id-off labels = ground (
    arith,
    lookup-delete (key N operating a.id) (key N operating a.id) labels,
    text_eq_refl (key N operating a.id),
  )

  -- Finish does not fail, whatever types the pod's labels give, and takes the operation's id off
  -- the pod, which then is not during ops, if the update functions and the client do not fail or
  -- give it the id again.
  pub finish-off :
      (client : Client) (fs : List UpdateFunc) (pod : Pod)
      → AcceptsOff client
      → AllLeaveOff fs
      → LeavesOff a.when_finish
      → let r = finish N client a fs pod in
        (r.2 ≡ none) × (check_operating_id N a r.0.labels ≡ false) × (is_during_ops N a r.0 ≡ false)
  unfolding finish is_during_ops
  finish-off client fs pod ok h k =
      let off = set_labels pod (delete_operating_id N a pod.labels) in
      ground (
        arith,
        update_and_write-off client true fs a.when_finish off ok h k
            (delete_operating_id-off pod.labels),
        update_and_write-off client false fs a.when_finish pod ok h k,
      )
