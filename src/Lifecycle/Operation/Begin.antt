-- ===== src/Lifecycle/Operation/Begin.antt =====
-- Begin in podopslifecycle/utils.go, and whether the pod is during ops after it.
use kuperator.Common.{
  ◌≡◌, refl, Bool, true, false, ◌||◌, none, some, List, [], ◌∷◌, ◌++◌, arith, Text, text_eq_refl,
  text_eq_iff, lookup, insert, lookup-insert, type_exists, has_prefix, has_prefix-append,
  join_slash,
}
use kuperator.Pod.{operating, operation_type, Names, IsNames, key, Pod, Labels, set_labels}
use kuperator.Pod.Labels.{key_ne_prefix}
use kuperator.Lifecycle.Operation.{
  UpdateFunc, Client, Adapter, check_operating_id, check_operation_type, is_during_ops,
  query_by_operation_type, all_updates, update_and_write, begin_labels, begin, is_empty,
}

module _ (N : Names) (a : Adapter) where
  -- An update function, or a client, that does not fail or end the operation.
  abbrev pub Leaves : UpdateFunc → Type 0
  Leaves f =
      (p : Pod) → ((f p).2 ≡ none) × (is_during_ops N a p ≡ true → is_during_ops N a (f p).0 ≡ true)

  abbrev pub AllLeave : List UpdateFunc → Type 0
  AllLeave [] = Unit {0}
  AllLeave (f ∷ fs) = Leaves f × AllLeave fs

  abbrev pub Accepts : Client → Type 0
  Accepts c =
      (p : Pod) → ((c p).1 ≡ none) × (is_during_ops N a p ≡ true → is_during_ops N a (c p).0 ≡ true)

  AllLeave-append :
      (fs : List UpdateFunc) (f : UpdateFunc) → AllLeave fs → Leaves f → AllLeave (fs ++ (f ∷ []))
  AllLeave-append [] f h k = (k, tt)
  AllLeave-append (g ∷ fs) f h k = (h.0, AllLeave-append fs f h.1 k)

  all_updates-during :
      (b : Bool) (fs : List UpdateFunc) (p : Pod)
      → AllLeave fs
      → is_during_ops N a p ≡ true
      → ((all_updates b fs p).2 ≡ none) × (is_during_ops N a (all_updates b fs p).0 ≡ true)
  all_updates-during b [] p h d = (refl, d)
  all_updates-during b (f ∷ fs) p h d =
      ground (arith, h.0 p, all_updates-during (b || (f p).1) fs (f p).0 h.1)

  update_and_write-during :
      (c : Client) (need : Bool) (fs : List UpdateFunc) (p : Pod)
      → Accepts c
      → AllLeave fs
      → is_during_ops N a p ≡ true
      → let r = update_and_write c need fs p in (r.2 ≡ none) × (is_during_ops N a r.0 ≡ true)
  unfolding update_and_write
  update_and_write-during c need fs p ok h d =
      ground (arith, all_updates-during false fs p h d, ok (all_updates false fs p).0)

module _ (N : Names) (names : IsNames N) (a : Adapter) where
  -- With its two labels added, or found, the pod is during ops.
  begin_labels-during :
      (now : Text) (pod : Pod)
      → is_during_ops N a (
          set_labels pod (
            begin_labels N now a
              (check_operating_id N a pod.labels)
              (check_operation_type N a pod.labels).1
              pod.labels))
        ≡ true
  unfolding is_during_ops check_operating_id check_operation_type begin_labels
  begin_labels-during now pod =
      let L = pod.labels in
      let id_key = key N operating a.id in
      let type_key = key N operation_type a.id in
      let L₁ = insert id_key now L in
      ground (
        arith,
        lookup-insert id_key id_key now L,
        lookup-insert id_key type_key now L,
        lookup-insert type_key id_key a.op_type L,
        lookup-insert type_key type_key a.op_type L,
        lookup-insert type_key id_key a.op_type L₁,
        lookup-insert type_key type_key a.op_type L₁,
        key_ne_prefix N names operating operation_type a.id a.id (λ e. cc),
        key_ne_prefix N names operation_type operating a.id a.id (λ e. cc),
        text_eq_refl id_key,
        text_eq_refl type_key,
        text_eq_refl a.op_type,
      )

  -- Where several operators may have one type, Begin does not fail and leaves the pod during ops,
  -- if the update functions and the client do not fail or take its labels away.
  pub begin-during :
      (client : Client) (now : Text) (fs : List UpdateFunc) (pod : Pod)
      → a.allow_multi_type ≡ true
      → Accepts N a client
      → AllLeave N a fs
      → Leaves N a a.when_begin
      → let r = begin N client now a fs pod in (r.2 ≡ none) × (is_during_ops N a r.0 ≡ true)
  unfolding begin is_during_ops
  begin-during client now fs pod multi ok leaves when =
      let all = AllLeave-append N a fs a.when_begin leaves when in
      let started = set_labels pod (
        begin_labels N now a (check_operating_id N a pod.labels)
          (check_operation_type N a pod.labels).1 pod.labels) in
      ground (
        arith,
        multi,
        update_and_write-during N a client false (fs ++ (a.when_begin ∷ [])) pod ok all,
        update_and_write-during N a client true (fs ++ (a.when_begin ∷ [])) started ok all
            (begin_labels-during now pod),
      )

  query_of_lookup :
      (t : Text) (k : Text) (labels : Labels)
      → has_prefix k (N.prefix operation_type) ≡ true
      → lookup k labels ≡ some t
      → is_empty (query_by_operation_type N t labels) ≡ false
  unfolding query_by_operation_type lookup
  query_of_lookup t k [] p h = absurd (ground arith)
  query_of_lookup t k ((j, v) ∷ rest) p h =
      ground (arith, query_of_lookup t k rest p, text_eq_iff j k, text_eq_iff v t)

  -- Where a type may be used once, Begin of an operation that is not yet on the pod is refused if
  -- any id has the type, its own included, and the pod is not changed or written.
  pub begin_refuses :
      (client : Client) (now : Text) (fs : List UpdateFunc) (pod : Pod) (id : Text)
      → a.allow_multi_type ≡ false
      → is_during_ops N a pod ≡ false
      → lookup (key N operation_type id) pod.labels ≡ some a.op_type
      → begin N client now a fs pod ≡ (pod, false, some (type_exists a.op_type))
  unfolding begin is_during_ops join_slash
  begin_refuses client now fs pod id single idle found = ground (
    arith,
    single,
    query_of_lookup a.op_type (key N operation_type id) pod.labels
        (has_prefix-append (N.prefix operation_type) (b'/' ∷ id)) found,
  )
