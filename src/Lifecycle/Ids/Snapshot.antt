-- ===== src/Lifecycle/Ids/Snapshot.antt =====
-- IDToLabelsMap: the entries of the map next to the pod's labels.
use kuperator.Common.{
  ◌≡◌, refl, subst, Bool, true, false, ◌||◌, none, List, [], ◌∷◌, arith, if◌then◌else◌, Text,
  text_eq, text_eq_iff, Dict, lookup, insert, lookup-insert, Result, ok, err, Bool-cases, inl, inr,
  Option-cases,
}
use kuperator.Pod.{Prefix, Names, key, Labels}
use kuperator.Lifecycle.Ids.{IdMaps, collect_ids, id_labels, maps_of, with_id, id_to_labels_map}

-- The prefix is one of the list, compared as a text.
abbrev pub known_in : Names → List Prefix → Prefix → Bool
known_in N [] p = false
known_in N (q ∷ qs) p = text_eq (N.prefix q) (N.prefix p) || known_in N qs p

module _ (N : Names) (labels : Labels) where
  -- The entry of an id has its labels with a well-known prefix, and no others.
  abbrev pub IsSnapshot : Text → Labels → Type 0
  IsSnapshot id m =
      (p : Prefix)
      → lookup (N.prefix p) m
        ≡ (if known_in N N.well_known p then lookup (key N p id) labels else none)

  abbrev pub AllSnapshots : Dict Labels → Type 0
  AllSnapshots [] = Unit {0}
  AllSnapshots ((id, m) ∷ rest) = IsSnapshot id m × AllSnapshots rest

  insert-AllSnapshots :
      (id : Text) (m : Labels) (rest : Dict Labels)
      → IsSnapshot id m
      → AllSnapshots rest
      → AllSnapshots (insert id m rest)
  unfolding insert
  insert-AllSnapshots id m [] s all = (s, tt)
  insert-AllSnapshots id m ((j, w) ∷ rest) s all = elim (Bool-cases (text_eq j id)) [
    | inl same ↦ rw same (s, all.1)
    | inr other ↦ rw other (all.0, insert-AllSnapshots id m rest s all.1)
  ]

  same_key :
      (p q : Prefix) (id : Text)
      → text_eq (N.prefix q) (N.prefix p) ≡ true
      → lookup (key N q id) labels ≡ lookup (key N p id) labels
  same_key p q id h = rw ((text_eq_iff _ _).0 h)

  lookup-id_labels :
      (id : Text) (p : Prefix) (ps : List Prefix)
      → lookup (N.prefix p) (id_labels N labels id ps)
        ≡ (if known_in N ps p then lookup (key N p id) labels else none)
  unfolding id_labels lookup
  lookup-id_labels id p [] = refl
  lookup-id_labels id p (q ∷ ps) = elim (Option-cases (lookup (key N q id) labels)) [
    | inl absent ↦ ground (arith, absent, same_key p q id, lookup-id_labels id p ps)
    | inr (v, present) ↦ ground (
      arith,
      present,
      same_key p q id,
      lookup-insert (N.prefix q) (N.prefix p) v (id_labels N labels id ps),
      lookup-id_labels id p ps,
    )
  ]

  with_id-AllSnapshots :
      (id : Text) (m : Labels) (rest : Dict Labels)
      → IsSnapshot id m
      → AllSnapshots rest
      → AllSnapshots (with_id N id m rest)
  with_id-AllSnapshots id [] rest s all = all
  with_id-AllSnapshots id (l ∷ ls) rest s all = insert-AllSnapshots id (l ∷ ls) rest s all

  -- So it is for every entry of the map.
  maps_of-AllSnapshots : (ids : List Text) → AllSnapshots (maps_of N labels ids).0
  unfolding maps_of
  maps_of-AllSnapshots [] = tt
  maps_of-AllSnapshots (id ∷ ids) =
      with_id-AllSnapshots id (id_labels N labels id N.well_known) (maps_of N labels ids).0
        (λ p. lookup-id_labels id p N.well_known) (maps_of-AllSnapshots ids)

  -- Every entry that IDToLabelsMap returns for an id has the labels of the pod with a well-known
  -- prefix and that id, and no others.
  pub id_to_labels_map-AllSnapshots :
      (r : IdMaps) → id_to_labels_map N labels ≡ ok r → AllSnapshots r.0
  unfolding id_to_labels_map
  id_to_labels_map-AllSnapshots r e = of_ids (collect_ids N labels []) e
    where
      of_ids :
          (c : Result (List Text))
          → (elim c [ err x ↦ err x | ok ids ↦ ok (maps_of N labels ids) ]) ≡ ok r
          → AllSnapshots r.0
      of_ids (err x) h = absurd (ground arith)
      of_ids (ok ids) h =
          let same : maps_of N labels ids ≡ r = cc in
          subst (λ x. AllSnapshots x.0) same (maps_of-AllSnapshots ids)
