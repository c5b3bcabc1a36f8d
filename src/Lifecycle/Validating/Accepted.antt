-- ===== src/Lifecycle/Validating/Accepted.antt =====
-- What the validation accepts, in any order of the labels.
use kuperator.Common.{
  split_slash, ok, ◌≡◌, ◌↔◌, inl, inr, Bool, true, false, ◌&&◌, ◌||◌, Option, none, some, List, [],
  ◌∷◌, arith, Text, text_eq_refl, has_prefix, Dict, has, Error, Outcome, returns, panics,
  Bool-cases,
}
use kuperator.Pod.{
  set_insert, key, controlled_by_kusion_stack, Prefix, pre_checked, operation_permission, Names,
  Labels, Pod, contains,
}
use kuperator.Lifecycle.Mutating.{Operation}
use kuperator.Lifecycle.Validating.{
  two_parts, is_empty_text, is_deletion, pair, pair_prefixes, pair_of, pair_error, format_error,
  validating, Coexistence, find_expected, expect_all, coexist, label_error, or_else,
  validate_labels, no_coexistence,
}

module _ (N : Names) where
  -- Some label has the prefix.
  abbrev pub some_has : Prefix → Labels → Bool
  some_has p [] = false
  some_has p ((k, v) ∷ rest) = has_prefix k (N.prefix p) || some_has p rest

  -- A label with a well-known prefix has two parts.
  abbrev pub WellFormed : List Prefix → Text → Type 0
  WellFormed [] k = Unit {0}
  WellFormed (p ∷ ps) k =
      (has_prefix k (N.prefix p) ≡ true → two_parts (split_slash k) ≡ true) × WellFormed ps k

  -- The second part of a label of a pair, unless it is empty, is that of the other label too.
  abbrev pub PairedBy : Labels → Prefix → Text × List Text → Type 0
  PairedBy labels p (first, []) = ⊥
  PairedBy labels p (first, id ∷ rest) =
      is_empty_text id ≡ false → has (key N (pair p) id) labels ≡ true

  abbrev pub Paired : Labels → List Prefix → Text → Type 0
  Paired labels [] k = Unit {0}
  Paired labels (p ∷ ps) k =
      (has_prefix k (N.prefix p) ≡ true → PairedBy labels p (split_slash k)) × Paired labels ps k

  abbrev pub AllValid : Labels → Labels → Type 0
  AllValid labels [] = Unit {0}
  AllValid labels ((k, v) ∷ rest) =
      (WellFormed N.well_known k × Paired labels pair_prefixes k) × AllValid labels rest

  -- No label has both prefixes.
  abbrev pub Apart : Labels → Type 0
  Apart [] = Unit {0}
  Apart ((k, v) ∷ rest) =
      ((has_prefix k (N.prefix pre_checked) && has_prefix k (N.prefix operation_permission))
        ≡ false)
      × Apart rest

  -- The states of the loop: nothing seen, only one prefix seen (with what is expected then), both.
  abbrev checked_text : Text
  checked_text = N.prefix pre_checked

  abbrev permission_text : Text
  permission_text = N.prefix operation_permission

  data Seen : Coexistence → Bool → Bool → Type 0 where
    nothing_seen : Seen (record { expected = []; found = [] }) false false
    only_checked : Seen (record { expected = permission_text ∷ []; found = [] }) true false
    checked_first :
        Seen (record { expected = permission_text ∷ []; found = permission_text ∷ [] }) true true
    only_permission : Seen (record { expected = checked_text ∷ []; found = [] }) false true
    permission_first :
        Seen (record { expected = checked_text ∷ []; found = checked_text ∷ [] }) true true

  off_permission :
      (k : Text)
      → (has_prefix k checked_text && has_prefix k permission_text) ≡ false
      → has_prefix k checked_text ≡ true
      → has_prefix k permission_text ≡ false
  off_permission k apart on = ground (arith, apart, on)

  coexist-Seen :
      (labels : Labels) (k : Text) (s : Coexistence) (c p : Bool)
      → (has_prefix k checked_text && has_prefix k permission_text) ≡ false
      → Seen s c p
      → Seen
          (coexist N labels k s)
          (c || has_prefix k checked_text)
          (p || has_prefix k permission_text)
  unfolding coexist find_expected expect_all set_insert contains
  coexist-Seen labels k _ _ _ apart nothing_seen = elim (Bool-cases (has_prefix k checked_text)) [
    | inl on ↦ rw (on, off_permission k apart on) only_checked
    | inr off ↦ elim (Bool-cases (has_prefix k permission_text)) [
      | inl here ↦ rw (off, here) only_permission
      | inr neither ↦ rw (off, neither) nothing_seen
    ]
  ]
  coexist-Seen labels k _ _ _ apart only_checked = elim (Bool-cases (has_prefix k checked_text)) [
    | inl on ↦
        rw (off_permission k apart on, on, off_permission k apart on, text_eq_refl permission_text)
          only_checked
    | inr off ↦ elim (Bool-cases (has_prefix k permission_text)) [
      | inl here ↦ rw (here) checked_first
      | inr neither ↦ rw (neither, off, neither) only_checked
    ]
  ]
  coexist-Seen labels k _ _ _ apart checked_first = elim (Bool-cases (has_prefix k checked_text)) [
    | inl on ↦
        rw (off_permission k apart on, on, off_permission k apart on, text_eq_refl permission_text)
          checked_first
    | inr off ↦ elim (Bool-cases (has_prefix k permission_text)) [
      | inl here ↦ rw (here, text_eq_refl permission_text) checked_first
      | inr neither ↦ rw (neither, off, neither) checked_first
    ]
  ]
  coexist-Seen labels k _ _ _ apart only_permission =
      elim (Bool-cases (has_prefix k checked_text)) [
        | inl on ↦ rw (on) permission_first
        | inr off ↦ elim (Bool-cases (has_prefix k permission_text)) [
          | inl here ↦ rw (off, here, text_eq_refl checked_text, off) only_permission
          | inr neither ↦ rw (off, neither, off) only_permission
        ]
      ]
  coexist-Seen labels k _ _ _ apart permission_first =
      elim (Bool-cases (has_prefix k checked_text)) [
        | inl on ↦ rw (on, text_eq_refl checked_text) permission_first
        | inr off ↦ elim (Bool-cases (has_prefix k permission_text)) [
          | inl here ↦ rw (off, here, text_eq_refl checked_text, off) permission_first
          | inr neither ↦ rw (off, neither, off) permission_first
        ]
      ]

  or_else-none :
      (labels : Labels) (first next : Outcome (Option Error))
      → (or_else N labels first next ≡ returns none)
        ↔ ((first ≡ returns none) × (next ≡ returns none))
  or_else-none labels panics next = ground arith
  or_else-none labels (returns (some e)) next = ground arith
  or_else-none labels (returns none) next = ground arith

  format_error-none :
      (labels : Labels) (ps : List Prefix) (k : Text)
      → (format_error N labels ps k ≡ none) ↔ WellFormed ps k
  unfolding format_error
  format_error-none labels [] k = ground arith
  format_error-none labels (p ∷ ps) k = ground (arith, format_error-none labels ps k)

  pair_of-none :
      (labels : Labels) (p : Prefix) (parts : Text × List Text)
      → (pair_of N labels p parts ≡ returns none) ↔ PairedBy labels p parts
  pair_of-none labels p (first, []) = ground arith
  pair_of-none labels p (first, id ∷ rest) = ground arith

  pair_error-none :
      (labels : Labels) (ps : List Prefix) (k : Text)
      → (pair_error N labels ps k ≡ returns none) ↔ Paired labels ps k
  unfolding pair_error
  pair_error-none labels [] k = ground arith
  pair_error-none labels (p ∷ ps) k = ground (
    arith,
    pair_error-none labels ps k,
    pair_of-none labels p (split_slash k),
    or_else-none labels (pair_of N labels p (split_slash k)) (pair_error N labels ps k),
  )

  label_error-none :
      (labels : Labels) (k : Text)
      → (label_error N labels k ≡ returns none)
        ↔ (WellFormed N.well_known k × Paired labels pair_prefixes k)
  unfolding label_error
  label_error-none labels k =
      ground
        (arith, format_error-none labels N.well_known k, pair_error-none labels pair_prefixes k)

  -- The loop from a state of it.
  Seen-accepts :
      (labels rest : Labels) (s : Coexistence) (c p : Bool)
      → Apart rest
      → Seen s c p
      → (validate_labels N labels rest s ≡ returns none) ↔ (
          AllValid labels rest
          × ((c || some_has pre_checked rest) ≡ (p || some_has operation_permission rest)))
  unfolding validate_labels
  Seen-accepts labels [] _ _ _ apart nothing_seen = ground arith
  Seen-accepts labels [] _ _ _ apart only_checked = ground arith
  Seen-accepts labels [] _ _ _ apart checked_first = ground arith
  Seen-accepts labels [] _ _ _ apart only_permission = ground arith
  Seen-accepts labels [] _ _ _ apart permission_first = ground arith
  Seen-accepts labels ((k, v) ∷ rest) s c p apart seen =
      let next =
        Seen-accepts labels rest (coexist N labels k s) (c || has_prefix k checked_text)
          (p || has_prefix k permission_text) apart.1 (coexist-Seen labels k s c p apart.0 seen) in
      ground (
        arith,
        next,
        label_error-none labels k,
        or_else-none labels (label_error N labels k)
            (validate_labels N labels rest (coexist N labels k s)),
      )

  -- In a request that is not a deletion, a pod that KusionStack controls, whose annotation of
  -- available conditions parses and of whose labels none has both coexisting prefixes, is accepted
  -- exactly if each label with a well-known prefix has two parts, each label of a pair has its other
  -- one, and a label has the one coexisting prefix if and only if a label has the other: the order of
  -- the labels does not matter.
  pub validating_iff :
      (pod : Pod) (operation : Operation) (expected : Option (Dict Text))
      → is_deletion operation ≡ false
      → controlled_by_kusion_stack N pod ≡ true
      → pod.expected_finalizers ≡ ok expected
      → Apart pod.labels
      → (validating N pod operation ≡ returns none) ↔ (
          AllValid pod.labels pod.labels
          × (some_has pre_checked pod.labels ≡ some_has operation_permission pod.labels))
  unfolding validating
  validating_iff pod operation expected kind c parsed apart =
      rw (kind, c, parsed)
        (Seen-accepts pod.labels pod.labels no_coexistence false false apart nothing_seen)
