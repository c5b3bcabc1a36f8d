-- ===== src/Expectations/Counter/Observed.antt =====
-- ControllerExpectations after a number of watch events.
use kuperator.Common.{
  ℕ, ◌+◌, ◌-◌, ◌<◌, ◌≡◌, refl, ◌∙◌, Bool, true, false, ◌&&◌, Option, none, some, List, [], ◌∷◌,
  arith, if◌then◌else◌, leb, ltb, Text, text_eq, text_eq_refl, text_eq_iff, Result, ok, err,
  returns, panics, add64, neg64, is_le_zero, word, half_word, Bool-cases, inl, inr, count,
}
use native.Mathlib.Nat.{zero-add, add-zero, add_assoc}
use kuperator.Expectations.{Store, IsStore, Get-cases}
use kuperator.Expectations.Counter.{
  ControlleeExpectations, key_of, controllee_add, fulfilled, satisfied_expectations,
  lower_expectations, creation_observed, deletion_observed, set_expectations, is_expired,
  expectations_timeout,
}

-- A watch event for a controller's key.
pub data Event : Type 0 where
  created deleted : Text → Event

abbrev is_created : Text → Event → Bool
is_created k (created j) = text_eq j k
is_created k (deleted j) = false

abbrev is_deleted : Text → Event → Bool
is_deleted k (created j) = false
is_deleted k (deleted j) = text_eq j k

-- How many creations and deletions of controllees of `k` are among the events.
abbrev pub creations : Text → List Event → ℕ
creations k es = count (is_created k) es

abbrev pub deletions : Text → List Event → ℕ
deletions k es = count (is_deleted k) es

-- A counter that began at `a` and was lowered `n` times.
abbrev Lowered : ℕ → ℕ → ℕ → Type 0
Lowered a n v = (v < word) × (add64 v n ≡ a)

Lowered-zero : (a : ℕ) → a < word → Lowered a 0 a
Lowered-zero a h = omega arith

Lowered-one : (a n v : ℕ) → Lowered a n v → Lowered a (n + 1) (add64 v (neg64 1))
Lowered-one a n v l = omega arith

Lowered-none : (a n v : ℕ) → Lowered a n v → Lowered a n (add64 v (neg64 0))
Lowered-none a n v l = omega arith

Lowered-more : (a n v : ℕ) → Lowered a n v → Lowered a (n + 0) (add64 v (neg64 0))
Lowered-more a n v l = omega arith

Lowered-same : (a n v : ℕ) → Lowered a n v → Lowered a (n + 0) v
Lowered-same a n v l = omega arith

-- It is at most 0 exactly when it was lowered `a` times.
Lowered-is_le_zero :
    (a n v : ℕ) → a < half_word → n < half_word → Lowered a n v → is_le_zero v ≡ leb a n
Lowered-is_le_zero a n v h k l = ground arith

abbrev lowered :
    ℕ → ℕ → Result (Option ControlleeExpectations) → Result (Option ControlleeExpectations)
lowered x y (ok (some e)) = ok (some (controllee_add e (neg64 x) (neg64 y)))
lowered x y (ok none) = ok none
lowered x y (err e) = err e

module _ (S : Store ControlleeExpectations) where
  open S use {State, get_by_key}

  pub observe : State → Event → State
  observe s (created j) = creation_observed S s j
  observe s (deleted j) = deletion_observed S s j

  pub observe_all : State → List Event → State
  observe_all s [] = s
  observe_all s (e ∷ es) = observe_all (observe s e) es

  -- What is kept for `k` after `c` creations and `d` deletions of those that were set.
  record Waits (k : Text) (add del t c d : ℕ) (s : State) : Type 0 where
    item : ControlleeExpectations
    kept : get_by_key s k ≡ ok (some item)
    added : Lowered add c item.add
    dropped : Lowered del d item.del
    set_at : item.timestamp ≡ t

module _ (S : Store ControlleeExpectations) (laws : IsStore key_of S) where
  open S use {State, get_by_key}

  -- Lowering the counters of `j` changes them, and nothing under another key.
  get-lower_expectations :
      (s : State) (j k : Text) (x y : ℕ)
      → get_by_key (lower_expectations S s j x y) k
        ≡ (if text_eq j k then lowered x y (get_by_key s k) else get_by_key s k)
  unfolding lower_expectations controllee_add
  get-lower_expectations s j k x y = elim (Get-cases (get_by_key s j)) [
    | inl (v, h) ↦ ground (
      arith,
      h,
      text_eq_iff j k,
      laws.keyed s j v h,
      laws.write_lem s (controllee_add v (neg64 x) (neg64 y)) v k,
    )
    | inr (inl h) ↦ ground (arith, h, text_eq_iff j k)
    | inr (inr (e, h)) ↦ ground (arith, h, text_eq_iff j k)
  ]

  untouched :
      (s s' : State) (k : Text) (add del t c d : ℕ)
      → Waits S k add del t c d s
      → get_by_key s' k ≡ get_by_key s k
      → Waits S k add del t (c + 0) (d + 0) s'
  untouched s s' k add del t c d w e = record {
    item = w.item;
    kept = e ∙ w.kept;
    added = Lowered-same add c w.item.add w.added;
    dropped = Lowered-same del d w.item.del w.dropped;
    set_at = w.set_at;
  }

  observe-Waits :
      (s : State) (ev : Event) (k : Text) (add del t c d : ℕ)
      → Waits S k add del t c d s
      → Waits S k add del t
          (c + (if is_created k ev then 1 else 0))
          (d + (if is_deleted k ev then 1 else 0))
          (observe S s ev)
  unfolding observe creation_observed deletion_observed controllee_add
  observe-Waits s (created j) k add del t c d w = elim (Bool-cases (text_eq j k)) [
    | inl same ↦ rw same (record {
      item = controllee_add w.item (neg64 1) (neg64 0);
      kept = ground (arith, get-lower_expectations s j k 1 0, w.kept);
      added = Lowered-one add c w.item.add w.added;
      dropped = Lowered-more del d w.item.del w.dropped;
      set_at = w.set_at;
    })
    | inr other ↦ rw other (
        untouched s (creation_observed S s j) k add del t c d w
          (ground (arith, get-lower_expectations s j k 1 0, w.kept)))
  ]
  observe-Waits s (deleted j) k add del t c d w = elim (Bool-cases (text_eq j k)) [
    | inl same ↦ rw same (record {
      item = controllee_add w.item (neg64 0) (neg64 1);
      kept = ground (arith, get-lower_expectations s j k 0 1, w.kept);
      added = Lowered-more add c w.item.add w.added;
      dropped = Lowered-one del d w.item.del w.dropped;
      set_at = w.set_at;
    })
    | inr other ↦ rw other (
        untouched s (deletion_observed S s j) k add del t c d w
          (ground (arith, get-lower_expectations s j k 0 1, w.kept)))
  ]

  observe_all-Waits :
      (s : State) (es : List Event) (k : Text) (add del t c d : ℕ)
      → Waits S k add del t c d s
      → Waits S k add del t (c + creations k es) (d + deletions k es) (observe_all S s es)
  unfolding observe_all
  observe_all-Waits s [] k add del t c d w = rw (add-zero, add-zero) w
  observe_all-Waits s (ev ∷ es) k add del t c d w =
      rw (← add_assoc, ← add_assoc)
        (observe_all-Waits (observe S s ev) es k add del t (c + (if is_created k ev then 1 else 0))
          (d + (if is_deleted k ev then 1 else 0)) (observe-Waits s ev k add del t c d w))

  set_expectations-Waits :
      (s s' : State) (t : ℕ) (k : Text) (add del : ℕ)
      → add < word
      → del < word
      → set_expectations S t s k add del ≡ ok s'
      → Waits S k add del t 0 0 s'
  unfolding set_expectations
  set_expectations-Waits s s' t k add del h h' e =
      let item : ControlleeExpectations = record { add = add; del = del; key = k; timestamp = t } in
      let (u, eq, got) = laws.add_lem s item in
      record {
        item = item;
        kept = ground (arith, got k, eq, text_eq_refl k);
        added = Lowered-zero add h;
        dropped = Lowered-zero del h';
        set_at = refl;
      }

  -- After a controller has set its expectations and watch events for any controllers have come in,
  -- it is synced exactly if at least the expected numbers of creations and deletions are among the
  -- events for its own key. Until then it waits, and panics once ten minutes have passed.
  pub satisfied_expectations_after :
      (s s' : State) (t now : ℕ) (k : Text) (add del : ℕ) (es : List Event)
      → add < half_word
      → del < half_word
      → creations k es < half_word
      → deletions k es < half_word
      → set_expectations S t s k add del ≡ ok s'
      → satisfied_expectations S now (observe_all S s' es) k ≡ (
          if leb add (creations k es) && leb del (deletions k es)
          then returns true
          else if ltb expectations_timeout (now - t)
          then panics
          else returns false)
  unfolding satisfied_expectations fulfilled is_expired
  satisfied_expectations_after s s' t now k add del es ha hd hc he set =
      let w =
        observe_all-Waits s' es k add del t 0 0
          (set_expectations-Waits s s' t k add del (omega arith) (omega arith) set) in
      let v = rw (zero-add, zero-add) at w in
      ground (
        arith,
        v.kept,
        v.set_at,
        Lowered-is_le_zero add (creations k es) v.item.add ha hc v.added,
        Lowered-is_le_zero del (deletions k es) v.item.del hd he v.dropped,
      )
