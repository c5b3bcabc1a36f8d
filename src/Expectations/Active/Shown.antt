-- ===== src/Expectations/Active/Shown.antt =====
-- What the cluster has to show of an expected item, against isSatisfied of the item.
use kuperator.Common.{
  ℕ, ◌+◌, ◌<◌, ◌≡◌, refl, ◌∙◌, ap, ◌↔◌, ◌⊎◌, inl, inr, true, false, Option, none, some, arith,
  if◌then◌else◌, Text, Result, ok, err, Bool-cases, Option-cases, signed_lt, parse_int,
}
use kuperator.Expectations.Active.Item.{
  Action, create, delete, update, ActiveExpectationItem, Resource, Fetched, fetched, missing,
  broken, Api, satisfied_by, item_is_satisfied,
}

module _ (api : Api) (now : ℕ) (namespace : Text) where
  abbrev seen : ActiveExpectationItem → Fetched
  seen i = api i.kind namespace i.name

  -- The cluster shows the item: an object to create is there, or has not come for more than thirty
  -- seconds; one to delete is on its way or gone; one to update is gone, or has a version that cannot
  -- be read or is not below the expected one.
  pub data IsShown (i : ActiveExpectationItem) : Type 0 where
    created :
        (r : Resource) → i.action ≡ create → api i.kind namespace i.name ≡ fetched r → IsShown i
    overdue :
        i.action ≡ create
        → api i.kind namespace i.name ≡ missing
        → i.record_timestamp + 30_000_000_000 < now
        → IsShown i
    terminates :
        (r : Resource)
        → i.action ≡ delete
        → api i.kind namespace i.name ≡ fetched r
        → r.is_deleting ≡ true
        → IsShown i
    deleted : i.action ≡ delete → api i.kind namespace i.name ≡ missing → IsShown i
    unreadable :
        (r : Resource)
        → i.action ≡ update
        → api i.kind namespace i.name ≡ fetched r
        → parse_int r.resource_version ≡ none
        → IsShown i
    updated :
        (r : Resource) (v : ℕ)
        → i.action ≡ update
        → api i.kind namespace i.name ≡ fetched r
        → parse_int r.resource_version ≡ some v
        → signed_lt v i.resource_version ≡ false
        → IsShown i
    vanished : i.action ≡ update → api i.kind namespace i.name ≡ missing → IsShown i

  shown_by :
      (i : ActiveExpectationItem) (a : Action) (f : Fetched)
      → i.action ≡ a
      → seen i ≡ f
      → satisfied_by a f now i ≡ true
      → IsShown i
  shown_by i create (fetched r) e g h = created r e g
  shown_by i create missing e g h = overdue e g (ground (arith, h))
  shown_by i create broken e g h = cc
  shown_by i delete (fetched r) e g h = terminates r e g h
  shown_by i delete missing e g h = deleted e g
  shown_by i delete broken e g h = cc
  shown_by i update (fetched r) e g h = elim (Option-cases (parse_int r.resource_version)) [
    | inl unread ↦ unreadable r e g unread
    | inr (v, read) ↦ updated r v e g read (ground (arith, h, read))
  ]
  shown_by i update missing e g h = vanished e g
  shown_by i update broken e g h = cc

  satisfied_of :
      (i : ActiveExpectationItem) (a : Action) (f : Fetched)
      → i.action ≡ a
      → seen i ≡ f
      → satisfied_by a f now i ≡ true
      → item_is_satisfied api now namespace i ≡ true
  unfolding item_is_satisfied
  satisfied_of i a f e g h =
      ap (λ b. satisfied_by b (seen i) now i) e ∙ ap (λ x. satisfied_by a x now i) g ∙ h

  satisfied-IsShown :
      (i : ActiveExpectationItem) → IsShown i → item_is_satisfied api now namespace i ≡ true
  satisfied-IsShown i (created r e g) = satisfied_of i create (fetched r) e g refl
  satisfied-IsShown i (overdue e g late) = satisfied_of i create missing e g (ground arith)
  satisfied-IsShown i (terminates r e g h) = satisfied_of i delete (fetched r) e g h
  satisfied-IsShown i (deleted e g) = satisfied_of i delete missing e g refl
  satisfied-IsShown i (unreadable r e g h) = satisfied_of i update (fetched r) e g (rw h refl)
  satisfied-IsShown i (updated r v e g read h) =
      satisfied_of i update (fetched r) e g (rw (read, h) refl)
  satisfied-IsShown i (vanished e g) = satisfied_of i update missing e g refl

  pub item_is_satisfied_iff :
      (i : ActiveExpectationItem) → (item_is_satisfied api now namespace i ≡ true) ↔ IsShown i
  unfolding item_is_satisfied
  item_is_satisfied_iff i = (λ h. shown_by i i.action (seen i) refl refl h, satisfied-IsShown i)

  -- What becomes of an item: it goes if the cluster shows it, and else stays as it is.
  abbrev pub Left :
      Result (Option ActiveExpectationItem) → Result (Option ActiveExpectationItem) → Type 0
  Left (ok none) q = q ≡ ok none
  Left (ok (some i)) q = IsShown i × (q ≡ ok none) ⊎ (¬ IsShown i) × (q ≡ ok (some i))
  Left (err x) q = q ≡ err x

  -- What is left of an item.
  abbrev pub pending : Result (Option ActiveExpectationItem) → Result (Option ActiveExpectationItem)
  pending (ok (some i)) = if item_is_satisfied api now namespace i then ok none else ok (some i)
  pending (ok none) = ok none
  pending (err x) = err x

  pub pending-Left : (r q : Result (Option ActiveExpectationItem)) → q ≡ pending r → Left r q
  pending-Left (ok none) q e = e
  pending-Left (ok (some i)) q e =
      let (shown, back) = item_is_satisfied_iff i in
      elim (Bool-cases (item_is_satisfied api now namespace i)) [
        | inl yes_shown ↦ inl (shown yes_shown, ground (arith, e, yes_shown))
        | inr waits ↦ inr (λ s. let there = back s in cc, ground (arith, e, waits))
      ]
  pending-Left (err x) q e = e
