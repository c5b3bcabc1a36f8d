-- ===== src/Jobs/Ended.antt =====
-- calculateStatus: the statuses of the targets, the end of each noted.
use kuperator.Common.{
  ℕ, ◌≡◌, refl, sym, ap, subst, if-cases, not, is_some, Bool, true, false, ◌&&◌, Option, none, some,
  List, [], ◌∷◌, arith, if◌then◌else◌, length, returns,
}
use kuperator.Jobs.{OpsStatus, OpsCandidate, is_done}
use kuperator.Jobs.Status.{target_details_of, ended, ended_candidate, or_now}

abbrev with_status_of : Option OpsStatus → List OpsStatus → List OpsStatus
with_status_of none ss = ss
with_status_of (some s) ss = s ∷ ss

-- The statuses of the targets that have one.
abbrev pub statuses_of : List OpsCandidate → List OpsStatus
statuses_of [] = []
statuses_of (c ∷ cs) = with_status_of c.ops_status (statuses_of cs)

-- `d` is `s`, with its end at `now` if it is finished and had none.
abbrev pub IsEnded : ℕ → OpsStatus → OpsStatus → Type 0
IsEnded now s d =
    (d.name ≡ s.name)
    × (d.progress ≡ s.progress)
    × (d.start_time ≡ s.start_time)
    × (d.extra_info ≡ s.extra_info)
    × (d.end_time ≡ (if is_done s.progress then or_now now s.end_time else s.end_time))

-- The list is the given one, each of its statuses `IsEnded`.
abbrev pub AllEnded : ℕ → List OpsStatus → List OpsStatus → Type 0
AllEnded now [] [] = Unit {0}
AllEnded now (s ∷ ss) (d ∷ ds) = IsEnded now s d × AllEnded now ss ds
AllEnded now _ _ = true ≡ false

end_noted :
    (now : ℕ) (t : Option ℕ) (b : Bool)
    → (not (is_some t) && b) ≡ true
    → some now ≡ (if b then or_now now t else t)
end_noted now none true h = refl
end_noted now none false h = cc
end_noted now (some t) b h = cc

end_kept :
    (now : ℕ) (t : Option ℕ) (b : Bool)
    → (not (is_some t) && b) ≡ false
    → t ≡ (if b then or_now now t else t)
end_kept now none true h = cc
end_kept now none false h = refl
end_kept now (some t) true h = refl
end_kept now (some t) false h = refl

ended-IsEnded : (now : ℕ) (s : OpsStatus) → IsEnded now s (ended now s)
ended-IsEnded now s =
    if-cases (IsEnded now s) (not (is_some s.end_time) && is_done s.progress)
      (λ on. (refl, refl, refl, refl, end_noted now s.end_time (is_done s.progress) on))
      (λ off. (refl, refl, refl, refl, end_kept now s.end_time (is_done s.progress) off))

-- Every target has a status.
abbrev pub AllStatus : List OpsCandidate → Type 0
AllStatus [] = Unit {0}
AllStatus (c ∷ cs) = ((s : OpsStatus) × (c.ops_status ≡ some s)) × AllStatus cs

pub length-statuses_of :
    (cs : List OpsCandidate) → AllStatus cs → length (statuses_of cs) ≡ length cs
length-statuses_of [] h = refl
length-statuses_of (c ∷ cs) h =
    let (s, there) = h.0 in rw there (ground (arith, length-statuses_of cs h.1))

pub target_details_of-AllEnded :
    (now : ℕ) (cs : List OpsCandidate)
    → AllStatus cs
    → (cs' : List OpsCandidate) × (details : List OpsStatus) × (target_details_of now cs
        ≡ returns (cs', details))
      × (statuses_of cs' ≡ details)
      × AllEnded now (statuses_of cs) details
unfolding target_details_of
target_details_of-AllEnded now [] h = ([], [], refl, refl, tt)
target_details_of-AllEnded now (c ∷ cs) h =
    let (ds, details, e, noted, rest) = target_details_of-AllEnded now cs h.1 in
    let (s, there) = h.0 in
    (
      ended_candidate now c (some s) ∷ ds,
      ended now s ∷ details,
      rw (there, e) refl,
      ap (λ ss. ended now s ∷ ss) noted,
      subst (λ o. AllEnded now (with_status_of o (statuses_of cs)) (ended now s ∷ details))
          (sym there) (ended-IsEnded now s, rest),
    )
