-- ===== src/Jobs/Partition.antt =====
-- pkg/controllers/operationjob/opscore/candidate.go: the targets that a job with a partition works
-- on. (The slice of the caller is sorted as well, which is the order of the details of its status.)
use mathlib.Core.List.{Perm}
use kuperator.Common.{
  ◌≡◌, refl, ℕ, zero, suc, inl, inr, Bool, true, false, not, ◌&&◌, ◌||◌, Option, none, some,
  sort_by, sort_by-perm, length-sort_by, sort_by-IsOrdered, NoneBefore, IsOrdered, List, [], ◌∷◌,
  ◌++◌, if◌then◌else◌, ltb, leb, Bool-cases, arith, take, drop, take-drop, length-take, append_nil,
  length, ℤ, pos, negsuc, Outcome, returns, panics,
}
use kuperator.Jobs.{OpsCandidate, is_candidate_ops_pending}

-- Started targets come first, then lower indices (Less of activeCandidateToStart).
abbrev before : Bool → Bool → ℕ → ℕ → Bool
before true true i j = ltb i j
before true false i j = false
before false true i j = true
before false false i j = ltb i j

unfoldable pub starts_before : OpsCandidate → OpsCandidate → Bool
starts_before l r = before (is_candidate_ops_pending l) (is_candidate_ops_pending r) l.idx r.idx

-- sort.Sort by Less.
unfoldable pub sort_candidates : List OpsCandidate → List OpsCandidate
sort_candidates = sort_by starts_before

-- The slice of the candidates up to the partition.
abbrev up_to : ℤ → List OpsCandidate → Outcome (List OpsCandidate)
up_to (pos p) ordered = if leb (length ordered) p then returns ordered else returns (take p ordered)
up_to (negsuc p) ordered = panics

unfoldable pub decide_candidate_by_partition :
    Option ℤ → List OpsCandidate → Outcome (List OpsCandidate)
decide_candidate_by_partition none candidates = returns candidates
decide_candidate_by_partition (some partition) candidates =
    up_to partition (sort_candidates candidates)

-- A target that is started is earlier than one that is not, and of two that are alike the one with
-- the lower index.
abbrev pub is_earlier : OpsCandidate → OpsCandidate → Bool
is_earlier d c =
    let started_d = not (is_candidate_ops_pending d) in
    let started_c = not (is_candidate_ops_pending c) in
    (started_d && not started_c) || ((started_d || not started_c) && ltb d.idx c.idx)

-- No target of a list is earlier than `c`.
abbrev pub NoneEarlier : OpsCandidate → List OpsCandidate → Type 0
NoneEarlier c [] = Unit {0}
NoneEarlier c (d ∷ ds) = (is_earlier d c ≡ false) × NoneEarlier c ds

-- No target of the second list is earlier than one of the first.
abbrev pub AllFirst : List OpsCandidate → List OpsCandidate → Type 0
AllFirst [] rest = Unit {0}
AllFirst (c ∷ cs) rest = NoneEarlier c rest × AllFirst cs rest

before_asym : (p q : Bool) (i j : ℕ) → before p q i j ≡ true → before q p j i ≡ false
before_asym true true i j h = ground arith
before_asym true false i j h = cc
before_asym false true i j h = refl
before_asym false false i j h = ground arith

before_trans :
    (p q r : Bool) (i j k : ℕ)
    → before p q i j ≡ false
    → before q r j k ≡ false
    → before p r i k ≡ false
before_trans true true true i j k g h = ground arith
before_trans true true false i j k g h = refl
before_trans true false true i j k g h = cc
before_trans true false false i j k g h = refl
before_trans false true r i j k g h = cc
before_trans false false true i j k g h = cc
before_trans false false false i j k g h = ground arith

before_earlier :
    (p q : Bool) (i j : ℕ)
    → before p q i j ≡ ((not p && not (not q)) || ((not p || not (not q)) && ltb i j))
before_earlier true true i j = refl
before_earlier true false i j = refl
before_earlier false true i j = refl
before_earlier false false i j = refl

NoneBefore-earlier :
    (c : OpsCandidate) (ds : List OpsCandidate) → NoneBefore starts_before c ds → NoneEarlier c ds
unfolding starts_before
NoneBefore-earlier c [] n = tt
NoneBefore-earlier c (d ∷ ds) n =
    let same =
      before_earlier (is_candidate_ops_pending d) (is_candidate_ops_pending c) d.idx c.idx in
    (ground (arith, same, n.0), NoneBefore-earlier c ds n.1)

starts_before_asym : (c d : OpsCandidate) → starts_before c d ≡ true → starts_before d c ≡ false
unfolding starts_before
starts_before_asym c d =
    before_asym (is_candidate_ops_pending c) (is_candidate_ops_pending d) c.idx d.idx

starts_before_trans :
    (c d e : OpsCandidate)
    → starts_before e d ≡ false
    → starts_before d c ≡ false
    → starts_before e c ≡ false
unfolding starts_before
starts_before_trans c d e =
    before_trans (is_candidate_ops_pending e) (is_candidate_ops_pending d)
      (is_candidate_ops_pending c) e.idx d.idx c.idx

NoneBefore-drop :
    (n : ℕ) (c : OpsCandidate) (cs : List OpsCandidate)
    → NoneBefore starts_before c cs
    → NoneBefore starts_before c (drop n cs)
NoneBefore-drop zero c cs h = h
NoneBefore-drop (suc n) c [] h = tt
NoneBefore-drop (suc n) c (d ∷ ds) h = NoneBefore-drop n c ds h.1

AllFirst-take :
    (n : ℕ) (cs : List OpsCandidate) → IsOrdered starts_before cs → AllFirst (take n cs) (drop n cs)
AllFirst-take zero cs o = tt
AllFirst-take (suc n) [] o = tt
AllFirst-take (suc n) (c ∷ cs) o =
    (NoneBefore-earlier c (drop n cs) (NoneBefore-drop n c cs o.0), AllFirst-take n cs o.1)

AllFirst-all : (cs : List OpsCandidate) → AllFirst cs []
AllFirst-all [] = tt
AllFirst-all (c ∷ cs) = (tt, AllFirst-all cs)

-- What a choice of targets promises, for a partition and the targets of the job.
abbrev pub IsChoice : ℕ → List OpsCandidate → List OpsCandidate → List OpsCandidate → Type 0
IsChoice p cs selected rest =
    Perm (selected ++ rest) cs
    × AllFirst selected rest
    × (length selected ≡ (if ltb p (length cs) then p else length cs))

choice :
    (p : ℕ) (cs : List OpsCandidate) (ordered : List OpsCandidate)
    → IsOrdered starts_before ordered
    → Perm ordered cs
    → length ordered ≡ length cs
    → (selected : List OpsCandidate) × (rest : List OpsCandidate) × (up_to (pos p) ordered
        ≡ returns selected)
      × IsChoice p cs selected rest
choice p cs ordered sorted same size = elim (Bool-cases (leb (length ordered) p)) [
  | inl all ↦ (
    ordered,
    [],
    rw all refl,
    (rw (append_nil ordered) same, AllFirst-all ordered, ground (arith, all, size)),
  )
  | inr some_left ↦ (
    take p ordered,
    drop p ordered,
    rw some_left refl,
    (
      rw (take-drop p ordered) same,
      AllFirst-take p ordered sorted,
      ground (arith, length-take p ordered (ground (arith, some_left)), some_left, size),
    ),
  )
]

-- With a partition that is not negative DecideCandidateByPartition returns as many targets as the
-- partition says, or all if there are fewer. They are targets of the job, each once, and no target
-- that is left out is earlier than one that is returned: started ones are earlier than the others,
-- and of two that are alike the one with the lower index.
pub decide_candidate_by_partition_lem :
    (p : ℕ) (cs : List OpsCandidate)
    → (selected : List OpsCandidate) × (rest : List OpsCandidate) × (decide_candidate_by_partition
          (some (pos p))
          cs
        ≡ returns selected)
      × IsChoice p cs selected rest
unfolding decide_candidate_by_partition sort_candidates
decide_candidate_by_partition_lem p cs =
    choice p cs (sort_candidates cs)
      (sort_by-IsOrdered starts_before starts_before_asym starts_before_trans cs)
      (sort_by-perm starts_before cs) (length-sort_by starts_before cs)
