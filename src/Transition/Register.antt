-- ===== src/Transition/Register.antt =====
-- pkg/controllers/podtransitionrule/register/cache.go and function.go: the stages that controllers
-- register, each with the functions that say whether an object is in it. (The lock is left out, and
-- so are the caches that nothing fills.)
use kuperator.Common.{
  ◌≡◌, refl, ◌⊎◌, ◌↔◌, ◌||◌, inl, inr, Bool, true, false, ◌&&◌, Option, none, some, List, [], ◌∷◌,
  ◌++◌, arith, if◌then◌else◌, Text, text_eq, text_eq_iff, text_eq_refl, Dict, lookup, insert,
  lookup-insert, Bool-cases, subst, sym,
}
use kuperator.Pod.{contains, set_insert}
use kuperator.Pod.Sets.{contains-set_insert}

module _ (Object : Type 0) where
  -- FuncCache
  abbrev pub FuncCache : Type 0
  FuncCache = Dict (List (Object → Bool))

  abbrev or_empty : Option (List (Object → Bool)) → List (Object → Bool)
  or_empty none = []
  or_empty (some fs) = fs

  unfoldable pub get : Text → FuncCache → List (Object → Bool)
  get k fc = or_empty (lookup k fc)

  unfoldable pub add : Text → List (Object → Bool) → FuncCache → FuncCache
  unfolding get
  add k fs fc = insert k (get k fc ++ fs) fc

  pub record Cache : Type 0 where
    pub stage_key : List Text
    pub in_stage_func : FuncCache
    pub stages : List Text
    pub condition_key : List Text
    pub condition : FuncCache

  unfoldable pub register_stage : Cache → Text → (Object → Bool) → Cache
  unfolding add
  register_stage r stage f = record r {
    stages = r.stages ++ (stage ∷ []);
    stage_key = set_insert stage r.stage_key;
    in_stage_func = add stage (f ∷ []) r.in_stage_func;
  }

  unfoldable pub register_condition : Cache → Text → (Object → Bool) → Cache
  unfolding add
  register_condition r k f = record r {
    condition_key = set_insert k r.condition_key;
    condition = add k (f ∷ []) r.condition;
  }

  unfoldable pub all_hold : Object → List (Object → Bool) → Bool
  all_hold obj [] = true
  all_hold obj (f ∷ fs) = f obj && all_hold obj fs

  -- A key of which all functions hold: the first in the order of the range.
  unfoldable pub in_func : Object → List Text → FuncCache → Text
  in_func obj [] fc = []
  in_func obj (k ∷ ks) fc = if all_hold obj (get k fc) then k else in_func obj ks fc

  unfoldable pub in_funcs : Object → List Text → FuncCache → List Text
  in_funcs obj [] fc = []
  in_funcs obj (k ∷ ks) fc =
      let rest = in_funcs obj ks fc in if all_hold obj (get k fc) then k ∷ rest else rest

  abbrev only_holds : Object → List (Object → Bool) → Bool
  only_holds obj (f ∷ []) = f obj
  only_holds obj _ = false

  abbrev pub is_empty : List (Object → Bool) → Bool
  is_empty [] = true
  is_empty (f ∷ fs) = false

  unfoldable pub match_func : Object → Text → FuncCache → Bool
  match_func obj k fc = only_holds obj (get k fc)

  unfoldable pub stage_of : Cache → Object → Text
  stage_of r obj = in_func obj r.stage_key r.in_stage_func

  unfoldable pub in_stage : Cache → Object → Text → Bool
  in_stage r obj k = match_func obj k r.in_stage_func

  unfoldable pub conditions : Cache → Object → List Text
  conditions r obj = in_funcs obj r.condition_key r.condition

  keep_known : List Text → List Text → List Text
  keep_known [] known = []
  keep_known (c ∷ cs) known =
      let rest = keep_known cs known in if contains c known then c ∷ rest else rest

  unfoldable pub match_conditions : Cache → Object → List Text → List Text
  unfolding keep_known
  match_conditions r obj known = keep_known (conditions r obj) known

  in_func_step :
      (obj : Object) (k : Text) (ks : List Text) (fc : FuncCache)
      → all_hold obj (get k fc) ≡ false
      → in_func obj (k ∷ ks) fc ≡ in_func obj ks fc
  unfolding in_func
  in_func_step obj k ks fc off = rw off refl

  -- Where inFunc ends: at a key that holds, or nowhere.
  abbrev Found : Object → List Text → FuncCache → Text → Type 0
  Found obj ks fc r =
      ((contains r ks && all_hold obj (get r fc)) ≡ true)
      ⊎ ((r ≡ []) × ((k : Text) → (contains k ks && all_hold obj (get k fc)) ≡ false))

  Found-skip :
      (obj : Object) (k : Text) (ks : List Text) (fc : FuncCache) (r : Text)
      → all_hold obj (get k fc) ≡ false
      → Found obj ks fc r
      → Found obj (k ∷ ks) fc r
  unfolding contains
  Found-skip obj k ks fc r off (inl found) = inl (ground (arith, found))
  Found-skip obj k ks fc r off (inr (e, nowhere)) = inr (
    e,
    λ j. elim (Bool-cases (text_eq k j)) [
      | inl same ↦
          let here : all_hold obj (get j fc) ≡ false =
            subst (λ x. all_hold obj (get x fc) ≡ false) ((text_eq_iff k j).0 same) off in
          ground (arith, here)
      | inr other ↦ ground (arith, other, nowhere j)
    ],
  )

  in_func-Found :
      (obj : Object) (ks : List Text) (fc : FuncCache) → Found obj ks fc (in_func obj ks fc)
  unfolding in_func contains
  in_func-Found obj [] fc = inr (refl, λ k. refl)
  in_func-Found obj (k ∷ ks) fc = elim (Bool-cases (all_hold obj (get k fc))) [
    | inl on ↦ inl (rw (on, text_eq_refl k, on) refl)
    | inr off ↦
        subst (λ r. Found obj (k ∷ ks) fc r) (sym (in_func_step obj k ks fc off))
          (Found-skip obj k ks fc (in_func obj ks fc) off (in_func-Found obj ks fc))
  ]

  -- All functions are true of the object.
  abbrev pub AllTrue : Object → List (Object → Bool) → Type 0
  AllTrue obj [] = Unit {0}
  AllTrue obj (f ∷ fs) = (f obj ≡ true) × AllTrue obj fs

  all_hold_iff :
      (obj : Object) (fs : List (Object → Bool)) → (all_hold obj fs ≡ true) ↔ AllTrue obj fs
  unfolding all_hold
  all_hold_iff obj [] = (λ h. tt, λ h. refl)
  all_hold_iff obj (f ∷ fs) =
      let (here, back) = all_hold_iff obj fs in
      (λ h. (ground (arith, h), here (ground (arith, h))), λ h. rw (h.0, back h.1))

  -- The functions of a stage once `f` is registered under `k`.
  abbrev pub with_function : Cache → Text → (Object → Bool) → Text → List (Object → Bool)
  with_function r k f j =
      if text_eq k j then get k r.in_stage_func ++ (f ∷ []) else get j r.in_stage_func

  -- Once `f` is registered under `k`, `j` is registered and its functions are true of the object.
  abbrev pub HoldsWith : Cache → Text → (Object → Bool) → Object → Text → Type 0
  HoldsWith r k f obj j =
      ((text_eq k j || contains j r.stage_key) ≡ true) × AllTrue obj (with_function r k f j)

  or_empty_if :
      (b : Bool) (fs : List (Object → Bool)) (o : Option (List (Object → Bool)))
      → or_empty (if b then some fs else o) ≡ (if b then fs else or_empty o)
  or_empty_if true fs o = refl
  or_empty_if false fs o = refl

  get-register_stage :
      (r : Cache) (k j : Text) (f : Object → Bool)
      → get j (register_stage r k f).in_stage_func ≡ with_function r k f j
  unfolding register_stage get
  get-register_stage r k j f =
      let fs = or_empty (lookup k r.in_stage_func) ++ (f ∷ []) in
      rw (lookup-insert k j fs r.in_stage_func)
        (or_empty_if (text_eq k j) fs (lookup j r.in_stage_func))

  key-register_stage :
      (r : Cache) (k j : Text) (f : Object → Bool)
      → contains j (register_stage r k f).stage_key ≡ (text_eq k j || contains j r.stage_key)
  unfolding register_stage
  key-register_stage r k j f = ground (arith, contains-set_insert j k r.stage_key)

  HoldsWith-iff :
      (r : Cache) (k j : Text) (f : Object → Bool) (obj : Object)
      → let after = register_stage r k f in
        ((contains j after.stage_key && all_hold obj (get j after.in_stage_func)) ≡ true)
        ↔ HoldsWith r k f obj j
  HoldsWith-iff r k j f obj =
      let (here, back) = all_hold_iff obj (with_function r k f j) in
      rw (key-register_stage r k j f, get-register_stage r k j f)
        (λ h. (ground (arith, h), here (ground (arith, h))), λ h. rw (h.0, back h.1))

  only_holds-append :
      (obj : Object) (fs : List (Object → Bool)) (f : Object → Bool)
      → only_holds obj (fs ++ (f ∷ [])) ≡ (is_empty fs && f obj)
  only_holds-append obj [] f = refl
  only_holds-append obj (g ∷ []) f = refl
  only_holds-append obj (g ∷ h ∷ fs) f = refl

  in_stage-register_stage :
      (r : Cache) (k j : Text) (f : Object → Bool) (obj : Object)
      → in_stage (register_stage r k f) obj j
        ≡ (if text_eq k j then is_empty (get k r.in_stage_func) && f obj else in_stage r obj j)
  unfolding in_stage match_func
  in_stage-register_stage r k j f obj =
      rw (get-register_stage r k j f) (elim (Bool-cases (text_eq k j)) [
        | inl same ↦ rw same (only_holds-append obj (get k r.in_stage_func) f)
        | inr other ↦ rw other refl
      ])

  -- After RegisterStage InStage is true for the stage exactly if the function is true of the object
  -- and is the only one of the stage, and for any other stage exactly if it was. Stage, for which all
  -- functions of a stage count, finds a registered stage whose functions, the new one among them, are
  -- all true of the object, or else it is empty and there is no such stage, whatever the order of the
  -- range is.
  pub stage_of-register_stage :
      (r : Cache) (k : Text) (f : Object → Bool) (obj : Object)
      → let after = register_stage r k f in
        ((j : Text)
          → in_stage after obj j
            ≡ (if text_eq k j then is_empty (get k r.in_stage_func) && f obj else in_stage r obj j))
        × (HoldsWith r k f obj (stage_of after obj)
            ⊎ ((stage_of after obj ≡ []) × ((j : Text) → ¬ HoldsWith r k f obj j)))
  unfolding stage_of
  stage_of-register_stage r k f obj =
      let after = register_stage r k f in
      (
        λ j. in_stage-register_stage r k j f obj,
        elim (in_func-Found obj after.stage_key after.in_stage_func) [
          | inl found ↦ inl ((HoldsWith-iff r k (stage_of after obj) f obj).0 found)
          | inr (none_found, nowhere) ↦ inr (
            none_found,
            λ j held.
                let there = (HoldsWith-iff r k j f obj).1 held in ground (arith, nowhere j, there),
          )
        ],
      )
