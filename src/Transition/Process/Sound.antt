-- ===== src/Transition/Process/Sound.antt =====
-- pkg/controllers/podtransitionrule/processor/processor.go: what the loop over the rules keeps.
use kuperator.Common.{
  ◌≡◌, refl, Bool, true, false, not, ◌&&◌, ◌||◌, some, List, arith, is_some, Text, text_eq_refl,
  Dict, has, Outcome, returns,
}
use kuperator.Pod.{Pod, contains}
use kuperator.Transition.Rules.{TransitionRule, Ruler, FilterResult, get_ruler}
use kuperator.Transition.Rules.Interface.{names_of, Decides, contains-insert_all}
use kuperator.Transition.Process.{Setting, Progress, Parts, update_progress}
use kuperator.Transition.Process.Split.{at, excused, IsParted}
use kuperator.Transition.Process.Step.{passes_of, Recorded, has-record_rejects}

-- A rule has a ruler, applies to the pod, and is not recorded as passed.
abbrev pub is_owed : Setting → Dict Pod → TransitionRule → Dict (List Text) → Text → Bool
is_owed S targets rule passes k =
    is_some (get_ruler rule)
    && not (at (excused S rule) targets k || contains rule.name (passes_of k passes))

-- The pods of the stage are those with an entry; the others are not touched; and each is still
-- processed or rejected.
pub record IsSound (names : List Text) (st : Progress) : Type 0 where
  pub known : (k : Text) → has k st.pass_info ≡ contains k names
  pub processing_within : (k : Text) → contains k st.processing ≡ true → contains k names ≡ true
  pub skip_within : (k : Text) → contains k st.skip ≡ true → contains k names ≡ true
  pub rejected_within : (k : Text) → has k st.rejected ≡ true → contains k names ≡ true
  pub decided :
      (k : Text) → contains k names ≡ true → (contains k st.processing || has k st.rejected) ≡ true

-- Rejections and recorded passes stay.
abbrev pub Grows : Progress → Progress → Type 0
Grows st st_after =
    ((k : Text) → has k st.rejected ≡ true → has k st_after.rejected ≡ true)
    × ((k r : Text)
        → contains r (passes_of k st.pass_info) ≡ true
        → contains r (passes_of k st_after.pass_info) ≡ true)

abbrev pub Clears : Setting → Dict Pod → List Text → TransitionRule → Progress → Type 0
Clears S targets names rule st =
    (k : Text)
    → contains k names ≡ true
    → has k st.rejected ≡ false
    → is_owed S targets rule st.pass_info k ≡ false

module _ (S : Setting) (filter : Ruler → Dict Pod → List Text → Outcome FilterResult)
    (targets : Dict Pod) (names : List Text) where
  -- The turn returns, and what it returns.
  abbrev pub Turn : TransitionRule → Progress → Outcome Progress → Type 0
  Turn rule st o =
      (st_after : Progress) × (o ≡ returns st_after)
      × IsSound names st_after
      × Grows st st_after
      × Clears S targets names rule st_after

  pub update_progress-Turn :
      (rule : TransitionRule) (st : Progress) (pods : List (Text × Pod)) (p : Parts)
      (r : FilterResult) (passes : Dict (List Text))
      → IsSound names st
      → names_of pods ≡ st.processing
      → IsParted (at (excused S rule) targets) pods st.skip p
      → Decides (names_of p.0) r
      → Recorded rule.name r.passed st.pass_info passes
      → Turn rule st (update_progress rule.name p.1 r st (some passes))
  update_progress-Turn rule st pods (kept, skip) r passes sound same parted decides recorded =
      let processed : (k : Text) → contains k (names_of pods) ≡ contains k st.processing =
        λ k. rw same refl in
      (
        _,
        refl,
        record {
          known = λ k. ground (arith, (recorded k).0, sound.known k);
          processing_within = λ k m. ground (
            arith,
            m,
            contains-insert_all skip r.passed k,
            decides k,
            parted k,
            processed k,
            sound.processing_within k,
            sound.skip_within k,
          );
          skip_within = λ k m.
              ground
                (arith, m, parted k, processed k, sound.processing_within k, sound.skip_within k);
          rejected_within = λ k m. ground (
            arith,
            m,
            has-record_rejects rule.name r.rejected st.rejected k,
            decides k,
            parted k,
            processed k,
            sound.processing_within k,
            sound.rejected_within k,
          );
          decided = λ k m. ground (
            arith,
            m,
            sound.decided k,
            contains-insert_all skip r.passed k,
            has-record_rejects rule.name r.rejected st.rejected k,
            decides k,
            parted k,
            processed k,
          );
        },
        (
          λ k m. ground (arith, m, has-record_rejects rule.name r.rejected st.rejected k),
          λ k t m. ground (arith, m, (recorded k).1 t),
        ),
        λ k m off. ground (
          arith,
          m,
          off,
          sound.decided k,
          has-record_rejects rule.name r.rejected st.rejected k,
          decides k,
          parted k,
          processed k,
          (recorded k).1 rule.name,
          text_eq_refl rule.name,
        ),
      )
