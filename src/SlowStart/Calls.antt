-- ===== src/SlowStart/Calls.antt =====
-- What SlowStartBatch has called when it returns.
use kuperator.Common.{
  ℕ, zero, suc, ◌+◌, ◌-◌, ◌*◌, ◌≤◌, ◌<◌, ◌≡◌, refl, Bool, true, false, Option, some, List, ◌&&◌, [],
  ◌∷◌, arith, ◌==◌, if◌then◌else◌, is_some, Bool-cases, length, Error, inl, inr,
}
use kuperator.SlowStart.{
  Run, Call, First, batch_errors, int_min, do_batch, failed, loop, start, slow_start_batch,
  is_empty, received,
}

pub batch_errors-le :
    (fn : Call) (got : Option Error) (i n : ℕ) → length (batch_errors fn got i n) ≤ n
unfolding batch_errors
batch_errors-le fn got i zero = omega arith
batch_errors-le fn got i (suc n) = ground (arith, batch_errors-le fn got (suc i) n)

-- The count of successes, and the kept error, of calls that put `es` on the channel.
abbrev pub Accounts : ℕ → ℕ → Option Error → Type 0
Accounts successes index got =
    (successes ≤ index)
    × (is_some got ≡ false → successes ≡ index)
    × (is_some got ≡ true → successes < index)

Accounts-received :
    (first : First) (b s i : ℕ) (es : List Error) (got : Option Error)
    → length es ≤ b
    → Accounts s i got
    → Accounts (s + (b - length es)) (i + b) (received first es got)
Accounts-received first b s i [] got h a = ground arith
Accounts-received first b s i (e ∷ es) got h a = ground arith

-- What holds between two batches of `n` calls in all.
pub record Inv (n : ℕ) (r : Run) : Type 0 where
  pub counted : r.index + r.remaining ≡ n
  pub accounts : Accounts r.successes r.index r.got_err

pub do_batch-Accounts :
    (first : First) (fn : Call) (b : ℕ) (r : Run)
    → Accounts r.successes r.index r.got_err
    → let r' = do_batch first fn b r in Accounts r'.successes r'.index r'.got_err
unfolding do_batch
do_batch-Accounts first fn b r a =
    Accounts-received first b r.successes r.index (batch_errors fn r.got_err r.index b) r.got_err
      (batch_errors-le fn r.got_err r.index b) a

do_batch_index :
    (first : First) (fn : Call) (b : ℕ) (r : Run)
    → ((do_batch first fn b r).index ≡ r.index + b)
      × ((do_batch first fn b r).remaining ≡ r.remaining)
unfolding do_batch
do_batch_index first fn b r = (refl, refl)

failed-got_err :
    (first : First) (fn : Call) (b : ℕ) (r : Run)
    → failed fn b r ≡ true
    → is_some (do_batch first fn b r).got_err ≡ true
unfolding failed do_batch
failed-got_err first fn b r h = elim_errors (batch_errors fn r.got_err r.index b) h
  where
    elim_errors :
        (es : List Error)
        → (if is_empty es then false else true) ≡ true
        → is_some (received first es r.got_err) ≡ true
    elim_errors [] k = cc
    elim_errors (e ∷ es) k = refl

-- How a run of `n` calls ends.
pub record IsFinished (n : ℕ) (short_circuit : Bool) (r : Run) : Type 0 where
  pub within : r.index ≤ n
  pub complete : short_circuit ≡ false → r.index ≡ n
  pub clean : is_some r.got_err ≡ false → (r.index ≡ n) × (r.successes ≡ n)
  pub faulty : is_some r.got_err ≡ true → r.successes < r.index

abbrev pub Finishes : ℕ → Bool → Option Run → Type 0
Finishes n short o = (r : Run) × (o ≡ some r) × IsFinished n short r

-- The invariant after a batch that is not the last.
after :
    (first : First) (fn : Call) (n b : ℕ) (r : Run)
    → b ≤ r.remaining
    → Inv n r
    → Inv n (record (do_batch first fn b r) { remaining = r.remaining - b })
after first fn n b r h v = record {
  counted = omega (arith, do_batch_index first fn b r);
  accounts = do_batch-Accounts first fn b r v.accounts;
}

-- A failed batch under `short_circuit` ends the run.
stopped :
    (first : First) (short : Bool) (fn : Call) (n b : ℕ) (r : Run)
    → b ≤ r.remaining
    → Inv n r
    → (failed fn b r && short) ≡ true
    → IsFinished n short (do_batch first fn b r)
stopped first short fn n b r h v stop = ground (
  arith,
  do_batch_index first fn b r,
  do_batch-Accounts first fn b r v.accounts,
  failed-got_err first fn b r,
)

-- The loop from a state within its invariant, with more fuel than calls left.
loop-Finishes :
    (first : First) (short : Bool) (fn : Call) (n fuel b : ℕ) (r : Run)
    → r.remaining < fuel
    → b ≤ r.remaining
    → (b ≡ 0 → r.remaining ≡ 0)
    → Inv n r
    → Finishes n short (loop first short fn fuel b r)
unfolding loop int_min
loop-Finishes first short fn n zero b r f h z v = absurd (omega arith)
loop-Finishes first short fn n (suc fuel) b r f h z v = elim (Bool-cases (b == 0)) [
  | inl empty ↦ (r, rw empty, ground arith)
  | inr full ↦ elim (Bool-cases (failed fn b r && short)) [
    | inl stop ↦
        rw (full, stop) (do_batch first fn b r, refl, stopped first short fn n b r h v stop)
    | inr on ↦
        rw (full, on)
          (loop-Finishes first short fn n fuel (int_min (2 * b) (r.remaining - b))
            (record (do_batch first fn b r) { remaining = r.remaining - b }) (ground arith)
            (ground arith) (ground arith) (after first fn n b r h v))
  ]
]

-- Every call is made unless a batch failed and `short_circuit` is set; the run ends, with an error
-- exactly when fewer successes than calls are counted.
pub slow_start_batch-Finishes :
    (first : First) (n initial_batch_size : ℕ) (short_circuit : Bool) (fn : Call)
    → 0 < initial_batch_size
    → Finishes n short_circuit (slow_start_batch first n initial_batch_size short_circuit fn)
unfolding slow_start_batch int_min
slow_start_batch-Finishes first n b short fn h =
    loop-Finishes first short fn n (suc n) (int_min n b) (start n) (omega arith) (ground arith)
      (ground arith) (ground arith)
