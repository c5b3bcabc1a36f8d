-- ===== src/SlowStart/Count.antt =====
-- The number that SlowStartBatch returns, for the errors that its calls are passed.
use kuperator.Common.{
  ℕ, zero, suc, ◌+◌, ◌-◌, ◌*◌, ◌<◌, ◌≤◌, ◌≡◌, ◌==◌, ◌&&◌, refl, ap, subst, Bool, Option, none, some,
  arith, if◌then◌else◌, if-both, is_some, true, Bool-cases, inl, inr, length, Error, ltb,
}
use native.Mathlib.Nat.{zero-add, add-zero, add-suc, suc-add}
use kuperator.SlowStart.{
  Run, Call, First, batch_errors, int_min, do_batch, failed, loop, start, slow_start_batch,
}
use kuperator.SlowStart.Calls.{Accounts, do_batch-Accounts, IsFinished, slow_start_batch-Finishes}

-- How many of `n` calls from `i` on succeed.
abbrev pub ok_calls : (ℕ → Option Error) → ℕ → ℕ → ℕ
ok_calls f i zero = 0
ok_calls f i (suc n) = (if is_some (f i) then 0 else 1) + ok_calls f (suc i) n

ok_calls-add :
    (f : ℕ → Option Error) (i a b : ℕ)
    → ok_calls f i (a + b) ≡ ok_calls f i a + ok_calls f (i + a) b
ok_calls-add f i zero b = rw (zero-add, add-zero, zero-add)
ok_calls-add f i (suc a) b =
    rw (suc-add, add-suc) (omega (arith, ok_calls-add f (suc i) a b, add_shift))
  where
    add_shift : ok_calls f (suc i + a) b ≡ ok_calls f (suc (i + a)) b
    add_shift = rw suc-add

ok_calls_ext :
    (f g : ℕ → Option Error) (i n : ℕ)
    → ((j : ℕ) → i ≤ j → j < i + n → f j ≡ g j)
    → ok_calls f i n ≡ ok_calls g i n
ok_calls_ext f g i zero h = refl
ok_calls_ext f g i (suc n) h =
    let here : is_some (f i) ≡ is_some (g i) =
      ap (λ (o : Option Error). is_some o) (h i (omega arith) (omega arith)) in
    let rest = ok_calls_ext f g (suc i) n (λ j low high. h j (omega arith) (omega arith)) in
    ground (arith, here, rest)

-- Call `i` is passed `got i`.
abbrev pub called : Call → (ℕ → Option Error) → ℕ → Option Error
called fn got i = fn i (got i)

batch_errors-ok_calls :
    (fn : Call) (got : Option Error) (i n : ℕ)
    → length (batch_errors fn got i n) + ok_calls (λ j. fn j got) i n ≡ n
unfolding batch_errors
batch_errors-ok_calls fn got i zero = omega arith
batch_errors-ok_calls fn got i (suc n) = ground (arith, batch_errors-ok_calls fn got (suc i) n)

-- The successes are those of the calls so far, each with the error it was passed, which is nil as
-- long as all calls before have succeeded.
abbrev pub IsCounted : Call → Run → Type 0
IsCounted fn r =
    (got : ℕ → Option Error) × (r.successes ≡ ok_calls (called fn got) 0 r.index)
    × ((i : ℕ) → i < r.index → is_some (got i) ≡ true → ok_calls (called fn got) 0 i < i)

-- The calls from `n` on are passed `e`.
abbrev passed_from : ℕ → Option Error → (ℕ → Option Error) → ℕ → Option Error
passed_from n e got i = if ltb i n then got i else e

passed_before :
    (fn : Call) (n m : ℕ) (e : Option Error) (got : ℕ → Option Error)
    → m ≤ n
    → ok_calls (called fn (passed_from n e got)) 0 m ≡ ok_calls (called fn got) 0 m
passed_before fn n m e got within =
    ok_calls_ext (called fn (passed_from n e got)) (called fn got) 0 m
      (λ j low high. ap (fn j) (ground arith))

passed_after :
    (fn : Call) (n b : ℕ) (e : Option Error) (got : ℕ → Option Error)
    → ok_calls (called fn (passed_from n e got)) n b ≡ ok_calls (λ j. fn j e) n b
passed_after fn n b e got =
    ok_calls_ext (called fn (passed_from n e got)) (λ j. fn j e) n b
      (λ j low high. ap (fn j) (ground arith))

ok_calls-le : (f : ℕ → Option Error) (i n : ℕ) → ok_calls f i n ≤ n
ok_calls-le f i zero = omega arith
ok_calls-le f i (suc n) = ground (arith, ok_calls-le f (suc i) n)

-- A failure among the first calls is still one among more.
ok_calls-lt : (f : ℕ → Option Error) (n i : ℕ) → n ≤ i → ok_calls f 0 n < n → ok_calls f 0 i < i
ok_calls-lt f n i h fewer =
    let split : ok_calls f 0 (n + (i - n)) ≡ ok_calls f 0 n + ok_calls f n (i - n) =
      rw zero-add at (ok_calls-add f 0 n (i - n)) in
    let whole : n + (i - n) ≡ i = omega (arith, h) in
    let sum = rw whole at split in omega (arith, sum, fewer, h, ok_calls-le f n (i - n))

passed-failure :
    (fn : Call) (b : ℕ) (r : Run) (got : ℕ → Option Error)
    → r.successes ≡ ok_calls (called fn got) 0 r.index
    → ((i : ℕ) → i < r.index → is_some (got i) ≡ true → ok_calls (called fn got) 0 i < i)
    → (is_some r.got_err ≡ true → r.successes < r.index)
    → (i : ℕ) → is_some (passed_from r.index r.got_err got i) ≡ true
    → ok_calls (called fn (passed_from r.index r.got_err got)) 0 i < i
passed-failure fn b r got count before failing i some_error = elim (Bool-cases (ltb i r.index)) [
  | inl low ↦
      let same = passed_before fn r.index i r.got_err got (ground arith) in
      rw same (before i (ground arith) (ground arith))
  | inr high ↦
      let same = passed_before fn r.index r.index r.got_err got (omega arith) in
      let fewer = failing (ground arith) in
      ok_calls-lt (called fn (passed_from r.index r.got_err got)) r.index i (ground arith)
        (omega (arith, same, fewer, count))
]

do_batch-IsCounted :
    (first : First) (fn : Call) (b : ℕ) (r : Run)
    → (is_some r.got_err ≡ true → r.successes < r.index)
    → IsCounted fn r
    → IsCounted fn (do_batch first fn b r)
unfolding do_batch
do_batch-IsCounted first fn b r failing (got, h, before) =
    let next = passed_from r.index r.got_err got in
    let split = rw zero-add at (ok_calls-add (called fn next) 0 r.index b) in
    let same = passed_before fn r.index r.index r.got_err got (omega arith) in
    (
      next,
      rw (split, same, passed_after fn r.index b r.got_err got)
          (omega (arith, batch_errors-ok_calls fn r.got_err r.index b)),
      λ i within some_error. passed-failure fn b r got h before failing i some_error,
    )

abbrev Counted : Call → Option Run → Type 0
Counted fn o = (q : Run) → o ≡ some q → IsCounted fn q

Counted-some : (fn : Call) (r : Run) → IsCounted fn r → Counted fn (some r)
Counted-some fn r h q e = let same : r ≡ q = cc in subst (IsCounted fn) same h

loop-Counted :
    (first : First) (short : Bool) (fn : Call) (fuel b : ℕ) (r : Run)
    → IsCounted fn r
    → Accounts r.successes r.index r.got_err
    → Counted fn (loop first short fn fuel b r)
unfolding loop
loop-Counted first short fn zero b r h a = λ q e. cc
loop-Counted first short fn (suc fuel) b r h a =
    let done = do_batch-IsCounted first fn b r a.2 h in
    let accounts = do_batch-Accounts first fn b r a in
    let r' = do_batch first fn b r in
    let left = r.remaining - b in
    if-both (Counted fn) (b == 0) (Counted-some fn r h) (
      if-both (Counted fn) (failed fn b r && short) (Counted-some fn r' done) (
        loop-Counted first short fn fuel (int_min (2 * b) left) (record r' { remaining = left })
          done accounts))

-- With a first batch of at least one call SlowStartBatch returns. All `n` calls are made unless a
-- batch failed and `short_circuit` is set. The number returned is that of the calls made that
-- succeeded, each by what the function gives for the error it was passed, which is nil as long as all
-- calls before have succeeded; and an error is returned exactly when a call made has failed.
pub slow_start_batch-IsCounted :
    (first : First) (n initial_batch_size : ℕ) (short_circuit : Bool) (fn : Call)
    → 0 < initial_batch_size
    → (r : Run) × (slow_start_batch first n initial_batch_size short_circuit fn ≡ some r)
      × IsFinished n short_circuit r
      × IsCounted fn r
unfolding slow_start_batch
slow_start_batch-IsCounted first n b short fn h =
    let (r, e, ends) = slow_start_batch-Finishes first n b short fn h in
    (
      r,
      e,
      ends,
      loop-Counted first short fn (suc n) (int_min n b) (start n)
          (λ i. none, refl, λ i h none_yet. cc) (ground arith) r e,
    )
