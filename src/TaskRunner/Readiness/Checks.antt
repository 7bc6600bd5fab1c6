-- ===== src/TaskRunner/Readiness/Checks.antt =====
-- Run of taskrunner/tasks/readiness/readiness.go: the checks that it makes.
use etc.Prelude.{
  ℕ, zero, suc, ◌+◌, ◌-◌, ◌<◌, ◌≡◌, refl, ap, ◌∙◌, true, false, ◌||◌, Option, none, some, List, [],
  ◌∷◌, ◌++◌, String, length, arith, ◌==◌, if◌then◌else◌,
}
use etc.Prelude.Int.{ℤ, pos}
use etc.Api.Types.{Experiment}
use etc.Controller.Effects.{Outcome, done, panic}
use etc.TaskRunner.Effects.{Env, sleep, T, World, ◌>>=◌, ◌>>◌, pure, call, deref, continue}
use etc.TaskRunner.Readiness.{
  ObjRef, ReadinessInputs, check, check_at, check_objects, advance, inner_loop, try_later,
  retry_loop, rounds, experiment_obj_refs, run_checks,
}

-- So many sleeps.
unfoldable pub sleeps : ℤ → ℕ → T Unit
unfolding ◌>>=◌ pure call
sleeps seconds zero = pure tt
sleeps seconds (suc n) = do call (sleep seconds) (λ t. tt); sleeps seconds n

-- A task with its delays and its objects.
abbrev pub inputs_of : List ObjRef → ℤ → ℤ → ℤ → ReadinessInputs
inputs_of objs delay retries seconds = record {
  initial_delay_seconds = some delay;
  num_retries = some retries;
  interval_seconds = some seconds;
  obj_refs = objs;
}

module _ ⦃w : World⦄ (e : Experiment) where
  abbrev pub unless_failed : T (Option String) → Option String → T (Option String)
  unless_failed next none = next
  unless_failed next (some text) = pure (some text)

  -- One object, checked so many times or until it fails.
  unfoldable pub check_repeatedly : ObjRef → ℕ → T (Option String)
  unfolding ◌>>=◌ pure check
  check_repeatedly o zero = pure none
  check_repeatedly o (suc n) = check e o >>= unless_failed (check_repeatedly o n)

  -- What the loops do with some objects, or with none.
  abbrev pub give_up : ℤ → ℕ → Option String → T (Option String)
  give_up seconds n none = pure none
  give_up seconds n (some text) = do sleeps seconds n; pure (some text)

  unfoldable pub check_first : List ObjRef → ℤ → ℕ → T (Option String)
  unfolding ◌>>=◌ pure check_repeatedly sleeps
  check_first [] seconds n = pure none
  check_first (o ∷ os) seconds n = check_repeatedly o (suc (length os)) >>= give_up seconds n

  -- The inner loop's end, beside that of the checks of one object.
  Agrees : ℕ → ℕ → Outcome (Option String) × Env → Outcome (ℕ × Option String) × Env → Type 0
  Agrees index left (done none, s') r = r ≡ (done (index + left, none), s')
  Agrees index left (done (some text), s') r =
      (j : ℕ) × (j < index + left) × (r ≡ (done (j, some text), s'))
  Agrees index left (panic, s') r = r ≡ (panic, s')

  Agrees-suc :
      (index left : ℕ) (q : Outcome (Option String) × Env) (r : Outcome (ℕ × Option String) × Env)
      → Agrees (suc index) left q r
      → Agrees index (suc left) q r
  unfolding Agrees
  Agrees-suc index left (done none, s) r h = h ∙ ap (λ n. (done (n, none), s)) (omega arith)
  Agrees-suc index left (done (some text), s) r (j, below, eq) = (j, omega (arith, below), eq)
  Agrees-suc index left (panic, s) r h = h

  check_step-Agrees :
      (o : ObjRef) (os : List ObjRef) (left index : ℕ) (r : Outcome (Option String) × Env)
      → ((s : Env)
          → Agrees
              (suc index)
              left
              (check_repeatedly o left s)
              (check_objects e (o ∷ os) 0 left (suc index) s))
      → Agrees index
          (suc left)
          (continue r.0 (unless_failed (check_repeatedly o left)) r.1)
          (continue r.0 (advance e (check_objects e (o ∷ os) 0 left (suc index)) index) r.1)
  unfolding Agrees pure
  check_step-Agrees o os left index (done none, s) ih =
      Agrees-suc index left (check_repeatedly o left s) _ (ih s)
  check_step-Agrees o os left index (done (some text), s) ih = (index, omega arith, refl)
  check_step-Agrees o os left index (panic, s) ih = refl

  check_objects-Agrees :
      (o : ObjRef) (os : List ObjRef) (left index : ℕ) (s : Env)
      → Agrees index left (check_repeatedly o left s) (check_objects e (o ∷ os) 0 left index s)
  unfolding Agrees check_repeatedly check_objects check_at ◌>>=◌ pure
  check_objects-Agrees o os zero index s = ap (λ n. (done (n, none), s)) (omega arith)
  check_objects-Agrees o os (suc left) index s =
      check_step-Agrees o os left index (check e o s) (check_objects-Agrees o os left (suc index))

  retry_loop-sleeps :
      (objs : List ObjRef) (seconds : ℤ) (n i index : ℕ) (text : String) (s : Env)
      → index < length objs
      → retry_loop e objs (some seconds) (suc n) i (index, some text) s
        ≡ give_up seconds n (some text) s
  unfolding retry_loop inner_loop ◌>>=◌ pure call deref sleeps
  retry_loop-sleeps objs seconds zero i index text s h = refl
  retry_loop-sleeps objs seconds (suc n) i index text s h =
      let test : (suc n == 0) || (index == length objs) ≡ false = ground arith in
      ap
        (λ b.
          (if b
              then pure (some text)
              else try_later e (some seconds)
                  (retry_loop e objs (some seconds) (suc n) (suc i) (index, some text)))
            s)
        test
      ∙ retry_loop-sleeps objs seconds n (suc i) index text
          (record s { trace = sleep seconds ∷ s.trace }) h

  -- The first round, from the end of its inner loop.
  abbrev round_end : List ObjRef → ℤ → ℕ → ℕ × Option String → T (Option String)
  round_end objs seconds n state =
      if (n == 0) || (state.0 == length objs)
      then pure state.1
      else try_later e (some seconds) (retry_loop e objs (some seconds) n 1 state)

  round_end-done :
      (objs : List ObjRef) (seconds : ℤ) (n index : ℕ) (s : Env)
      → index ≡ length objs
      → round_end objs seconds n (index, none) s ≡ (done none, s)
  unfolding pure
  round_end-done objs seconds n index s h =
      let test : (n == 0) || (index == length objs) ≡ true = ground arith in
      ap
        (λ b.
          (if b
              then pure none
              else try_later e (some seconds) (retry_loop e objs (some seconds) n 1 (index, none)))
            s)
        test

  first_round :
      (objs : List ObjRef) (seconds : ℤ) (n : ℕ) (q : Outcome (Option String) × Env)
      (r : Outcome (ℕ × Option String) × Env)
      → Agrees 0 (length objs) q r
      → continue r.0 (round_end objs seconds n) r.1 ≡ continue q.0 (give_up seconds n) q.1
  unfolding Agrees ◌>>=◌ pure retry_loop inner_loop
  first_round objs seconds n (done none, s) r eq =
      ap (λ x. continue x.0 (round_end objs seconds n) x.1) eq
      ∙ round_end-done objs seconds n (0 + length objs) s (omega arith)
  first_round objs seconds n (done (some text), s) r (j, below, eq) =
      ap (λ x. continue x.0 (round_end objs seconds n) x.1) eq
      ∙ retry_loop-sleeps objs seconds n 0 j text s (omega (arith, below))
  first_round objs seconds n (panic, s) r eq =
      ap (λ x. continue x.0 (round_end objs seconds n) x.1) eq

  retry_loop-check_first :
      (objs : List ObjRef) (seconds : ℤ) (n : ℕ) (s : Env)
      → retry_loop e objs (some seconds) (suc n) 0 (0, none) s ≡ check_first objs seconds n s
  unfolding retry_loop inner_loop check_first ◌>>=◌ pure check_objects
  retry_loop-check_first [] seconds n s = round_end-done [] seconds n 0 s refl
  retry_loop-check_first (o ∷ os) seconds n s =
      let all_left : suc (length os) - 0 ≡ suc (length os) = omega arith in
      ap (λ left. (check_objects e (o ∷ os) 0 left 0 >>= round_end (o ∷ os) seconds n) s) all_left
      ∙ first_round (o ∷ os) seconds n (check_repeatedly o (suc (length os)) s)
          (check_objects e (o ∷ os) 0 (suc (length os)) 0 s)
          (check_objects-Agrees o os (suc (length os)) 0 s)

  -- A readiness task with its delays and a number of retries that is not negative, after the
  -- initial delay, checks the first of its objects as many times as it has objects, or until a
  -- check fails; after a failure it makes no further check, only sleeps once for each retry and
  -- returns the error; it checks no other object.
  pub run_checks-check_first :
      (objs : List ObjRef) (delay seconds : ℤ) (n : ℕ) (s : Env)
      → run_checks (inputs_of objs delay (pos n) seconds) e s
        ≡ check_first
            (objs ++ experiment_obj_refs e.spec.version_info)
            seconds
            n
            (record s { trace = sleep delay ∷ s.trace })
  unfolding run_checks ◌>>=◌ pure call deref rounds
  run_checks-check_first objs delay seconds n s =
      retry_loop-check_first (objs ++ experiment_obj_refs e.spec.version_info) seconds n
        (record s { trace = sleep delay ∷ s.trace })
