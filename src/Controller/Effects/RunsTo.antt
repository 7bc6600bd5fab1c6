-- ===== src/Controller/Effects/RunsTo.antt =====
-- Total correctness: an action returns, it does not panic, and what it returns and the experiment
-- in memory satisfy a condition.
use etc.Prelude.{◌≡◌, refl, sym, ◌∙◌, List}
use mathlib.Core.Path.{subst}
use etc.Api.Types.{Experiment}
use etc.Controller.Effects.{Call, Env, Outcome, done, panic, M, continue, ◌>>=◌, pure, gets, ask}

abbrev pub Returns : {A : Type 0} → (A → Experiment → Type 0) → Outcome A → Env → Type 0
Returns Q (done a) s = Q a s.instance_
Returns Q panic s = ⊥

pub record RunsTo {A : Type 0} (Q : A → Experiment → Type 0) (m : M A) (s : Env) : Type 0 where
  pub returns : Returns Q (m s).0 (m s).1

module _ {A B : Type 0} {R : B → Experiment → Type 0} where
  continue-Returns :
      (Q : A → Experiment → Type 0) (o : Outcome A) (f : A → M B) (s : Env)
      → Returns Q o s
      → ((a : A) (t : Env) → Q a t.instance_ → RunsTo R (f a) t)
      → Returns R (continue o f s).0 (continue o f s).1
  continue-Returns Q (done a) f s h k = (k a s h).returns
  continue-Returns Q panic f s h k = absurd h

  pub RunsTo-bind :
      {Q : A → Experiment → Type 0} (m : M A) (f : A → M B) (s : Env)
      → RunsTo Q m s
      → ((a : A) (t : Env) → Q a t.instance_ → RunsTo R (f a) t)
      → RunsTo R (m >>= f) s
  unfolding ◌>>=◌
  RunsTo-bind {Q} m f s h k = record { returns = continue-Returns Q (m s).0 f (m s).1 h.returns k }

module _ {A : Type 0} {Q : A → Experiment → Type 0} where
  pub RunsTo-pure : (a : A) (s : Env) → Q a s.instance_ → RunsTo Q (pure a) s
  unfolding pure
  RunsTo-pure a s h = record { returns = h }

  pub RunsTo-gets : (f : Env → A) (s : Env) → Q (f s) s.instance_ → RunsTo Q (gets f) s
  unfolding gets
  RunsTo-gets f s h = record { returns = h }

  pub RunsTo-ask :
      (c : Call) (answer : List Call → A) (s : Env)
      → Q (answer s.trace) s.instance_
      → RunsTo Q (ask c answer) s
  unfolding ask
  RunsTo-ask c answer s h = record { returns = h }

module _ {A : Type 0} where
  weaken-Returns :
      (P S : A → Experiment → Type 0) (o : Outcome A) (s : Env)
      → Returns P o s
      → ((a : A) (i : Experiment) → P a i → S a i)
      → Returns S o s
  weaken-Returns P S (done a) s h k = k a s.instance_ h
  weaken-Returns P S panic s h k = h

  pub RunsTo-weaken :
      {Q R : A → Experiment → Type 0} (m : M A) (s : Env)
      → RunsTo Q m s
      → ((a : A) (i : Experiment) → Q a i → R a i)
      → RunsTo R m s
  RunsTo-weaken {Q} {R} m s h k = record {
    returns = weaken-Returns Q R (m s).0 (m s).1 h.returns k;
  }

  Returns-done :
      (P : A → Experiment → Type 0) (o : Outcome A) (a : A) (s : Env)
      → o ≡ done a
      → P a s.instance_
      → Returns P o s
  Returns-done P o a s e h = subst (λ x. Returns P x s) (sym e) h

  pub RunsTo-of :
      {Q : A → Experiment → Type 0} (m : M A) (s : Env) (a : A)
      → (m s).0 ≡ done a
      → Q a (m s).1.instance_
      → RunsTo Q m s
  RunsTo-of {Q} m s a e h = record { returns = Returns-done Q (m s).0 a (m s).1 e h }

module _ {A : Type 0} {Q : A → Experiment → Type 0} where
  -- What an action that returned `a` satisfies.
  pub RunsTo-done :
      {m : M A} {s : Env} {a : A} → RunsTo Q m s → (m s).0 ≡ done a → Q a (m s).1.instance_
  RunsTo-done {m} {s} h e = subst (λ o. Returns Q o (m s).1) e h.returns

-- An action that returns and leaves the experiment in memory as it is, whatever the state.
pub record Frame {A : Type 0} (m : M A) : Type 0 where
  pub at : (s : Env) → RunsTo (λ a i. i ≡ s.instance_) m s

module _ {A B : Type 0} where
  pub Frame-bind : (m : M A) (f : A → M B) → Frame m → ((a : A) → Frame (f a)) → Frame (m >>= f)
  Frame-bind m f g k = record {
    at = λ s.
        RunsTo-bind m f s (g.at s) (λ a t q. RunsTo-weaken (f a) t ((k a).at t) (λ b i e. e ∙ q));
  }

  -- After an action that leaves the experiment as it is.
  pub RunsTo-after :
      (P : Experiment → Type 0) {R : B → Experiment → Type 0} (m : M A) (f : A → M B) (s : Env)
      → Frame m
      → P s.instance_
      → ((a : A) (t : Env) → P t.instance_ → RunsTo R (f a) t)
      → RunsTo R (m >>= f) s
  RunsTo-after P m f s g h k = RunsTo-bind m f s (g.at s) (λ a t e. k a t (subst P (sym e) h))

module _ {A : Type 0} where
  pub RunsTo-Frame :
      (P : Experiment → Type 0) (m : M A) (s : Env)
      → Frame m
      → P s.instance_
      → RunsTo (λ a i. P i) m s
  RunsTo-Frame P m s g h = RunsTo-weaken m s (g.at s) (λ a i e. subst P (sym e) h)

  pub Frame-pure : (a : A) → Frame (pure a)
  Frame-pure a = record { at = λ s. RunsTo-pure a s refl }

  pub Frame-gets : (f : Env → A) → Frame (gets f)
  Frame-gets f = record { at = λ s. RunsTo-gets f s refl }

  pub Frame-ask : (c : Call) (answer : List Call → A) → Frame (ask c answer)
  Frame-ask c answer = record { at = λ s. RunsTo-ask c answer s refl }
