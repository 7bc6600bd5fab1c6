-- ===== src/Controller/Steps/Rules.antt =====
-- Each way to build an action does steps, if its parts do.
use etc.Prelude.{◌≡◌, refl, Bool, true, false, Option, none, some, List, String, if◌then◌else◌}
use etc.Controller.Effects.{
  Call, Lookup, Result, ok, err, Env, Outcome, done, panic, M, continue, ◌>>=◌, pure, panics, gets,
  deref, ask,
}
use etc.Controller.Steps.{Reach, here, called, Reach-trans, Reach-step}

-- What `m` does is a sequence of steps, whether it returns or panics.
pub record Follows {A : Type 0} (m : M A) : Type 0 where
  pub at : (s : Env) → Reach s (m s).1

module _ {A : Type 0} where
  pub Follows-pure : (a : A) → Follows (pure a)
  unfolding pure
  Follows-pure a = record { at = λ s. here }

  pub Follows-panics : Follows (panics {A = A})
  unfolding panics
  Follows-panics = record { at = λ s. here }

  pub Follows-gets : (f : Env → A) → Follows (gets f)
  unfolding gets
  Follows-gets f = record { at = λ s. here }

  pub Follows-deref : (o : Option A) → Follows (deref o)
  unfolding deref
  Follows-deref none = record { at = λ s. here }
  Follows-deref (some a) = record { at = λ s. here }

  pub Follows-ask : (c : Call) (answer : List Call → A) → Follows (ask c answer)
  unfolding ask
  Follows-ask c answer = record { at = λ s. Reach-step (called c s) }

  pub Follows-if : (b : Bool) {m n : M A} → Follows m → Follows n → Follows (if b then m else n)
  Follows-if true fm fn = fm
  Follows-if false fm fn = fn

module _ {A B : Type 0} where
  after-Reach :
      (o : Outcome A) (f : A → M B) {s : Env} (t : Env)
      → Reach s t
      → ((a : A) → o ≡ done a → Reach t (f a t).1)
      → Reach s (continue o f t).1
  after-Reach (done a) f t r k = Reach-trans r (k a refl)
  after-Reach panic f t r k = r

  continue-Reach :
      (o : Outcome A) (f : A → M B) (s t : Env)
      → Reach s t
      → ((a : A) → Follows (f a))
      → Reach s (continue o f t).1
  continue-Reach (done a) f s t r ff = Reach-trans r ((ff a).at t)
  continue-Reach panic f s t r ff = r

  -- From one state, where the rest is known to start with what `m` gave.
  pub Reach-bind :
      (m : M A) (f : A → M B) (s : Env)
      → Reach s (m s).1
      → ((a : A) → (m s).0 ≡ done a → Reach (m s).1 (f a (m s).1).1)
      → Reach s ((m >>= f) s).1
  unfolding ◌>>=◌
  Reach-bind m f s r k = after-Reach (m s).0 f (m s).1 r k

  pub Follows-bind :
      (m : M A) (f : A → M B) → Follows m → ((a : A) → Follows (f a)) → Follows (m >>= f)
  unfolding ◌>>=◌
  Follows-bind m f fm ff = record { at = λ s. continue-Reach (m s).0 f s (m s).1 (fm.at s) ff }

  infixr 5 ◌▷◌
  pub ◌▷◌ : {m : M A} {f : A → M B} → Follows m → ((a : A) → Follows (f a)) → Follows (m >>= f)
  fm ▷ ff = Follows-bind _ _ fm ff

  pub Follows-option :
      (o : Option A) {m : M B} {f : A → M B}
      → Follows m
      → ((a : A) → Follows (f a))
      → Follows (elim o [ none ↦ m | some a ↦ f a ])
  Follows-option none fm ff = fm
  Follows-option (some a) fm ff = ff a

  pub Follows-result :
      (r : Result A) {m : A → M B} {f : String → M B}
      → ((a : A) → Follows (m a))
      → ((e : String) → Follows (f e))
      → Follows (elim r [ ok a ↦ m a | err e ↦ f e ])
  Follows-result (ok a) fm ff = fm a
  Follows-result (err e) fm ff = ff e

module _ {A B : Type 0} where
  -- The same, where the code tests for the error first.
  pub Follows-result' :
      (r : Result A) {m : A → M B} {f : String → M B}
      → ((e : String) → Follows (f e))
      → ((a : A) → Follows (m a))
      → Follows (elim r [ err e ↦ f e | ok a ↦ m a ])
  Follows-result' (ok a) ff fm = fm a
  Follows-result' (err e) ff fm = ff e

  pub Follows-option' :
      (o : Option A) {m : M B} {f : A → M B}
      → ((a : A) → Follows (f a))
      → Follows m
      → Follows (elim o [ some a ↦ f a | none ↦ m ])
  Follows-option' none ff fm = fm
  Follows-option' (some a) ff fm = ff a

pub Follows-bool :
    {B : Type 0} (b : Bool) {m n : M B}
    → Follows m
    → Follows n
    → Follows (elim b [ true ↦ m | false ↦ n ])
Follows-bool true fm fn = fm
Follows-bool false fm fn = fn

module _ {A B : Type 0} where
  pub Follows-lookup :
      (r : Lookup A) {m : M B} {f : String → M B} {g : A → M B}
      → Follows m
      → ((e : String) → Follows (f e))
      → ((a : A) → Follows (g a))
      → Follows (elim r [ Lookup.not_found ↦ m | Lookup.failed e ↦ f e | Lookup.found a ↦ g a ])
  Follows-lookup Lookup.not_found fm ff fg = fm
  Follows-lookup (Lookup.failed e) fm ff fg = ff e
  Follows-lookup (Lookup.found a) fm ff fg = fg a

pub ruleset follows_rules = (
  Follows-pure, Follows-panics, Follows-gets, Follows-deref, Follows-ask, Follows-if, Follows-bind,
  Follows-option, Follows-result,
)
