-- ===== src/Controller/Effects/Gives.antt =====
-- What an action returns, where it returns.
use etc.Controller.Effects.{Env, Outcome, done, panic, M, continue, ◌>>=◌, pure}

abbrev pub OnDone : {A : Type 0} → (A → Type 0) → Outcome A → Type 0
OnDone P (done a) = P a
OnDone P panic = Unit {0}

pub record Gives {A : Type 0} (P : A → Type 0) (m : M A) : Type 0 where
  pub at : (s : Env) → OnDone P (m s).0

module _ {A : Type 0} {P : A → Type 0} where
  pub Gives-pure : (a : A) → P a → Gives P (pure a)
  unfolding pure
  Gives-pure a h = record { at = λ s. h }

module _ {A B : Type 0} {Q : A → Type 0} {P : B → Type 0} where
  continue-OnDone :
      (o : Outcome A) (f : A → M B) (s : Env)
      → OnDone Q o
      → ((a : A) → Q a → Gives P (f a))
      → OnDone P (continue o f s).0
  continue-OnDone (done a) f s h k = (k a h).at s
  continue-OnDone panic f s h k = tt

  pub Gives-bind :
      (m : M A) (f : A → M B) → Gives Q m → ((a : A) → Q a → Gives P (f a)) → Gives P (m >>= f)
  unfolding ◌>>=◌
  Gives-bind m f g k = record { at = λ s. continue-OnDone (m s).0 f (m s).1 (g.at s) k }

-- Where nothing is said of the first action's result.
module _ {A B : Type 0} {P : B → Type 0} where
  continue_any :
      (o : Outcome A) (f : A → M B) (s : Env)
      → ((a : A) → Gives P (f a))
      → OnDone P (continue o f s).0
  continue_any (done a) f s k = (k a).at s
  continue_any panic f s k = tt

  pub Gives-after : (m : M A) (f : A → M B) → ((a : A) → Gives P (f a)) → Gives P (m >>= f)
  unfolding ◌>>=◌
  Gives-after m f k = record { at = λ s. continue_any (m s).0 f (m s).1 k }
