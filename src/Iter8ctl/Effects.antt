-- ===== src/Iter8ctl/Effects.antt =====
-- Results of the command line tools: a value, or a panic where the code reads a nil pointer or an
-- index out of range. The decimals are those of gopkg.in/inf.v0, which is not part of the program.
use etc.Prelude.{◌≡◌, ◌≢◌, ◌↔◌, ◌⊎◌, refl, map, List, [], ◌∷◌, String}
use etc.Prelude.Int.{ℤ, pos, negsuc}
use etc.Api.Types.{Quantity}
use etc.Controller.Effects.{Outcome, done, panic}

infixl 5 ◌>>=◌
unfoldable pub ◌>>=◌ : {A B : Type 0} → Outcome A → (A → Outcome B) → Outcome B
done a >>= f = f a
panic >>= f = panic

pub bind-done :
    {A B : Type 0} (m : Outcome A) (f : A → Outcome B) (a : A) → m ≡ done a → (m >>= f) ≡ f a
unfolding ◌>>=◌
bind-done m f a h = rw h

-- A value for each element, in order.
unfoldable pub traverse : {A B : Type 0} → (A → Outcome B) → List A → Outcome (List B)
traverse f [] = done []
traverse f (x ∷ xs) = do y ← f x; ys ← traverse f xs; done (y ∷ ys)

-- The decimals: `rounded` is Round(q.AsDec(), 3, RoundCeil), `dec_text` is String, `cmp` is Cmp,
-- which answers -1, 0 or 1.
pub record Decimals : Type 1 where
  pub Decimal : Type 0
  pub rounded : Quantity → Decimal
  pub dec_text : Decimal → String
  pub cmp : Decimal → Decimal → ℤ

-- What the documentation of Cmp says: it compares the values, so "less" is a strict weak order, and
-- "greater" is "less" the other way round.
pub record HasOrder (ds : Decimals) : Type 0 where
  pub less_irrefl : (x : ds.Decimal) → ds.cmp x x ≢ negsuc 0
  pub greater_less : (x y : ds.Decimal) → (ds.cmp x y ≡ pos 1) ↔ (ds.cmp y x ≡ negsuc 0)
  pub less_trans :
      (x y z : ds.Decimal) → ds.cmp x y ≡ negsuc 0 → ds.cmp y z ≡ negsuc 0 → ds.cmp x z ≡ negsuc 0
  pub less_weak :
      (x y z : ds.Decimal)
      → ds.cmp x z ≡ negsuc 0
      → (ds.cmp x y ≡ negsuc 0) ⊎ (ds.cmp y z ≡ negsuc 0)

-- The code returns a value.
abbrev pub Returns : {A : Type 0} → Outcome A → Type 0
Returns (done a) = Unit {0}
Returns panic = ⊥

pub bind-Returns :
    {A B : Type 0} (m : Outcome A) (f : A → Outcome B)
    → Returns m
    → ((a : A) → Returns (f a))
    → Returns (m >>= f)
unfolding ◌>>=◌
bind-Returns (done a) f h k = k a
bind-Returns panic f h k = h

pub traverse-Returns :
    {A B : Type 0} (f : A → Outcome B) (xs : List A)
    → ((x : A) → Returns (f x))
    → Returns (traverse f xs)
unfolding traverse
traverse-Returns f [] h = tt
traverse-Returns f (x ∷ xs) h =
    bind-Returns (f x) (λ y. traverse f xs >>= (λ ys. done (y ∷ ys))) (h x)
      (λ y. bind-Returns (traverse f xs) (λ ys. done (y ∷ ys)) (traverse-Returns f xs h) (λ ys. tt))

pub first-Returns :
    {A B : Type 0} (m : Outcome A) (f : A → Outcome B) → Returns (m >>= f) → Returns m
unfolding ◌>>=◌
first-Returns (done a) f h = tt
first-Returns panic f h = h

pub traverse-done :
    {A B : Type 0} (f : A → Outcome B) (g : A → B) (xs : List A)
    → ((x : A) → f x ≡ done (g x))
    → traverse f xs ≡ done (map g xs)
unfolding traverse ◌>>=◌
traverse-done f g [] h = refl
traverse-done f g (x ∷ xs) h = rw (h x, traverse-done f g xs h)
