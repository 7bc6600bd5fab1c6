-- ===== src/Iter8ctl/Experiment/Rewards/Best.antt =====
-- GetAnnotatedMetricStrs of iter8ctl/experiment/experiment.go: which entry of a row is marked.
use etc.Prelude.{
  ℕ, zero, suc, ◌<◌, ◌≡◌, ◌≢◌, ◌↔◌, ◌⊎◌, inr, refl, sym, Bool, true, false, Option, none, some,
  List, [], ◌∷◌, ◌++◌, length, length-append, get_elem?, arith, if◌then◌else◌,
}
use mathlib.Core.Path.{subst}
use mathlib.Core.List.{append_assoc, append-nil}
use etc.Prelude.Int.{ℤ, pos, negsuc, eqb_ℤ}
use etc.Iter8ctl.Effects.{Decimals, HasOrder}
use etc.Iter8ctl.Experiment.Rewards.{beats, update_best, best_from}

module _ ⦃ds : Decimals⦄ where
  -- No value is better than the best one, and those before it are worse; or there is no value.
  unfoldable pub IsFirstBest : Bool → List (Option ds.Decimal) → Option (ℕ × ds.Decimal) → Type 0
  IsFirstBest direction vals none = (j : ℕ) (v : ds.Decimal) → get_elem? vals j ≢ some (some v)
  IsFirstBest direction vals (some best) =
      (get_elem? vals best.0 ≡ some (some best.1))
      × ((j : ℕ) (v : ds.Decimal)
          → get_elem? vals j ≡ some (some v)
          → beats direction v best.1 ≡ false)
      × ((j : ℕ) (v : ds.Decimal)
          → j < best.0
          → get_elem? vals j ≡ some (some v)
          → beats direction best.1 v ≡ true)

  get_elem-old :
      (vals : List (Option ds.Decimal)) (o x : Option ds.Decimal) (j : ℕ)
      → get_elem? vals j ≡ some x
      → (get_elem? (vals ++ (o ∷ [])) j ≡ some x) × (j < length vals)
  get_elem-old [] o x j h = ground arith
  get_elem-old (y ∷ vals) o x zero h = (h, omega arith)
  get_elem-old (y ∷ vals) o x (suc j) h =
      let (kept, below) = get_elem-old vals o x j h in (kept, omega (arith, below))

  get_elem-new :
      (vals : List (Option ds.Decimal)) (o x : Option ds.Decimal) (j : ℕ)
      → get_elem? (vals ++ (o ∷ [])) j ≡ some x
      → ((j ≡ length vals) × (o ≡ x)) ⊎ (get_elem? vals j ≡ some x)
  get_elem-new [] o x zero h = ground arith
  get_elem-new [] o x (suc j) h = ground arith
  get_elem-new (y ∷ vals) o x zero h = inr h
  get_elem-new (y ∷ vals) o x (suc j) h = ground (arith, get_elem-new vals o x j h)

  get_elem-last :
      (vals : List (Option ds.Decimal)) (o : Option ds.Decimal)
      → get_elem? (vals ++ (o ∷ [])) (length vals) ≡ some o
  get_elem-last [] o = refl
  get_elem-last (y ∷ vals) o = get_elem-last vals o

  eqb_less : (c : ℤ) → (eqb_ℤ (negsuc 0) c ≡ true) ↔ (c ≡ negsuc 0)
  eqb_less (pos n) = ground arith
  eqb_less (negsuc n) = ground arith

  eqb_greater : (c : ℤ) → (eqb_ℤ c (pos 1) ≡ true) ↔ (c ≡ pos 1)
  eqb_greater (pos n) = ground arith
  eqb_greater (negsuc n) = ground arith

  -- y is less than x, or greater where lower values are preferred.
  abbrev Less : Bool → ds.Decimal → ds.Decimal → Type 0
  Less true x y = ds.cmp y x ≡ negsuc 0
  Less false x y = ds.cmp x y ≡ negsuc 0

  module _ (order : HasOrder ds) where
    beats-Less :
        (direction : Bool) (x y : ds.Decimal) → (beats direction x y ≡ true) ↔ Less direction x y
    unfolding beats
    beats-Less true x y = eqb_less (ds.cmp y x)
    beats-Less false x y = (
      λ h. (order.greater_less y x).0 ((eqb_greater (ds.cmp y x)).0 h),
      λ h. (eqb_greater (ds.cmp y x)).1 ((order.greater_less y x).1 h),
    )

    beats_irrefl : (direction : Bool) (x : ds.Decimal) → beats direction x x ≡ false
    beats_irrefl true x = ground (arith, beats-Less true x x, order.less_irrefl x)
    beats_irrefl false x = ground (arith, beats-Less false x x, order.less_irrefl x)

    beats_trans :
        (direction : Bool) (x y z : ds.Decimal)
        → beats direction x y ≡ true
        → beats direction y z ≡ true
        → beats direction x z ≡ true
    beats_trans true x y z h k =
        (beats-Less true x z).1
          (order.less_trans z y x ((beats-Less true y z).0 k) ((beats-Less true x y).0 h))
    beats_trans false x y z h k =
        (beats-Less false x z).1
          (order.less_trans x y z ((beats-Less false x y).0 h) ((beats-Less false y z).0 k))

    beats_weak :
        (direction : Bool) (x y z : ds.Decimal)
        → beats direction x z ≡ true
        → beats direction y z ≡ false
        → beats direction x y ≡ true
    beats_weak true x y z h k = ground (
      arith,
      beats-Less true x z,
      beats-Less true y z,
      beats-Less true x y,
      order.less_weak z y x,
    )
    beats_weak false x y z h k = ground (
      arith,
      beats-Less false x z,
      beats-Less false y z,
      beats-Less false x y,
      order.less_weak x y z,
    )

    IsFirstBest-none :
        (direction : Bool) (vals : List (Option ds.Decimal)) (best : Option (ℕ × ds.Decimal))
        → IsFirstBest direction vals best
        → IsFirstBest direction (vals ++ (none ∷ [])) best
    unfolding IsFirstBest
    IsFirstBest-none direction vals none h =
        λ j v e. ground (arith, get_elem-new vals none (some v) j e, h j v)
    IsFirstBest-none direction vals (some best) (at, top, first) = (
      (get_elem-old vals none (some best.1) best.0 at).0,
      λ j v e. ground (arith, get_elem-new vals none (some v) j e, top j v),
      λ j v below e. ground (arith, get_elem-new vals none (some v) j e, first j v below),
    )

    IsFirstBest-first :
        (direction : Bool) (vals : List (Option ds.Decimal)) (val : ds.Decimal)
        → IsFirstBest direction vals none
        → IsFirstBest direction (vals ++ (some val ∷ [])) (some (length vals, val))
    unfolding IsFirstBest
    IsFirstBest-first direction vals val h = (
      get_elem-last vals (some val),
      λ j v e.
          ground
            (arith, get_elem-new vals (some val) (some v) j e, h j v, beats_irrefl direction val),
      λ j v below e. ground (arith, get_elem-new vals (some val) (some v) j e, h j v),
    )

    IsFirstBest-better :
        (direction : Bool) (vals : List (Option ds.Decimal)) (val : ds.Decimal)
        (best : ℕ × ds.Decimal)
        → beats direction val best.1 ≡ true
        → IsFirstBest direction vals (some best)
        → IsFirstBest direction (vals ++ (some val ∷ [])) (some (length vals, val))
    unfolding IsFirstBest
    IsFirstBest-better direction vals val best b (at, top, first) = (
      get_elem-last vals (some val),
      λ j v e. ground (
        arith,
        get_elem-new vals (some val) (some v) j e,
        top j v,
        beats_irrefl direction val,
        beats_trans direction v val best.1,
        b,
      ),
      λ j v below e. ground (
        arith,
        get_elem-new vals (some val) (some v) j e,
        top j v,
        beats_weak direction val v best.1 b,
      ),
    )

    IsFirstBest-kept :
        (direction : Bool) (vals : List (Option ds.Decimal)) (val : ds.Decimal)
        (best : ℕ × ds.Decimal)
        → beats direction val best.1 ≡ false
        → IsFirstBest direction vals (some best)
        → IsFirstBest direction (vals ++ (some val ∷ [])) (some best)
    unfolding IsFirstBest
    IsFirstBest-kept direction vals val best b (at, top, first) = (
      (get_elem-old vals (some val) (some best.1) best.0 at).0,
      λ j v e. ground (arith, get_elem-new vals (some val) (some v) j e, top j v, b),
      λ j v below e. ground (
        arith,
        get_elem-new vals (some val) (some v) j e,
        first j v below,
        (get_elem-old vals (some val) (some best.1) best.0 at).1,
      ),
    )

    update_best_test :
        (direction : Bool) (vals : List (Option ds.Decimal)) (val : ds.Decimal)
        (best : ℕ × ds.Decimal) (b : Bool)
        → beats direction val best.1 ≡ b
        → IsFirstBest direction vals (some best)
        → IsFirstBest direction
            (vals ++ (some val ∷ []))
            (if b then some (length vals, val) else some best)
    update_best_test direction vals val best true b h =
        IsFirstBest-better direction vals val best b h
    update_best_test direction vals val best false b h =
        IsFirstBest-kept direction vals val best b h

    update_best-IsFirstBest :
        (direction : Bool) (vals : List (Option ds.Decimal)) (o : Option ds.Decimal)
        (best : Option (ℕ × ds.Decimal))
        → IsFirstBest direction vals best
        → IsFirstBest direction (vals ++ (o ∷ [])) (update_best direction (length vals) o best)
    unfolding update_best
    update_best-IsFirstBest direction vals none best h = IsFirstBest-none direction vals best h
    update_best-IsFirstBest direction vals (some val) none h =
        IsFirstBest-first direction vals val h
    update_best-IsFirstBest direction vals (some val) (some best) h =
        update_best_test direction vals val best (beats direction val best.1) refl h

    pub best_from-IsFirstBest :
        (direction : Bool) (seen vals : List (Option ds.Decimal)) (best : Option (ℕ × ds.Decimal))
        → IsFirstBest direction seen best
        → IsFirstBest direction (seen ++ vals) (best_from direction (length seen) vals best)
    unfolding best_from
    best_from-IsFirstBest direction seen [] best h =
        subst (λ l. IsFirstBest direction l best) (sym (append-nil seen)) h
    best_from-IsFirstBest direction seen (o ∷ vals) best h =
        let best₁ = update_best direction (length seen) o best in
        let ih =
          best_from-IsFirstBest direction (seen ++ (o ∷ [])) vals best₁
            (update_best-IsFirstBest direction seen o best h) in
        let moved =
          subst
            (λ l.
              IsFirstBest direction l (best_from direction (length (seen ++ (o ∷ []))) vals best₁))
            (append_assoc seen (o ∷ []) vals) ih in
        let counted : length (seen ++ (o ∷ [])) ≡ suc (length seen) =
          omega (arith, length-append seen (o ∷ [])) in
        subst (λ n. IsFirstBest direction (seen ++ (o ∷ vals)) (best_from direction n vals best₁))
          counted moved

  pub IsFirstBest-empty : (direction : Bool) → IsFirstBest direction [] none
  unfolding IsFirstBest
  IsFirstBest-empty direction j v = ground arith
