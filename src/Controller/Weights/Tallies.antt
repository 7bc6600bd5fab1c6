-- ===== src/Controller/Weights/Tallies.antt =====
-- What the loop of updateObservedWeights collects: controllers/weights.go.
use etc.Prelude.{◌≡◌, refl, sym, ◌∙◌, ap, Option, none, some, List, [], ◌∷◌, ◌++◌, String, arith}
use mathlib.Core.List.{append_assoc, append-nil}
use etc.Prelude.Int.{ℤ, pos, negsuc, ◌+ℤ◌, ◌-ℤ◌, wrap32, IsInt32, wrap32-IsInt32}
use etc.Api.Types.{VersionDetail, WeightData, ObjectReference}
use etc.Controller.Effects.{Cluster, Outcome, done, panic, Result, ok, err, pure}
use etc.Controller.Effects.Gives.{OnDone, Gives, Gives-pure, Gives-bind, Gives-after}
use etc.Controller.Weights.{Observation, observe_ref, observe_version, observe_versions}

-- The names of the versions that refer to a weight, and of those that do not, in order.
abbrev pub referenced : List VersionDetail → List String
referenced [] = []
referenced (v ∷ vs) = elim v.weight_obj_ref [
  | none ↦ referenced vs
  | some r ↦ v.name ∷ referenced vs
]

abbrev pub unreferenced : List VersionDetail → List String
unreferenced [] = []
unreferenced (v ∷ vs) = elim v.weight_obj_ref [
  | none ↦ v.name ∷ unreferenced vs
  | some r ↦ unreferenced vs
]

abbrev pub weight_names : List WeightData → List String
weight_names [] = []
weight_names (w ∷ ws) = w.name ∷ weight_names ws

-- The int32 sum of weights, from a sum so far.
unfoldable pub sum32 : ℤ → List WeightData → ℤ
sum32 t [] = t
sum32 t (w ∷ ws) = sum32 (wrap32 (t +ℤ w.value)) ws

pub sum32-append :
    (t : ℤ) (ws : List WeightData) (w : WeightData)
    → sum32 t (ws ++ (w ∷ [])) ≡ wrap32 (sum32 t ws +ℤ w.value)
unfolding sum32
sum32-append t [] w = refl
sum32-append t (x ∷ ws) w = sum32-append (wrap32 (t +ℤ x.value)) ws w

pub weight_names-append :
    (ws : List WeightData) (w : WeightData)
    → weight_names (ws ++ (w ∷ [])) ≡ weight_names ws ++ (w.name ∷ [])
weight_names-append [] w = refl
weight_names-append (x ∷ ws) w = ap (λ r. x.name ∷ r) (weight_names-append ws w)

pub sum32-IsInt32 : (t : ℤ) (ws : List WeightData) → IsInt32 t → IsInt32 (sum32 t ws)
unfolding sum32
sum32-IsInt32 t [] h = h
sum32-IsInt32 t (w ∷ ws) h =
    sum32-IsInt32 (wrap32 (t +ℤ w.value)) ws (wrap32-IsInt32 (t +ℤ w.value))

-- What is left of 100 and the rest make 100, also where the rest has wrapped.
pub complement : (t : ℤ) → IsInt32 t → wrap32 (t +ℤ wrap32 (pos 100 -ℤ t)) ≡ pos 100
unfolding wrap32 IsInt32 ◌+ℤ◌ ◌-ℤ◌
complement (pos n) h = ground arith
complement (negsuc n) h = ground arith

-- What the loop has collected after the versions `vs`, from what it had before.
pub record Tallies (vs : List VersionDetail) (o o' : Observation) : Type 0 where
  pub names : weight_names o'.observed_weights ≡ weight_names o.observed_weights ++ referenced vs
  pub missing : o'.missing ≡ o.missing ++ unreferenced vs
  pub total :
      o.total ≡ sum32 (pos 0) o.observed_weights → o'.total ≡ sum32 (pos 0) o'.observed_weights

abbrev pub OnOk : {A : Type 0} → (A → Type 0) → Result A → Type 0
OnOk P (ok a) = P a
OnOk P (err e) = Unit {0}

referenced_cons :
    (v : VersionDetail) (vs : List VersionDetail)
    → referenced (v ∷ []) ++ referenced vs ≡ referenced (v ∷ vs)
referenced_cons v vs = ground arith

unreferenced_cons :
    (v : VersionDetail) (vs : List VersionDetail)
    → unreferenced (v ∷ []) ++ unreferenced vs ≡ unreferenced (v ∷ vs)
unreferenced_cons v vs = ground arith

Tallies-append :
    (v : VersionDetail) (vs : List VersionDetail) (o p q : Observation)
    → Tallies (v ∷ []) o p
    → Tallies vs p q
    → Tallies (v ∷ vs) o q
Tallies-append v vs o p q h k = record {
  names =
      k.names
      ∙ ap (λ l. l ++ referenced vs) h.names
      ∙ append_assoc (weight_names o.observed_weights) (referenced (v ∷ [])) (referenced vs)
      ∙ ap (λ l. weight_names o.observed_weights ++ l) (referenced_cons v vs);
  missing =
      k.missing
      ∙ ap (λ l. l ++ unreferenced vs) h.missing
      ∙ append_assoc o.missing (unreferenced (v ∷ [])) (unreferenced vs)
      ∙ ap (λ l. o.missing ++ l) (unreferenced_cons v vs);
  total = λ e. k.total (h.total e);
}

-- A version with no reference is listed as missing; one with a reference has its weight added.
Tallies_missing :
    (v : VersionDetail) (o : Observation)
    → v.weight_obj_ref ≡ none
    → Tallies (v ∷ []) o (record o { missing = o.missing ++ (v.name ∷ []) })
Tallies_missing v o e = record {
  names = rw e (sym (append-nil (weight_names o.observed_weights)));
  missing = rw e refl;
  total = λ h. h;
}

Tallies_seen :
    (v : VersionDetail) (o : Observation) (r : ObjectReference) (n : ℤ)
    → v.weight_obj_ref ≡ some r
    → Tallies (v ∷ []) o (record o {
      observed_weights = o.observed_weights ++ (record { name = v.name; value = n } ∷ []);
      total = wrap32 (o.total +ℤ n);
    })
Tallies_seen v o r n e = record {
  names = rw e (weight_names-append o.observed_weights (record { name = v.name; value = n }));
  missing = rw e (sym (append-nil o.missing));
  total = λ h.
      rw (sum32-append (pos 0) o.observed_weights (record { name = v.name; value = n }))
        (ap (λ t. wrap32 (t +ℤ n)) h);
}

module _ ⦃cl : Cluster⦄ where
  seen :
      (v : VersionDetail) (o : Observation) (r : ObjectReference) (w : Result ℤ)
      → v.weight_obj_ref ≡ some r
      → OnOk (Tallies (v ∷ []) o) (elim w [
        | err e ↦ err e
        | ok n ↦ ok (record o {
          observed_weights = o.observed_weights ++ (record { name = v.name; value = n } ∷ []);
          total = wrap32 (o.total +ℤ n);
        })
      ])
  seen v o r (ok n) e = Tallies_seen v o r n e
  seen v o r (err x) e = tt

  Gives-ref :
      (v : VersionDetail) (o : Observation) (ns : String) (r : Option ObjectReference)
      → v.weight_obj_ref ≡ r
      → Gives (OnOk (Tallies (v ∷ []) o)) (observe_ref v o ns r)
  unfolding observe_ref
  Gives-ref v o ns none e = Gives-pure _ (Tallies_missing v o e)
  Gives-ref v o ns (some r) e = Gives-after _ _ (λ w. Gives-pure _ (seen v o r w e))

  Gives-version :
      (v : VersionDetail) (o : Observation)
      → Gives (OnOk (Tallies (v ∷ []) o)) (observe_version v o)
  unfolding observe_version
  Gives-version v o = Gives-after _ _ (λ i. Gives-ref v o i.namespace v.weight_obj_ref refl)

  later :
      (v : VersionDetail) (vs : List VersionDetail) (o p : Observation) (r : Result Observation)
      → Tallies (v ∷ []) o p
      → OnOk (Tallies vs p) r
      → OnOk (Tallies (v ∷ vs) o) r
  later v vs o p (ok q) h k = Tallies-append v vs o p q h k
  later v vs o p (err x) h k = tt

  weaken_done :
      (v : VersionDetail) (vs : List VersionDetail) (o p : Observation)
      (r : Outcome (Result Observation))
      → Tallies (v ∷ []) o p
      → OnDone (OnOk (Tallies vs p)) r
      → OnDone (OnOk (Tallies (v ∷ vs) o)) r
  weaken_done v vs o p (done r) h k = later v vs o p r h k
  weaken_done v vs o p panic h k = tt

  Gives-rest :
      (v : VersionDetail) (vs : List VersionDetail) (o : Observation) (r : Result Observation)
      → OnOk (Tallies (v ∷ []) o) r
      → ((p : Observation) → Gives (OnOk (Tallies vs p)) (observe_versions vs p))
      → Gives
          (OnOk (Tallies (v ∷ vs) o))
          (elim r [ ok p ↦ observe_versions vs p | err e ↦ pure (err e) ])
  Gives-rest v vs o (ok p) h k = record {
    at = λ s. weaken_done v vs o p (observe_versions vs p s).0 h ((k p).at s);
  }
  Gives-rest v vs o (err e) h k = Gives-pure _ tt

  -- The loop over the versions.
  pub Gives-versions :
      (vs : List VersionDetail) (o : Observation)
      → Gives (OnOk (Tallies vs o)) (observe_versions vs o)
  unfolding observe_versions
  Gives-versions [] o = Gives-pure _ (record {
    names = sym (append-nil (weight_names o.observed_weights));
    missing = sym (append-nil o.missing);
    total = λ e. e;
  })
  Gives-versions (v ∷ vs) o =
      Gives-bind _ _ (Gives-version v o) (λ r h. Gives-rest v vs o r h (λ p. Gives-versions vs p))
