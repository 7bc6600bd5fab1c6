-- ===== src/Controller/Weights/Totals.antt =====
-- The observed weights: controllers/weights.go, updateObservedWeights.
use etc.Prelude.{◌≡◌, refl, sym, ◌∙◌, ap, Option, none, some, List, [], ◌∷◌, ◌++◌, String, arith}
use mathlib.Core.Path.{subst}
use etc.Prelude.Int.{pos, ◌+ℤ◌, ◌-ℤ◌, wrap32, IsInt32}
use etc.Api.Types.{VersionDetail, VersionInfo, WeightData, ExperimentStatus}
use etc.Controller.Effects.{
  Cluster, Env, Outcome, done, panic, Result, ok, err, continue, ◌>>=◌, pure, gets, set_status,
}
use etc.Controller.Effects.Gives.{OnDone}
use etc.Controller.Weights.{
  Observation, no_observation, observe_versions, assign_missing, assign_weights, update_of,
  update_observed_weights,
}
use etc.Controller.Weights.Tallies.{
  referenced, unreferenced, weight_names, sum32, sum32-append, weight_names-append, sum32-IsInt32,
  complement, Tallies, OnOk, Gives-versions,
}

-- What the distribution holds where one version has no reference, and where all have one.
abbrev pub OneMissing : List VersionDetail → String → ExperimentStatus → Type 0
OneMissing vs name s =
    (weight_names s.current_weight_distribution ≡ referenced vs ++ (name ∷ []))
    × (sum32 (pos 0) s.current_weight_distribution ≡ pos 100)

abbrev pub NoneMissing : List VersionDetail → ExperimentStatus → Type 0
NoneMissing vs s = weight_names s.current_weight_distribution ≡ referenced vs

zero-IsInt32 : IsInt32 (pos 0)
unfolding IsInt32
zero-IsInt32 = omega arith

assign_one :
    (vs : List VersionDetail) (name : String) (o : Observation) (s : Env)
    → Tallies vs no_observation o
    → o.missing ≡ name ∷ []
    → OneMissing vs name (assign_weights o s).1.instance_.status
unfolding assign_weights assign_missing ◌>>=◌ set_status pure sum32
assign_one vs name o s h e =
    let w : WeightData = record { name = name; value = wrap32 (pos 100 -ℤ o.total) } in
    let total = h.total refl in
    rw (e, assign_missing)
      (
        weight_names-append o.observed_weights w ∙ ap (λ l. l ++ (name ∷ [])) h.names,
        sum32-append (pos 0) o.observed_weights w
            ∙ ap (λ t. wrap32 (t +ℤ w.value)) (sym total)
            ∙ complement o.total (rw total (sum32-IsInt32 (pos 0) o.observed_weights zero-IsInt32)),
      )

assign_none :
    (vs : List VersionDetail) (o : Observation) (s : Env)
    → Tallies vs no_observation o
    → o.missing ≡ []
    → NoneMissing vs (assign_weights o s).1.instance_.status
unfolding assign_weights assign_missing ◌>>=◌ set_status pure
assign_none vs o s h e = rw (e, assign_missing) h.names

module _ ⦃cl : Cluster⦄ where
  after_loop :
      (vs : List VersionDetail) (P : ExperimentStatus → Type 0) (r : Outcome (Result Observation))
      (s : Env)
      → OnDone (OnOk (Tallies vs no_observation)) r
      → ((o : Observation)
          → Tallies vs no_observation o
          → P (assign_weights o s).1.instance_.status)
      → (continue r (λ x. elim x [ err e ↦ pure (some e) | ok o ↦ assign_weights o ]) s).0
        ≡ done none
      → P
          (continue r
            (λ x. elim x [ err e ↦ pure (some e) | ok o ↦ assign_weights o ])
            s).1.instance_.status
  unfolding pure
  after_loop vs P (done (ok o)) s h k e = k o h
  after_loop vs P (done (err x)) s h k e = cc
  after_loop vs P panic s h k e = cc

  observed_one :
      (s : Env) (info : VersionInfo) (name : String)
      → unreferenced (info.baseline ∷ info.candidates) ≡ name ∷ []
      → (update_of (some info) s).0 ≡ done none
      → OneMissing
          (info.baseline ∷ info.candidates)
          name
          (update_of (some info) s).1.instance_.status
  unfolding update_of ◌>>=◌
  observed_one s info name m h =
      let vs = info.baseline ∷ info.candidates in
      after_loop vs (OneMissing vs name) (observe_versions vs no_observation s).0
        (observe_versions vs no_observation s).1 ((Gives-versions vs no_observation).at s)
        (λ o t. assign_one vs name o _ t (t.missing ∙ m)) h

  observed_all :
      (s : Env) (info : VersionInfo)
      → unreferenced (info.baseline ∷ info.candidates) ≡ []
      → (update_of (some info) s).0 ≡ done none
      → NoneMissing (info.baseline ∷ info.candidates) (update_of (some info) s).1.instance_.status
  unfolding update_of ◌>>=◌
  observed_all s info m h =
      let vs = info.baseline ∷ info.candidates in
      after_loop vs (NoneMissing vs) (observe_versions vs no_observation s).0
        (observe_versions vs no_observation s).1 ((Gives-versions vs no_observation).at s)
        (λ o t. assign_none vs o _ t (t.missing ∙ m)) h

  -- Where exactly one version refers to no weight and the others are read without an error, the
  -- distribution names the versions with a reference in order and then that one, and its int32 sum
  -- is 100, also where a partial sum wraps.
  pub update_observed_weights_total :
      (s : Env) (info : VersionInfo) (name : String)
      → s.instance_.spec.version_info ≡ some info
      → unreferenced (info.baseline ∷ info.candidates) ≡ name ∷ []
      → (update_observed_weights s).0 ≡ done none
      → OneMissing
          (info.baseline ∷ info.candidates)
          name
          (update_observed_weights s).1.instance_.status
  unfolding update_observed_weights ◌>>=◌ gets
  update_observed_weights_total s info name v m h =
      subst
        (λ (x : Option VersionInfo).
          (update_of x s).0 ≡ done none
          → OneMissing (info.baseline ∷ info.candidates) name (update_of x s).1.instance_.status)
        (sym v) (observed_one s info name m) h

  -- Where every version refers to a weight and all are read without an error, the distribution
  -- names the versions in order.
  pub update_observed_weights_names :
      (s : Env) (info : VersionInfo)
      → s.instance_.spec.version_info ≡ some info
      → unreferenced (info.baseline ∷ info.candidates) ≡ []
      → (update_observed_weights s).0 ≡ done none
      → NoneMissing (info.baseline ∷ info.candidates) (update_observed_weights s).1.instance_.status
  unfolding update_observed_weights ◌>>=◌ gets
  update_observed_weights_names s info v m h =
      subst
        (λ (x : Option VersionInfo).
          (update_of x s).0 ≡ done none
          → NoneMissing (info.baseline ∷ info.candidates) (update_of x s).1.instance_.status)
        (sym v) (observed_all s info m) h
