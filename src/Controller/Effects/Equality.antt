-- ===== src/Controller/Effects/Equality.antt =====
-- reflect.DeepEqual on two statuses.
use etc.Prelude.{
  ◌≡◌, refl, Bool, true, false, String, ℕ_discrete, eq_iff, str_eq, Bool-cases, inl, inr, arith,
}
use etc.Api.Types.{ExperimentStatus}

String-discrete : Discrete String
String-discrete s t = elim (Bool-cases (str_eq s t)) [
  | inl e ↦ yes ((eq_iff s t).0 e)
  | inr e ↦ no (λ p. ground (arith, (eq_iff s t).1 p))
]

ExperimentStatus-discrete : Discrete ExperimentStatus
ExperimentStatus-discrete = hlevel (ℕ_discrete, String-discrete)

-- A nil slice and an empty one are one list here; DeepEqual tells them apart.
unfoldable pub deep_equal : ExperimentStatus → ExperimentStatus → Bool
unfolding ExperimentStatus-discrete String-discrete
deep_equal s t = elim (ExperimentStatus-discrete s t) [ yes e ↦ true | no e ↦ false ]

pub deep_equal_refl : (s : ExperimentStatus) → deep_equal s s ≡ true
unfolding deep_equal
deep_equal_refl s =
    elim (ExperimentStatus-discrete s s) as (λ d. (elim d [ yes e ↦ true | no e ↦ false ]) ≡ true) [
      | yes e ↦ refl
      | no e ↦ absurd (e refl)
    ]

pub eq_of_deep_equal : (s t : ExperimentStatus) → deep_equal s t ≡ true → s ≡ t
unfolding deep_equal
eq_of_deep_equal s t =
    elim (ExperimentStatus-discrete s t)
      as (λ d. (elim d [ yes e ↦ true | no e ↦ false ]) ≡ true → s ≡ t) [
        | yes e ↦ λ h. e
        | no e ↦ λ h. cc
      ]
