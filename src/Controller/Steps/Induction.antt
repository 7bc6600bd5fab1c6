-- ===== src/Controller/Steps/Induction.antt =====
-- Invariants by induction on the steps of a request.
use etc.Controller.Effects.{Env}
use etc.Controller.Steps.{Step, Reach, here, next}

-- An invariant of every step is one of every request.
module _ (P : Env → Type 0) (keep : (s t : Env) → Step s t → P s → P t) where
  pub Reach-induction : {s t : Env} → Reach s t → P s → P t
  Reach-induction here h = h
  Reach-induction (next {t = t} {u = u} r st) h = keep t u st (Reach-induction r h)
