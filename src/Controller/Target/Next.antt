-- ===== src/Controller/Target/Next.antt =====
-- Which experiment is released next: controllers/target.go, nextWaitingExperiment.
use etc.Prelude.{
  ◌≡◌, ◌≤◌, ◌<◌, refl, sym, ◌∙◌, ap, true, false, Option, none, some, List, [], ◌∷◌, String, All,
  Any, arith, ◌⊎◌, inl, inr, Bool-cases,
}
use etc.Api.Constants.{target_acquired}
use etc.Api.Types.{Time, Experiment}
use etc.Api.Status.{is_true}
use etc.Controller.Effects.{
  list_experiments, Cluster, HasTimeOrder, Env, done, ◌>>=◌, gets, ask, pure,
}
use etc.Controller.Target.{
  condition_of, with_condition, is_instance, next_waiting, contenders, result_list,
  active_contenders_for_target, next_waiting_experiment,
}

-- No other experiment of the list has the target.
abbrev pub IsFree : Time → Option Experiment → List Experiment → Type 0
IsFree now i es =
    All (λ f. is_instance i f ≡ false → is_true (condition_of now target_acquired f) ≡ false) es

-- No other experiment of the list was initialized before `t`.
abbrev pub NoneBefore : Option Experiment → Time → List Experiment → Type 0
NoneBefore i t es =
    All (λ f. is_instance i f ≡ false → (x : Time) → f.status.init_time ≡ some x → t ≤ x) es

-- `e` is the first experiment of the list, but for the instance, to be initialized, and was so
-- before `t`. (Its TargetAcquired condition was looked up, which adds it where it is missing.)
pub record IsNext (now t : Time) (i : Option Experiment) (es : List Experiment) (e : Experiment)
    : Type 0 where
  pub chosen : Experiment
  pub listed_ : Any (λ f. f ≡ chosen) es
  pub same : e ≡ with_condition now target_acquired chosen
  pub distinct : is_instance i chosen ≡ false
  pub time : Time
  pub init : chosen.status.init_time ≡ some time
  pub sooner : time < t
  pub first : NoneBefore i time es

module _ ⦃cl : Cluster⦄ (order : HasTimeOrder cl) where
  next_nil :
      (now : Time) (i : Option Experiment) (t : Option Time) (n : Option Experiment)
      → next_waiting now i t n [] ≡ n
  unfolding next_waiting
  next_nil now i t n = refl

  next_same :
      (now : Time) (i : Option Experiment) (t : Option Time) (n : Option Experiment)
      (f : Experiment) (es : List Experiment)
      → is_instance i f ≡ true
      → next_waiting now i t n (f ∷ es) ≡ next_waiting now i t n es
  unfolding next_waiting
  next_same now i t n f es h = rw h

  next_owned :
      (now : Time) (i : Option Experiment) (t : Option Time) (n : Option Experiment)
      (f : Experiment) (es : List Experiment)
      → is_instance i f ≡ false
      → is_true (condition_of now target_acquired f) ≡ true
      → next_waiting now i t n (f ∷ es) ≡ none
  unfolding next_waiting
  next_owned now i t n f es h k = rw (h, k)

  next_sooner :
      (now : Time) (i : Option Experiment) (t : Option Time) (n : Option Experiment)
      (f : Experiment) (es : List Experiment)
      → is_instance i f ≡ false
      → is_true (condition_of now target_acquired f) ≡ false
      → cl.before f.status.init_time t ≡ true
      → next_waiting now i t n (f ∷ es)
        ≡ next_waiting now i f.status.init_time (some (with_condition now target_acquired f)) es
  unfolding next_waiting
  next_sooner now i t n f es h k b = rw (h, k, b)

  next_later :
      (now : Time) (i : Option Experiment) (t : Option Time) (n : Option Experiment)
      (f : Experiment) (es : List Experiment)
      → is_instance i f ≡ false
      → is_true (condition_of now target_acquired f) ≡ false
      → cl.before f.status.init_time t ≡ false
      → next_waiting now i t n (f ∷ es) ≡ next_waiting now i t n es
  unfolding next_waiting
  next_later now i t n f es h k b = rw (h, k, b)

abbrev Found :
    Time → Time → Option Experiment → Option Experiment → List Experiment → Experiment → Type 0
Found now t i n es e = ((n ≡ some e) × NoneBefore i t es) ⊎ IsNext now t i es e

extend :
    (now t : Time) (i n : Option Experiment) (f : Experiment) (es : List Experiment)
    (e : Experiment)
    → (is_instance i f ≡ false → (x : Time) → f.status.init_time ≡ some x → t ≤ x)
    → Found now t i n es e
    → Found now t i n (f ∷ es) e
extend now t i n f es e head (inl (p, b)) = inl (p, (head, b))
extend now t i n f es e head (inr k) = inr (record {
  chosen = k.chosen;
  listed_ = inr k.listed_;
  same = k.same;
  distinct = k.distinct;
  time = k.time;
  init = k.init;
  sooner = k.sooner;
  first = ((λ d x q. omega (arith, k.sooner, head d x q)), k.first);
})

-- The experiment `f` is the earliest so far, and then what the rest of the list says.
advance :
    (now t w : Time) (i n : Option Experiment) (f : Experiment) (es : List Experiment)
    (e : Experiment)
    → is_instance i f ≡ false
    → f.status.init_time ≡ some w
    → w < t
    → Found now w i (some (with_condition now target_acquired f)) es e
    → Found now t i n (f ∷ es) e
advance now t w i n f es e d init less (inl (p, b)) = inr (record {
  chosen = f;
  listed_ = inl refl;
  same = cc;
  distinct = d;
  time = w;
  init = init;
  sooner = less;
  first = ((λ d' x q. ground (arith, init, q)), b);
})
advance now t w i n f es e d init less (inr k) = inr (record {
  chosen = k.chosen;
  listed_ = inr k.listed_;
  same = k.same;
  distinct = k.distinct;
  time = k.time;
  init = k.init;
  sooner = omega (arith, k.sooner, less);
  first = ((λ d' x q. ground (arith, init, q, k.sooner)), k.first);
})

module _ ⦃cl : Cluster⦄ (order : HasTimeOrder cl) where
  ahead :
      (o : Option Time) (t : Time)
      → cl.before o (some t) ≡ true
      → (w : Time) × (o ≡ some w) × (w < t)
  ahead none t h = absurd (cc (order.none_before (some t)))
  ahead (some w) t h = (w, refl, ground (arith, sym (order.before_some w t) ∙ h))

  behind : (o : Option Time) (t x : Time) → cl.before o (some t) ≡ false → o ≡ some x → t ≤ x
  behind none t x h e = absurd (cc)
  behind (some w) t x h e = ground (arith, sym (order.before_some w t) ∙ h)

  next_sound :
      (now t : Time) (i n : Option Experiment) (es : List Experiment) (e : Experiment)
      → next_waiting now i (some t) n es ≡ some e
      → IsFree now i es × Found now t i n es e
  next_sound now t i n [] e h = (tt, inl (sym (next_nil order now i (some t) n) ∙ h, tt))
  next_sound now t i n (f ∷ es) e h = elim (Bool-cases (is_instance i f)) [
    | inl same ↦
        let (free, found) =
          next_sound now t i n es e (sym (next_same order now i (some t) n f es same) ∙ h) in
        (((λ d. cc), free), extend now t i n f es e (λ d. cc) found)
    | inr other ↦ elim (Bool-cases (is_true (condition_of now target_acquired f))) [
      | inl owner ↦ absurd (cc (next_owned order now i (some t) n f es other owner))
      | inr mine ↦ elim (Bool-cases (cl.before f.status.init_time (some t))) [
        | inl b ↦
            let (w, init, less) = ahead f.status.init_time t b in
            let h' = sym (next_sooner order now i (some t) n f es other mine b) ∙ h in
            let (free, found) =
              next_sound now w i (some (with_condition now target_acquired f)) es e (
                ap (λ o. next_waiting now i o (some (with_condition now target_acquired f)) es)
                  (sym init)
                ∙ h') in
            (((λ d. mine), free), advance now t w i n f es e other init less found)
        | inr b ↦
            let (free, found) =
              next_sound now t i n es e
                (sym (next_later order now i (some t) n f es other mine b) ∙ h) in
            (
              ((λ d. mine), free),
              extend now t i n f es e (λ d x q. behind f.status.init_time t x b q) found,
            )
      ]
    ]
  ]

  Found-IsNext :
      (now t : Time) (i : Option Experiment) (es : List Experiment) (e : Experiment)
      → Found now t i none es e
      → IsNext now t i es e
  Found-IsNext now t i es e (inl p) = absurd (cc (p.0))
  Found-IsNext now t i es e (inr k) = k

  -- With the order of times, the search for the next experiment for a target gives one only if,
  -- among the experiments for the target that it listed and that are not completed, none but the
  -- instance has the target; and gives the one of them, but for the instance, that was initialized
  -- first, before the present time.
  pub next_waiting_experiment-IsNext :
      (target : String) (i : Option Experiment) (s : Env) (e : Experiment)
      → (next_waiting_experiment target i s).0 ≡ done (some e)
      → let now = cl.now (list_experiments ∷ s.trace) in
        let es = contenders (cl.now s.trace) target (result_list (cl.experiments s.trace)) in
        IsFree now i es × IsNext now now i es e
  unfolding next_waiting_experiment active_contenders_for_target ◌>>=◌ gets ask pure
  next_waiting_experiment-IsNext target i s e h =
      let now = cl.now (list_experiments ∷ s.trace) in
      let es = contenders (cl.now s.trace) target (result_list (cl.experiments s.trace)) in
      let (free, found) = next_sound now now i none es e (cc) in
      (free, Found-IsNext now now i es e found)
