-- ===== src/Controller/Recorder/Once.antt =====
-- Which events are sent: controllers/recorder.go, recordEvent.
use etc.Prelude.{
  ◌≡◌, refl, ◌∙◌, ap, Bool, true, false, not, ◌||◌, none, some, ◌∷◌, String, if◌then◌else◌,
}
use etc.Api.Constants.{ExperimentConditionType, ConditionStatus, status_eq}
use etc.Api.Types.{ExperimentStatus}
use etc.Api.Status.{mark_condition, find_condition, differs}
use etc.Api.Status.Laws.{mark_condition_changed, mark_condition_again}
use etc.Controller.Effects.{event, Cluster, Env, ◌>>=◌, pure, gets, ask, on_status}
use etc.Controller.Recorder.{record_event}

-- Does the status say anything else, or nothing, on the condition?
abbrev pub is_news :
    ExperimentConditionType → ConditionStatus → String → String → ExperimentStatus → Bool
is_news kind status reason message s = elim (find_condition kind s.conditions) [
  | none ↦ true
  | some c ↦ not (status_eq status c.status) || differs c.reason reason || differs c.message message
]

module _ ⦃cl : Cluster⦄ (kind : ExperimentConditionType) (status : ConditionStatus)
    (reason message : String) where
  recorded_trace :
      (s : Env) (b : Bool)
      → (mark_condition (cl.now s.trace) kind status reason message s.instance_.status).1 ≡ b
      → ((record_event kind status reason message s).1.trace
          ≡ (if b then event reason message ∷ s.trace else s.trace))
        × ((record_event kind status reason message s).1.instance_.status
            ≡ (mark_condition (cl.now s.trace) kind status reason message s.instance_.status).0)
  unfolding record_event ◌>>=◌ gets on_status ask pure
  recorded_trace s true e = rw e (refl, refl)
  recorded_trace s false e = rw e (refl, refl)

  -- A record sends one event where the condition was missing or had another status, reason or
  -- message, and none where it said the same.
  pub record_event-news :
      (s : Env)
      → (record_event kind status reason message s).1.trace ≡ (
          if is_news kind status reason message s.instance_.status
          then event reason message ∷ s.trace
          else s.trace)
  record_event-news s =
      (recorded_trace s (is_news kind status reason message s.instance_.status)
        (mark_condition_changed (cl.now s.trace) kind status reason message s.instance_.status)).0

  -- A record that is made again, with the same type, status, reason and message, sends no event.
  pub record_event_again :
      (s : Env)
      → (record_event kind status reason message
          (record_event kind status reason message s).1).1.trace
        ≡ (record_event kind status reason message s).1.trace
  record_event_again s =
      let t = (record_event kind status reason message s).1 in
      let e = (recorded_trace s _ refl).1 in
      (recorded_trace t false (
        ap (λ x. (mark_condition (cl.now t.trace) kind status reason message x).1) e
        ∙ mark_condition_again (cl.now s.trace) (cl.now t.trace) kind status reason message
            s.instance_.status)).0
