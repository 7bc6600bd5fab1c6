-- ===== src/Controller/Analytics.antt =====
-- controllers/client.go: the call of the analytics service.
use etc.Prelude.{some, String, if◌then◌else◌}
use etc.Prelude.Int.{pos, ltb_ℤ}
use etc.Api.Types.{Time, Analysis, AnalysisMetaData, Experiment}
use etc.Controller.Effects.{post, Result, ok, err, Cluster, M, ◌>>=◌, pure, gets, deref, ask}

abbrev stamp : String → Time → AnalysisMetaData → AnalysisMetaData
stamp endpoint now m = record m { provenance = endpoint; timestamp = now }

module _ ⦃cl : Cluster⦄ where
  -- Where it was found, and when, is set in four sections; one that is missing is a nil pointer.
  unfoldable pub stamp_analysis : String → Analysis → M Analysis
  stamp_analysis endpoint a = do
    metrics ← deref a.aggregated_metrics
    assessments ← deref a.version_assessments
    winner ← deref a.winner_assessment
    weights ← deref a.weights
    now ← gets (λ s. cl.now s.trace)
    pure (record a {
      aggregated_metrics = some (record metrics { meta = stamp endpoint now metrics.meta });
      version_assessments =
          some (record assessments { meta = stamp endpoint now assessments.meta });
      winner_assessment = some (record winner { meta = stamp endpoint now winner.meta });
      weights = some (record weights { meta = stamp endpoint now weights.meta });
    })

  unfoldable pub invoke : String → Experiment → M (Result Analysis)
  invoke endpoint payload = do
    answer ← ask (post endpoint payload) (λ t. cl.posted t endpoint payload)
    if ltb_ℤ answer.1 (pos 400)
        then elim (cl.decode_analysis answer.0) [
          | err e ↦ pure (err e)
          | ok a ↦ stamp_analysis endpoint a >>= λ a'. pure (ok a')
        ]
        else pure (err answer.0)
