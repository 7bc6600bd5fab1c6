-- ===== src/Api/MetricBuilder.antt =====
-- api/v2alpha2/metric_builder.go: metrics put together step by step. A builder is the metric.
use etc.Prelude.{Option, none, some, List, [], String}
use etc.Api.Types.{NamedValue, MetricType, NamedLevel, MetricSpec, Metric}

-- The zero value of the struct.
abbrev pub empty_metric_spec : MetricSpec
empty_metric_spec = record {
  params = [];
  description = none;
  units = none;
  kind = none;
  sample_size = none;
  auth_type = none;
  method = none;
  body = none;
  provider = none;
  jq_expression = none;
  secret = none;
  header_templates = [];
  url_template = none;
  mock = [];
}

unfoldable pub new_metric : String → String → Metric
new_metric name namespace = record { name = name; namespace = namespace; spec = empty_metric_spec }

abbrev on_metric : (MetricSpec → MetricSpec) → Metric → Metric
on_metric f b = record b { spec = f b.spec }

unfoldable pub with_description : String → Metric → Metric
with_description description = on_metric (λ s. record s { description = some description })

unfoldable pub with_params : List NamedValue → Metric → Metric
with_params params = on_metric (λ s. record s { params = params })

unfoldable pub with_units : String → Metric → Metric
with_units units = on_metric (λ s. record s { units = some units })

unfoldable pub with_type : MetricType → Metric → Metric
with_type t = on_metric (λ s. record s { kind = some t })

unfoldable pub with_provider : String → Metric → Metric
with_provider provider = on_metric (λ s. record s { provider = some provider })

unfoldable pub with_method : String → Metric → Metric
with_method method = on_metric (λ s. record s { method = some method })

unfoldable pub with_auth_type : String → Metric → Metric
with_auth_type auth_type = on_metric (λ s. record s { auth_type = some auth_type })

unfoldable pub with_body : String → Metric → Metric
with_body body = on_metric (λ s. record s { body = some body })

unfoldable pub with_sample_size : String → Metric → Metric
with_sample_size name = on_metric (λ s. record s { sample_size = some name })

unfoldable pub with_secret : String → Metric → Metric
with_secret name = on_metric (λ s. record s { secret = some name })

unfoldable pub with_header_templates : List NamedValue → Metric → Metric
with_header_templates templates = on_metric (λ s. record s { header_templates = templates })

-- These two take a pointer, which may be nil.
unfoldable pub with_url_template : Option String → Metric → Metric
with_url_template url_template = on_metric (λ s. record s { url_template = url_template })

unfoldable pub with_jq_expression : Option String → Metric → Metric
with_jq_expression jq_expression = on_metric (λ s. record s { jq_expression = jq_expression })

unfoldable pub with_mock : List NamedLevel → Metric → Metric
with_mock mock = on_metric (λ s. record s { mock = mock })
