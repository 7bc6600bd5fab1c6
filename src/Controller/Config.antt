-- ===== src/Controller/Config.antt =====
-- controllers/config.go: the configuration of the controller. The environment is read by the package
-- envconfig, whose answer is a parameter.
use etc.Prelude.{Option, none, some, String, if◌then◌else◌, ◌==◌, refl, ◌≡◌}
use Prim.Native.Char.{code}
use etc.Prelude.Text.{◌+++◌}
use etc.Controller.Effects.{Iter8Config}

abbrev pub new_iter8_config : Iter8Config
new_iter8_config = record { endpoint = ""; namespace = ""; handlers_dir = "" }

unfoldable pub with_endpoint : String → Iter8Config → Iter8Config
with_endpoint endpoint b = record b { endpoint = endpoint }

unfoldable pub with_namespace : String → Iter8Config → Iter8Config
with_namespace namespace b = record b { namespace = namespace }

unfoldable pub with_handlers_dir : String → Iter8Config → Iter8Config
with_handlers_dir handlers_dir b = record b { handlers_dir = handlers_dir }

-- What stands after a prefix.
unfoldable pub after_prefix : String → String → Option String
after_prefix String.[] s = some s
after_prefix (String.◌∷◌ c p) String.[] = none
after_prefix (String.◌∷◌ c p) (String.◌∷◌ d s) =
    let rest = after_prefix p s in if code c == code d then rest else none

-- strings.Replace(s, old, new, 1), for a text `old` that is not empty.
abbrev replaced_or : String → String → Option String → String
replaced_or new kept none = kept
replaced_or new kept (some rest) = new +++ rest

unfoldable pub replace_first : String → String → String → String
unfolding after_prefix
replace_first old new String.[] = ""
replace_first old new (String.◌∷◌ c s) =
    let rest = replace_first old new s in
    replaced_or new (String.◌∷◌ c rest) (after_prefix old (String.◌∷◌ c s))

abbrev with_replaced_namespace : Iter8Config → Iter8Config
with_replaced_namespace cfg = record cfg {
  endpoint = replace_first "ITER8_NAMESPACE" cfg.namespace cfg.endpoint;
}

-- The configuration and the error, from those of envconfig.Process.
unfoldable pub read_config : Option String × Iter8Config → Option String × Iter8Config
unfolding replace_first
read_config (some text, cfg) = (some text, cfg)
read_config (none, cfg) = (none, with_replaced_namespace cfg)

read_config_test :
    (read_config (
      none,
      record {
        endpoint = "http://analytics.ITER8_NAMESPACE:8080";
        namespace = "iter8";
        handlers_dir = "/handlers";
      },
    )).1.endpoint
    ≡ "http://analytics.iter8:8080"
unfolding read_config
read_config_test = refl
