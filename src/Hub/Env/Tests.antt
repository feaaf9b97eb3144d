-- ===== src/Hub/Env/Tests.antt =====
-- Runs of the description of an environment, and the theorem at a concrete one.
use kube_diagnostics_mcp.Common.{
  ◌||◌, sym, ap, ◌∙◌, get, same, ◌≡◌, refl, none, some, List, [], ◌∷◌, Text, txt,
}
use kube_diagnostics_mcp.Hub.Env.{ValueFrom, EnvVar, ConfigData, KeyRef, config_value, describe_env}
use kube_diagnostics_mcp.Hub.Env.Masked.{SameEnv, SameIf, describe_env-masked}
use kube_diagnostics_mcp.Regex.{test}
use kube_diagnostics_mcp.Sanitize.{is_sensitive_key}

abbrev password_var : Text → EnvVar
unfolding txt
password_var v = record { name = txt "DB_PASSWORD"; value = some v; value_from = none }

-- A variable with a sensitive name that takes the value of a key without one.
abbrev app_value : KeyRef
unfolding txt
app_value = record { object = some (txt "app"); key = txt "value" }

abbrev from_app : ValueFrom
from_app = record {
  secret_key_ref = none;
  config_map_key_ref = some app_value;
  field_path = none;
  resource = none;
}

abbrev config_var : EnvVar
unfolding txt
config_var = record { name = txt "API_TOKEN"; value = none; value_from = some from_app }

abbrev one_config : Text → ConfigData
unfolding txt
one_config v = (txt "app", (txt "value", v) ∷ []) ∷ []

abbrev two_vars : Text → List EnvVar
two_vars v = password_var v ∷ config_var ∷ []

value_masked :
    (f : ValueFrom) (ref : KeyRef)
    → some from_app ≡ some f
    → f.config_map_key_ref ≡ some ref
    → SameIf
        (is_sensitive_key (txt "API_TOKEN") || is_sensitive_key ref.key)
        (config_value (one_config (txt "a")) ref)
        (config_value (one_config (txt "b")) ref)
unfolding is_sensitive_key txt test config_value get same
value_masked f ref q k =
    let from : f ≡ from_app = cc in
    let there : some ref ≡ some app_value =
      sym k ∙ ap (λ (g : ValueFrom). g.config_map_key_ref) from in
    let here : ref ≡ app_value = cc in rw here refl

two_vars_same :
    SameEnv
      (one_config (txt "a"))
      (one_config (txt "b"))
      (two_vars (txt "hunter2"))
      (two_vars (txt "letmein"))
unfolding is_sensitive_key txt test
two_vars_same = (
  record { name_same = refl; from_same = refl; value_same = refl; config_same = λ f ref q k. cc },
  (
    record { name_same = refl; from_same = refl; value_same = refl; config_same = value_masked },
    tt,
  ),
)

describe_env-masked_example :
    describe_env (one_config (txt "a")) (two_vars (txt "hunter2"))
    ≡ describe_env (one_config (txt "b")) (two_vars (txt "letmein"))
describe_env-masked_example =
    describe_env-masked (one_config (txt "a")) (one_config (txt "b")) (two_vars (txt "hunter2"))
      (two_vars (txt "letmein")) two_vars_same

masked_run :
    describe_env [] (password_var (txt "hunter2") ∷ [])
    ≡ record { name = txt "DB_PASSWORD"; value = some (txt "[REDACTED]"); from = none } ∷ []
unfolding describe_env txt is_sensitive_key test
masked_run = refl
