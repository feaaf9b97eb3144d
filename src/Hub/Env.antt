-- ===== src/Hub/Env.antt =====
-- src/hub/tools/config.ts: what the tools show of the environment of a container, and what they find
-- in it for a JVM. The objects of the Kubernetes API are records of the fields that are read.
pub mod Masked
mod Tests
use kube_diagnostics_mcp.Common.{
  ℕ, Bool, true, false, ◌||◌, Option, none, some, List, [], ◌∷◌, ◌++◌, map, Text, txt, Map, get,
  or_else, if◌then◌else◌,
}
use kube_diagnostics_mcp.Sanitize.{is_sensitive_key}
use kube_diagnostics_mcp.Sanitize.Rules.{redact_text, redacted}
use kube_diagnostics_mcp.Strings.{slice_to}

-- A key of a Secret or of a ConfigMap.
pub record KeyRef : Type 0 where
  pub object : Option Text
  pub key : Text

pub record ValueFrom : Type 0 where
  pub secret_key_ref : Option KeyRef
  pub config_map_key_ref : Option KeyRef
  pub field_path : Option Text
  pub resource : Option Text

pub record EnvVar : Type 0 where
  pub name : Text
  pub value : Option Text
  pub value_from : Option ValueFrom

pub record EnvRow : Type 0 where
  pub name : Text
  pub value : Option Text
  pub from : Option Text

-- The data of the ConfigMaps, by name and key.
abbrev pub ConfigData : Type 0
ConfigData = Map (Map Text)

-- `cmData.get(ref.name ?? "")?.[ref.key]`
unfoldable pub config_value : ConfigData → KeyRef → Option Text
unfolding get
config_value data_of ref = elim (get (or_else ref.object []) data_of) [
  | none ↦ none
  | some m ↦ get ref.key m
]

-- `${name}` of a name that may be missing
abbrev pub name_text : Option Text → Text
name_text o = or_else o (txt "undefined")

abbrev pub shown : Bool → Option Text → Option Text
shown hide none = none
shown hide (some v) = some (if hide then redacted else slice_to 300 (redact_text v))

abbrev pub ref_text : Text → KeyRef → Text
ref_text kind ref = kind ++ (name_text ref.object ++ b'/' ∷ ref.key)

unfoldable pub literal_row : EnvVar → EnvRow
unfolding is_sensitive_key redact_text
literal_row e = record {
  name = e.name;
  value = shown (is_sensitive_key e.name) e.value;
  from = none;
}

unfoldable pub config_row : ConfigData → Text → KeyRef → EnvRow
unfolding is_sensitive_key redact_text config_value
config_row data_of name ref = record {
  name = name;
  value = shown (is_sensitive_key name || is_sensitive_key ref.key) (config_value data_of ref);
  from = some (ref_text (txt "configmap:") ref);
}

abbrev pub from_row : Text → Text → EnvRow
from_row name from = record { name = name; value = none; from = some from }

abbrev pub resource_row : EnvVar → Option Text → EnvRow
resource_row e none = literal_row e
resource_row e (some r) = from_row e.name (txt "resource:" ++ r)

abbrev pub field_row : EnvVar → ValueFrom → Option Text → EnvRow
field_row e f none = resource_row e f.resource
field_row e f (some path) = from_row e.name (txt "field:" ++ path)

abbrev pub config_or_field : ConfigData → EnvVar → ValueFrom → Option KeyRef → EnvRow
config_or_field data_of e f none = field_row e f f.field_path
config_or_field data_of e f (some ref) = config_row data_of e.name ref

abbrev pub secret_or_other : ConfigData → EnvVar → ValueFrom → Option KeyRef → EnvRow
secret_or_other data_of e f none = config_or_field data_of e f f.config_map_key_ref
secret_or_other data_of e f (some ref) = from_row e.name (ref_text (txt "secret:") ref)

abbrev pub row_of_source : ConfigData → EnvVar → Option ValueFrom → EnvRow
row_of_source data_of e none = literal_row e
row_of_source data_of e (some f) = secret_or_other data_of e f f.secret_key_ref

unfoldable pub describe_var : ConfigData → EnvVar → EnvRow
unfolding literal_row config_row txt
describe_var data_of e = row_of_source data_of e e.value_from

unfoldable pub describe_env : ConfigData → List EnvVar → List EnvRow
unfolding describe_var
describe_env data_of env = map (describe_var data_of) env
