-- ===== src/Hub/Env/Masked.antt =====
-- What the description of an environment does not depend on.
use kube_diagnostics_mcp.Common.{
  ◌≡◌, refl, ap, ◌∙◌, Bool, true, false, ◌||◌, Option, none, some, is_some, List, [], ◌∷◌, ◌++◌,
  txt, arith, Text,
}
use kube_diagnostics_mcp.Hub.Env.{
  KeyRef, ValueFrom, EnvVar, ConfigData, config_value, shown, literal_row, config_row, describe_var,
  describe_env, row_of_source, secret_or_other, config_or_field, field_row, resource_row, from_row,
  ref_text,
}
use kube_diagnostics_mcp.Sanitize.{is_sensitive_key}

-- The same value, or two values that are both there.
abbrev pub SameIf : Bool → Option Text → Option Text → Type 0
SameIf true v w = is_some v ≡ is_some w
SameIf false v w = v ≡ w

-- Two variables, read beside ConfigMaps of their own, that differ at most in a value under a
-- sensitive name or a sensitive key: a literal one, or one of a ConfigMap.
pub record SameButSecret (d d' : ConfigData) (e e' : EnvVar) : Type 0 where
  pub name_same : e.name ≡ e'.name
  pub from_same : e.value_from ≡ e'.value_from
  pub value_same : SameIf (is_sensitive_key e.name) e.value e'.value
  pub config_same :
      (f : ValueFrom) (ref : KeyRef)
      → e.value_from ≡ some f
      → f.config_map_key_ref ≡ some ref
      → SameIf
          (is_sensitive_key e.name || is_sensitive_key ref.key)
          (config_value d ref)
          (config_value d' ref)

abbrev pub SameEnv : ConfigData → ConfigData → List EnvVar → List EnvVar → Type 0
SameEnv d d' [] [] = Unit
SameEnv d d' (e ∷ l) (e' ∷ l') = SameButSecret d d' e e' × SameEnv d d' l l'
SameEnv d d' _ _ = ⊥

shown-SameIf : (b : Bool) (v w : Option Text) → SameIf b v w → shown b v ≡ shown b w
shown-SameIf true none none h = refl
shown-SameIf true (some v) (some w) h = refl
shown-SameIf true none (some w) h = absurd (ground arith)
shown-SameIf true (some v) none h = absurd (ground arith)
shown-SameIf false v w h = ap (shown false) h

module _ (d d' : ConfigData) where
  literal_row-same : (e e' : EnvVar) → SameButSecret d d' e e' → literal_row e ≡ literal_row e'
  unfolding literal_row
  literal_row-same e e' s =
      let values =
        shown-SameIf (is_sensitive_key e.name) e.value e'.value s.value_same
        ∙ ap (λ (n : Text). shown (is_sensitive_key n) e'.value) s.name_same in
      λ i. record { name = s.name_same i; value = values i; from = none }

  config_row-same :
      (name : Text) (ref : KeyRef)
      → SameIf
          (is_sensitive_key name || is_sensitive_key ref.key)
          (config_value d ref)
          (config_value d' ref)
      → config_row d name ref ≡ config_row d' name ref
  unfolding config_row
  config_row-same name ref h =
      let values =
        shown-SameIf (is_sensitive_key name || is_sensitive_key ref.key) (config_value d ref)
          (config_value d' ref) h in
      λ i. record { name = name; value = values i; from = some (ref_text (txt "configmap:") ref) }

  describe_var-same :
      (e e' : EnvVar) → SameButSecret d d' e e' → describe_var d e ≡ describe_var d' e'
  unfolding describe_var
  describe_var-same e e' s = sources e.value_from refl ∙ ap (row_of_source d' e') s.from_same
    where
      literal : literal_row e ≡ literal_row e'
      literal = literal_row-same e e' s

      resources : (o : Option Text) → resource_row e o ≡ resource_row e' o
      resources none = literal
      resources (some r) = ap (λ (n : Text). from_row n (txt "resource:" ++ r)) s.name_same

      fields : (f : ValueFrom) (o : Option Text) → field_row e f o ≡ field_row e' f o
      fields f none = resources f.resource
      fields f (some p) = ap (λ (n : Text). from_row n (txt "field:" ++ p)) s.name_same

      configs :
          (f : ValueFrom) (o : Option KeyRef)
          → e.value_from ≡ some f
          → f.config_map_key_ref ≡ o
          → config_or_field d e f o ≡ config_or_field d' e' f o
      configs f none q k = fields f f.field_path
      configs f (some ref) q k =
          config_row-same e.name ref (s.config_same f ref q k)
          ∙ ap (λ (n : Text). config_row d' n ref) s.name_same

      secrets :
          (f : ValueFrom) (o : Option KeyRef)
          → e.value_from ≡ some f
          → secret_or_other d e f o ≡ secret_or_other d' e' f o
      secrets f none q = configs f f.config_map_key_ref q refl
      secrets f (some ref) q =
          ap (λ (n : Text). from_row n (ref_text (txt "secret:") ref)) s.name_same

      sources :
          (o : Option ValueFrom) → e.value_from ≡ o → row_of_source d e o ≡ row_of_source d' e' o
      sources none q = literal
      sources (some f) q = secrets f f.secret_key_ref q

  -- Environments and ConfigMaps that differ only in the values of variables with a sensitive name or
  -- of keys with a sensitive name, literal or taken from a ConfigMap, are described alike: no such
  -- value is shown.
  pub describe_env-masked :
      (env env' : List EnvVar) → SameEnv d d' env env' → describe_env d env ≡ describe_env d' env'
  unfolding describe_env
  describe_env-masked [] [] s = refl
  describe_env-masked (e ∷ l) (e' ∷ l') (s, h) =
      λ i. describe_var-same e e' s i ∷ describe_env-masked l l' h i
  describe_env-masked [] (e ∷ l) s = absurd s
  describe_env-masked (e ∷ l) [] s = absurd s
