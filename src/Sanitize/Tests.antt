-- ===== src/Sanitize/Tests.antt =====
-- Runs of the scrubbing, and the theorem at a concrete value.
use kube_diagnostics_mcp.Common.{◌≡◌, refl, inl, same, true, false, none, txt}
use kube_diagnostics_mcp.Json.{Value, str, arr, obj, nil, cons, end, field, null}
use kube_diagnostics_mcp.Regex.{test}
use kube_diagnostics_mcp.Sanitize.{is_sensitive_key, sanitize_deep}
use kube_diagnostics_mcp.Sanitize.Deep.{
  credential, equal_values, lists, objects, none_left, item, no_fields, entry, sanitize_deep-hidden,
}
use kube_diagnostics_mcp.Sanitize.Rules.{redacted}

keys_run :
    (is_sensitive_key (txt "DB_PASSWORD") ≡ true)
    × (is_sensitive_key (txt "apiKey") ≡ true)
    × (is_sensitive_key (txt "token_file") ≡ false)
    × (is_sensitive_key (txt "monkey") ≡ false)
unfolding is_sensitive_key test txt
keys_run = (refl, refl, refl, refl)

abbrev settings : Value
unfolding txt
settings =
    obj
      (field (txt "password") (arr (cons (str (txt "hunter2")) nil)) (field (txt "note") null end))

settings_run :
    sanitize_deep settings none
    ≡ obj (field (txt "password") (arr (cons (str redacted) nil)) (field (txt "note") null end))
unfolding sanitize_deep is_sensitive_key test txt
settings_run = refl

abbrev other_settings : Value
unfolding txt
other_settings =
    obj (
      field (txt "password") (arr (cons (str (txt "swordfish")) nil)) (field (txt "note") null end))

sanitize_deep-hidden_example : sanitize_deep settings none ≡ sanitize_deep other_settings none
unfolding txt
sanitize_deep-hidden_example = sanitize_deep-hidden none settings other_settings (
    objects (entry (lists (item (credential (inl refl)) none_left)) (entry equal_values no_fields)))

-- The entry of the key `__proto__` is dropped.
proto_run :
    sanitize_deep (obj (field (txt "__proto__") null (field (txt "note") null end))) none
    ≡ obj (field (txt "note") null end)
unfolding sanitize_deep same txt
proto_run = refl
