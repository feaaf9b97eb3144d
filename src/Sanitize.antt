-- ===== src/Sanitize.antt =====
-- src/security/sanitize.ts: the scrubbing of output. `rules` holds the source's twelve patterns,
-- term for term.
pub mod Rules
pub mod Deep
mod Tests
use Rules.{redact_text, redacted}
use kube_diagnostics_mcp.Common.{
  ℕ, Bool, true, false, not, ◌&&◌, Option, none, some, Text, txt, same, if◌then◌else◌, ◌||◌, ◌==◌,
  [], ◌∷◌,
}
use kube_diagnostics_mcp.Json.{
  Value, undefined, null, bool, num, str, arr, obj, Items, nil, cons, Fields, end, field,
}
use kube_diagnostics_mcp.Regex.{
  Regex, empty, char, seq, alt, start, finish, group, opt, lit_i, any_of, seqs, test,
}

abbrev pub key_separator : ℕ → Bool
key_separator c = c == b'_' || c == b'-' || c == b'.'

abbrev pub dash_or_underscore : Regex
dash_or_underscore = opt (char (λ c. c == b'_' || c == b'-'))

-- Two words with a dash, an underscore or nothing between them.
abbrev pub two_words : Text → Text → Regex
two_words a b = seqs (lit_i a ∷ dash_or_underscore ∷ lit_i b ∷ [])

unfoldable pub sensitive_key_pattern : Regex
unfolding txt
sensitive_key_pattern = seqs (
    group 1 (alt start (char key_separator))
    ∷ group 2 (
        any_of (two_words (txt "api") (txt "key")) (
          two_words (txt "access") (txt "token")
          ∷ two_words (txt "auth") (txt "token")
          ∷ lit_i (txt "secret")
          ∷ lit_i (txt "password")
          ∷ lit_i (txt "passwd")
          ∷ lit_i (txt "pwd")
          ∷ two_words (txt "client") (txt "secret")
          ∷ lit_i (txt "token")
          ∷ lit_i (txt "authorization")
          ∷ seq (lit_i (txt "credential")) (opt (lit_i (txt "s")))
          ∷ two_words (txt "connection") (txt "string")
          ∷ two_words (txt "database") (txt "url")
          ∷ two_words (txt "jdbc") (txt "url")
          ∷ two_words (txt "private") (txt "key")
          ∷ seqs (
              lit_i (txt "cert")
              ∷ opt (group 3 (lit_i (txt "ificate")))
              ∷ dash_or_underscore
              ∷ lit_i (txt "key")
              ∷ [])
          ∷ []))
    ∷ group 4 (alt finish (char key_separator))
    ∷ [])

-- Keys that name a secret's place, not a secret.
unfoldable pub reference_key_suffix : Regex
unfolding txt
reference_key_suffix = seqs (
    opt (group 1 (char (λ c. c == b'_' || c == b'-')))
    ∷ group 2 (
        any_of (lit_i (txt "file")) (
          lit_i (txt "path")
          ∷ lit_i (txt "dir")
          ∷ lit_i (txt "mount")
          ∷ lit_i (txt "name")
          ∷ lit_i (txt "ref")
          ∷ lit_i (txt "enabled")
          ∷ lit_i (txt "header")
          ∷ lit_i (txt "prefix")
          ∷ lit_i (txt "length")
          ∷ lit_i (txt "ttl")
          ∷ lit_i (txt "expiry")
          ∷ lit_i (txt "expires")
          ∷ lit_i (txt "rotation")
          ∷ []))
    ∷ finish
    ∷ [])

unfoldable pub is_sensitive_key : Text → Bool
unfolding sensitive_key_pattern reference_key_suffix
is_sensitive_key key = test sensitive_key_pattern key && not (test reference_key_suffix key)

-- `keyHint && isSensitiveKey(keyHint)`; an empty key is no hint
abbrev pub hides : Option Text → Bool
hides none = false
hides (some []) = false
hides (some (c ∷ k)) = is_sensitive_key (c ∷ k)

-- `sanitizeDeep(value, keyHint)`, with its loops over the items and over the entries. Assigning to
-- the key `__proto__` of an object makes no entry.
unfoldable mutual
  unfolding same txt

  pub sanitize_deep : Value → Option Text → Value
  sanitize_deep (str s) hint = str (if hides hint then redacted else redact_text s)
  sanitize_deep (arr xs) hint = arr (sanitize_items xs hint)
  sanitize_deep (obj fs) hint = obj (sanitize_fields fs)
  sanitize_deep undefined hint = undefined
  sanitize_deep null hint = null
  sanitize_deep (bool b) hint = bool b
  sanitize_deep (num n) hint = num n

  pub sanitize_items : Items → Option Text → Items
  sanitize_items nil hint = nil
  sanitize_items (cons v xs) hint = cons (sanitize_deep v hint) (sanitize_items xs hint)

  pub sanitize_fields : Fields → Fields
  sanitize_fields end = end
  sanitize_fields (field k v fs) =
      let w = sanitize_deep v (some k) in
      let rest = sanitize_fields fs in if same k (txt "__proto__") then rest else field k w rest
