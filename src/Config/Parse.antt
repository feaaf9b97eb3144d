-- ===== src/Config/Parse.antt =====
-- src/config.ts: the readers of one setting.
use kube_diagnostics_mcp.Common.{
  ℕ, Bool, true, false, not, Option, none, some, List, [], ◌∷◌, ◌++◌, map, filter, Text, txt, get,
  includes, is_empty, ◌==◌, if◌then◌else◌, or_else, Result, ok, err, digits_value,
}
use kube_diagnostics_mcp.Config.{
  ConfigError, not_positive_int, not_boolean, file_empty, file_unreadable, Env,
}
use kube_diagnostics_mcp.Regex.Classes.{is_digit, is_space}
use kube_diagnostics_mcp.Strings.{trim, lower_case, split}

digit_prefix : Text → Text
digit_prefix [] = []
digit_prefix (c ∷ s) = if is_digit c then c ∷ digit_prefix s else []

skip_space : Text → Text
skip_space [] = []
skip_space (c ∷ s) = if is_space c then skip_space s else c ∷ s

-- The value of a run of digits, none if there are none.
abbrev pub prefix_value : Text → Option ℕ
prefix_value [] = none
prefix_value (c ∷ s) = some (digits_value 0 (c ∷ s))

skip_plus : Text → Text
skip_plus [] = []
skip_plus (c ∷ s) = if c == b'+' then s else c ∷ s

-- `Number.parseInt(raw, 10)` where it is at least 0, none for NaN and for what has a minus sign: it
-- skips white space, takes a sign and the digits that follow, and ignores the rest.
unfoldable pub parse_int : Text → Option ℕ
unfolding digit_prefix skip_space skip_plus digits_value
parse_int raw = prefix_value (digit_prefix (skip_plus (skip_space raw)))

abbrev pub positive : ConfigError → Option ℕ → Result ConfigError ℕ
positive e none = err e
positive e (some n) = if n == 0 then err e else ok n

unfoldable pub parse_positive_int : Text → Option Text → ℕ → Result ConfigError ℕ
unfolding parse_int trim
parse_positive_int name none fallback = ok fallback
parse_positive_int name (some raw) fallback =
    if is_empty (trim raw)
    then ok fallback
    else positive (not_positive_int name raw) (parse_int raw)

abbrev pub true_words : List Text
true_words = txt "1" ∷ txt "true" ∷ txt "yes" ∷ txt "on" ∷ []

abbrev pub false_words : List Text
false_words = txt "0" ∷ txt "false" ∷ txt "no" ∷ txt "off" ∷ []

unfoldable pub parse_bool : Option Text → Bool → Result ConfigError Bool
unfolding trim includes txt
parse_bool none fallback = ok fallback
parse_bool (some raw) fallback =
    let v = lower_case (trim raw) in
    if is_empty (trim raw)
    then ok fallback
    else if includes v true_words
    then ok true
    else if includes v false_words
    then ok false
    else err (not_boolean raw)

unfoldable pub parse_list : Option Text → List Text
unfolding split trim filter
parse_list raw = filter (λ s. not (is_empty s)) (map trim (split b',' (or_else raw [])))

abbrev pub non_empty : Text → Option Text
non_empty [] = none
non_empty (c ∷ s) = some (c ∷ s)

unfoldable pub optional : Option Text → Option Text
unfolding trim
optional none = none
optional (some raw) = non_empty (trim raw)

-- `env[NAME]`
abbrev pub var : Env → Text → Option Text
var env name = get name env.vars

-- The outcome of reading the file that NAME_FILE names.
unfoldable pub secret_of_file : Text → Text → Result Text Text → Result ConfigError (Option Text)
unfolding trim
secret_of_file name file (err reason) = err (file_unreadable name file reason)
secret_of_file name file (ok content) =
    if is_empty (trim content) then err (file_empty name file) else ok (some (trim content))

unfoldable pub secret_from : Env → Text → Option Text → Result ConfigError (Option Text)
unfolding secret_of_file optional get
secret_from env name none = ok (optional (var env name))
secret_from env name (some file) = secret_of_file name file (env.read_file file)

-- A secret from NAME, or from the file named by NAME_FILE.
unfoldable pub secret : Env → Text → Result ConfigError (Option Text)
unfolding secret_from optional txt get
secret env name = secret_from env name (optional (var env (name ++ txt "_FILE")))
