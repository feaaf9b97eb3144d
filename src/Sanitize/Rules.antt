-- ===== src/Sanitize/Rules.antt =====
-- src/security/sanitize.ts: the redaction rules and `redactText`.
use kube_diagnostics_mcp.Common.{
  ℕ, Bool, true, false, not, ◌&&◌, ◌||◌, none, some, List, [], ◌∷◌, ◌++◌, Text, txt, or_else, ◌==◌,
}
use kube_diagnostics_mcp.Regex.{
  Regex, char, seq, alt, rep, group, boundary, opt, lit, lit_i, any_of, seqs, many, many1, Captures,
  capture, replace,
}
use kube_diagnostics_mcp.Regex.Classes.{is_upper, is_letter, is_digit, is_alnum, is_word, is_space}

abbrev pub redacted : Text
redacted = txt "[REDACTED]"

pub record RedactionRule : Type 0 where
  pub pattern : Regex
  pub replacement : Text → Captures → Text

-- `m[n]` of a group that is in every match of its pattern
abbrev group_text : ℕ → Captures → Text
group_text n cs = or_else (capture n cs) []

-- `[^\s"'<>]`
abbrev pub url_char : ℕ → Bool
url_char c = not (is_space c || c == b'"' || c == b'\'' || c == b'<' || c == b'>')

-- `[^\s"'<>@/]`
abbrev pub userinfo_char : ℕ → Bool
userinfo_char c = url_char c && not (c == b'@' || c == b'/')

-- `[a-z0-9+.-]` under the `i` flag
abbrev pub scheme_char : ℕ → Bool
scheme_char c = is_alnum c || c == b'+' || c == b'.' || c == b'-'

-- `[\w\-.~+/]`
abbrev pub token_char : ℕ → Bool
token_char c = is_word c || c == b'-' || c == b'.' || c == b'~' || c == b'+' || c == b'/'

-- `[\w-]`
abbrev pub jwt_char : ℕ → Bool
jwt_char c = is_word c || c == b'-'

-- `[:=]`
abbrev pub colon_or_equals : ℕ → Bool
colon_or_equals c = c == b':' || c == b'='

-- `["']`
abbrev pub quote : ℕ → Bool
quote c = c == b'"' || c == b'\''

-- `[A-Z ]`
abbrev pub pem_char : ℕ → Bool
pem_char c = is_upper c || c == b' '

abbrev pub equals : ℕ → Bool
equals c = c == b'='

abbrev pub dash : Regex
dash = opt (char (λ c. c == b'_' || c == b'-'))

connection_rule : RedactionRule
unfolding txt
connection_rule = record {
  pattern = seqs (
      boundary
      ∷ group 1 (seq (char is_letter) (rep true 1 (some 30) scheme_char))
      ∷ lit (txt "://")
      ∷ many userinfo_char
      ∷ lit (txt ":")
      ∷ many1 userinfo_char
      ∷ lit (txt "@")
      ∷ many1 url_char
      ∷ []);
  replacement = λ m cs. group_text 1 cs ++ (txt "://" ++ (redacted ++ txt "@[host]"));
}

database_rule : RedactionRule
unfolding txt
database_rule = record {
  pattern = seqs (
      boundary
      ∷ group 1 (
          alt (seq (lit_i (txt "postgres")) (opt (lit_i (txt "ql"))))
            (seq (lit_i (txt "jdbc:")) (many1 is_letter)))
      ∷ lit (txt "://")
      ∷ many1 url_char
      ∷ []);
  replacement = λ m cs. group_text 1 cs ++ (txt "://" ++ redacted);
}

authorization_rule : RedactionRule
unfolding txt
authorization_rule = record {
  pattern = seqs (
      boundary
      ∷ group 1 (
          seqs (
            lit_i (txt "authorization")
            ∷ many is_space
            ∷ char colon_or_equals
            ∷ many is_space
            ∷ []))
      ∷ group 2 (alt (lit_i (txt "bearer")) (lit_i (txt "basic")))
      ∷ many1 is_space
      ∷ many1 token_char
      ∷ many equals
      ∷ []);
  replacement = λ m cs. group_text 1 cs ++ (group_text 2 cs ++ (txt " " ++ redacted));
}

bearer_rule : RedactionRule
unfolding txt
bearer_rule = record {
  pattern = seqs (
      boundary
      ∷ group 1 (alt (lit (txt "Bearer")) (lit (txt "Basic")))
      ∷ many1 is_space
      ∷ rep true 8 none token_char
      ∷ many equals
      ∷ []);
  replacement = λ m cs. group_text 1 cs ++ (txt " " ++ redacted);
}

unfoldable pub jwt_rule : RedactionRule
unfolding txt
jwt_rule = record {
  pattern = seqs (
      boundary
      ∷ lit (txt "eyJ")
      ∷ rep true 10 none jwt_char
      ∷ lit (txt ".")
      ∷ rep true 10 none jwt_char
      ∷ lit (txt ".")
      ∷ rep true 10 none jwt_char
      ∷ boundary
      ∷ []);
  replacement = λ m cs. txt "[REDACTED_JWT]";
}

assignment_rule : RedactionRule
unfolding txt
assignment_rule = record {
  pattern = seqs (
      boundary
      ∷ group 1 (
          seq (rep false 0 none (λ c. is_word c || c == b'.' || c == b'-')) (
            any_of
              (seqs (
                any_of (lit_i (txt "api")) (
                  lit_i (txt "access")
                  ∷ lit_i (txt "auth")
                  ∷ lit_i (txt "client")
                  ∷ lit_i (txt "private")
                  ∷ lit_i (txt "secret")
                  ∷ lit_i (txt "app")
                  ∷ lit_i (txt "application")
                  ∷ [])
                ∷ dash
                ∷ any_of (lit_i (txt "key")) (lit_i (txt "token") ∷ lit_i (txt "secret") ∷ [])
                ∷ []))
              (lit_i (txt "secret")
                ∷ lit_i (txt "password")
                ∷ lit_i (txt "passwd")
                ∷ lit_i (txt "pwd")
                ∷ lit_i (txt "token")
                ∷ seq (lit_i (txt "credential")) (opt (lit_i (txt "s")))
                ∷ seqs (lit_i (txt "database") ∷ dash ∷ lit_i (txt "url") ∷ [])
                ∷ seqs (lit_i (txt "connection") ∷ dash ∷ lit_i (txt "string") ∷ [])
                ∷ seqs (lit_i (txt "jdbc") ∷ dash ∷ lit_i (txt "url") ∷ [])
                ∷ [])))
      ∷ many is_space
      ∷ char colon_or_equals
      ∷ many is_space
      ∷ opt (char quote)
      ∷ rep true 4 none (λ c. not (is_space c || quote c || c == b'&' || c == b',' || c == b';'))
      ∷ opt (char quote)
      ∷ []);
  replacement = λ m cs. group_text 1 cs ++ (txt "=" ++ redacted);
}

pem_rule : RedactionRule
unfolding txt
pem_rule = record {
  pattern = seqs (
      lit (txt "-----BEGIN ")
      ∷ many pem_char
      ∷ lit (txt "PRIVATE KEY-----")
      ∷ rep false 0 none (λ c. true)
      ∷ lit (txt "-----END ")
      ∷ many pem_char
      ∷ lit (txt "PRIVATE KEY-----")
      ∷ []);
  replacement = λ m cs. redacted;
}

-- A key shape between two word boundaries, replaced whole.
abbrev key_rule : List Regex → RedactionRule
key_rule parts = record {
  pattern = seqs (boundary ∷ (parts ++ boundary ∷ []));
  replacement = λ m cs. redacted;
}

unfoldable pub aws_rule : RedactionRule
unfolding txt
aws_rule = key_rule (
    alt (lit (txt "AKIA")) (lit (txt "ASIA"))
    ∷ rep true 16 (some 16) (λ c. is_digit c || is_upper c)
    ∷ [])

unfoldable pub github_rule : RedactionRule
unfolding txt
github_rule = key_rule (
    lit (txt "gh")
    ∷ char (λ c. c == b'p' || c == b'o' || c == b'u' || c == b's' || c == b'r')
    ∷ lit (txt "_")
    ∷ rep true 20 none is_alnum
    ∷ [])

unfoldable pub slack_rule : RedactionRule
unfolding txt
slack_rule = key_rule (
    lit (txt "xox")
    ∷ char (λ c. c == b'b' || c == b'a' || c == b'p' || c == b'r' || c == b's')
    ∷ lit (txt "-")
    ∷ rep true 10 none (λ c. is_alnum c || c == b'-')
    ∷ [])

unfoldable pub google_rule : RedactionRule
unfolding txt
google_rule = key_rule (lit (txt "AIza") ∷ rep true 35 (some 35) jwt_char ∷ [])

unfoldable pub stripe_rule : RedactionRule
unfolding txt
stripe_rule = key_rule (
    char (λ c. c == b's' || c == b'r')
    ∷ lit (txt "k_")
    ∷ alt (lit (txt "live")) (lit (txt "test"))
    ∷ lit (txt "_")
    ∷ rep true 16 none is_alnum
    ∷ [])

unfoldable pub rules : List RedactionRule
unfolding connection_rule database_rule authorization_rule bearer_rule jwt_rule assignment_rule
    pem_rule aws_rule github_rule slack_rule google_rule stripe_rule
rules =
    connection_rule ∷ database_rule ∷ authorization_rule ∷ bearer_rule ∷ jwt_rule ∷ assignment_rule
    ∷ pem_rule ∷ aws_rule ∷ github_rule ∷ slack_rule ∷ google_rule ∷ stripe_rule ∷ []

unfoldable pub apply_rules : List RedactionRule → Text → Text
apply_rules [] out = out
apply_rules (rule ∷ more) out = apply_rules more (replace rule.pattern rule.replacement out)

unfoldable pub redact_text : Text → Text
unfolding rules apply_rules replace
redact_text input = apply_rules rules input
