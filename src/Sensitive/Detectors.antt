-- ===== src/Sensitive/Detectors.antt =====
-- src/security/sensitive.ts: the detectors. Where a pattern is that of a redaction rule, it is taken
-- from there.
use kube_diagnostics_mcp.Common.{
  ℕ, zero, suc, Bool, true, false, not, ◌&&◌, ◌||◌, none, some, List, [], ◌∷◌, ◌++◌, Text, txt,
  ◌==◌, leb, take_last,
}
use kube_diagnostics_mcp.Regex.{
  Regex, empty, char, seq, rep, boundary, ahead, opt, lit, lit_i, any_of, seqs, many, many1,
}
use kube_diagnostics_mcp.Regex.Classes.{is_alnum, is_digit, is_letter, is_space}
use kube_diagnostics_mcp.Sanitize.Rules.{
  url_char, userinfo_char, scheme_char, token_char, colon_or_equals, quote, pem_char, equals, dash,
  jwt_rule, aws_rule, github_rule, slack_rule, google_rule, stripe_rule,
}
use kube_diagnostics_mcp.Sensitive.{
  SensitiveKind, email, credit_card, us_ssn, phone, jwt, aws_access_key, gcp_api_key, github_token,
  slack_token, stripe_key, bearer_token, basic_auth, connection_string, private_key,
  credential_assignment, Confidence, high, medium, low, Detector,
}
use kube_diagnostics_mcp.Sensitive.Masks.{
  luhn_valid, mask_middle, mask_email, through_assignment, through_scheme, without_gaps,
}
use kube_diagnostics_mcp.Strings.{slice_to, slice_from}

abbrev any_match : Text → Bool
any_match m = true

abbrev detector : SensitiveKind → Confidence → Regex → (Text → Text) → Detector
detector kind confidence pattern mask = record {
  kind = kind;
  pattern = pattern;
  confidence = confidence;
  validate = any_match;
  mask = mask;
}

abbrev digits : ℕ → Regex
digits n = rep true n (some n) is_digit

pem_pattern : Regex
unfolding txt
pem_pattern = seqs (lit (txt "-----BEGIN ") ∷ many pem_char ∷ lit (txt "PRIVATE KEY-----") ∷ [])

connection_pattern : Regex
unfolding txt
connection_pattern = seqs (
    boundary
    ∷ char is_letter
    ∷ rep true 1 (some 30) scheme_char
    ∷ lit (txt "://")
    ∷ many userinfo_char
    ∷ lit (txt ":")
    ∷ many1 userinfo_char
    ∷ lit (txt "@")
    ∷ many1 url_char
    ∷ [])

bearer_pattern : Regex
unfolding txt
bearer_pattern = seqs (
    boundary ∷ lit (txt "Bearer") ∷ many1 is_space ∷ rep true 16 none token_char ∷ many equals ∷ [])

basic_pattern : Regex
unfolding txt
basic_pattern = seqs (
    boundary
    ∷ lit (txt "Basic")
    ∷ many1 is_space
    ∷ rep true 12 none (λ c. is_alnum c || c == b'+' || c == b'/')
    ∷ many equals
    ∷ [])

assignment_pattern : Regex
unfolding txt
assignment_pattern = seqs (
    boundary
    ∷ any_of
        (seqs (
          any_of (lit_i (txt "api")) (
            lit_i (txt "access")
            ∷ lit_i (txt "auth")
            ∷ lit_i (txt "client")
            ∷ lit_i (txt "private")
            ∷ lit_i (txt "secret")
            ∷ lit_i (txt "app")
            ∷ [])
          ∷ dash
          ∷ any_of (lit_i (txt "key")) (lit_i (txt "token") ∷ lit_i (txt "secret") ∷ [])
          ∷ []))
        (lit_i (txt "password")
          ∷ lit_i (txt "passwd")
          ∷ lit_i (txt "pwd")
          ∷ lit_i (txt "secret")
          ∷ lit_i (txt "token")
          ∷ [])
    ∷ many is_space
    ∷ char colon_or_equals
    ∷ many is_space
    ∷ opt (char quote)
    ∷ rep true 6 none (λ c. not (is_space c || quote c || c == b'&' || c == b',' || c == b';'))
    ∷ opt (char quote)
    ∷ [])

-- `\d[ -]?`
abbrev card_digit : Regex
card_digit = seq (char is_digit) (opt (char (λ c. c == b' ' || c == b'-')))

-- `x{lo,lo+more}` of a pattern
abbrev at_most : ℕ → Regex → Regex
at_most zero x = empty
at_most (suc n) x = opt (seq x (at_most n x))

abbrev times : ℕ → ℕ → Regex → Regex
times zero more x = at_most more x
times (suc n) more x = seq x (times n more x)

card_pattern : Regex
card_pattern = seqs (boundary ∷ times 13 6 card_digit ∷ boundary ∷ [])

ssn_pattern : Regex
unfolding txt
ssn_pattern = seqs (
    boundary
    ∷ ahead false (
        any_of (lit (txt "000"))
          (lit (txt "666") ∷ seqs (lit (txt "9") ∷ char is_digit ∷ char is_digit ∷ []) ∷ []))
    ∷ digits 3
    ∷ lit (txt "-")
    ∷ ahead false (lit (txt "00"))
    ∷ digits 2
    ∷ lit (txt "-")
    ∷ ahead false (lit (txt "0000"))
    ∷ digits 4
    ∷ boundary
    ∷ [])

email_pattern : Regex
unfolding txt
email_pattern = seqs (
    boundary
    ∷ many1 (λ c. is_alnum c || c == b'.' || c == b'_' || c == b'%' || c == b'+' || c == b'-')
    ∷ lit (txt "@")
    ∷ many1 (λ c. is_alnum c || c == b'.' || c == b'-')
    ∷ lit (txt ".")
    ∷ rep true 2 none is_letter
    ∷ boundary
    ∷ [])

-- `[ -.]`, which is a range of the character codes 32 to 46
abbrev phone_gap : Regex
phone_gap = char (λ c. leb b' ' c && leb c b'.')

phone_pattern : Regex
unfolding txt
phone_pattern = seqs (
    opt (seqs (lit (txt "+1") ∷ phone_gap ∷ []))
    ∷ opt (lit (txt "("))
    ∷ boundary
    ∷ char (λ c. leb b'2' c && leb c b'9')
    ∷ digits 2
    ∷ opt (lit (txt ")"))
    ∷ phone_gap
    ∷ digits 3
    ∷ phone_gap
    ∷ digits 4
    ∷ boundary
    ∷ [])

abbrev mask_card : Text → Text
unfolding without_gaps take_last txt
mask_card m = let ds = without_gaps m in slice_to 2 ds ++ (txt "** **** **** " ++ take_last 2 ds)

unfoldable pub detectors : List Detector
unfolding pem_pattern connection_pattern bearer_pattern basic_pattern assignment_pattern
    card_pattern ssn_pattern email_pattern phone_pattern jwt_rule aws_rule github_rule slack_rule
    google_rule stripe_rule mask_middle mask_email through_assignment through_scheme luhn_valid
    mask_card take_last txt
detectors =
    detector private_key high pem_pattern (λ m. txt "-----BEGIN ***PRIVATE KEY-----")
    ∷ detector aws_access_key high aws_rule.pattern (λ m. mask_middle m 4)
    ∷ detector gcp_api_key high google_rule.pattern (λ m. mask_middle m 4)
    ∷ detector github_token high github_rule.pattern (λ m. mask_middle m 4)
    ∷ detector slack_token high slack_rule.pattern (λ m. mask_middle m 4)
    ∷ detector stripe_key high stripe_rule.pattern (λ m. mask_middle m 7)
    ∷ detector jwt high jwt_rule.pattern (λ m. mask_middle m 6)
    ∷ detector connection_string high connection_pattern
        (λ m. through_scheme m ++ txt "***:***@***")
    ∷ detector bearer_token medium bearer_pattern
        (λ m. txt "Bearer " ++ mask_middle (slice_from 7 m) 3)
    ∷ detector basic_auth medium basic_pattern (λ m. txt "Basic " ++ mask_middle (slice_from 6 m) 3)
    ∷ detector credential_assignment medium assignment_pattern
        (λ m. through_assignment m ++ txt "***")
    ∷ record {
      kind = credit_card;
      pattern = card_pattern;
      confidence = high;
      validate = luhn_valid;
      mask = mask_card;
    }
    ∷ detector us_ssn medium ssn_pattern (λ m. txt "***-**-****")
    ∷ detector email high email_pattern mask_email
    ∷ detector phone low phone_pattern (λ m. slice_to 3 m ++ (txt "***" ++ take_last 2 m))
    ∷ []
