-- ===== src/Sensitive/Scan.antt =====
-- src/security/sensitive.ts: `scanForSensitiveData`.
use kube_diagnostics_mcp.Common.{
  ℕ, suc, ◌+◌, Bool, not, ◌&&◌, ◌||◌, Option, List, [], ◌∷◌, ◌++◌, any, Text, length, ltb, last_or,
  if◌then◌else◌, ◌==◌, or_else, sort_by,
}
use kube_diagnostics_mcp.Regex.{Regex, Piece, plain, found, pieces}
use kube_diagnostics_mcp.Sensitive.{
  SensitiveKind, email, credit_card, us_ssn, phone, ipv4_private, jwt, aws_access_key, gcp_api_key,
  github_token, slack_token, stripe_key, bearer_token, basic_auth, connection_string, private_key,
  credential_assignment, Confidence, high, medium, low, SensitiveFinding, Detector,
}
use kube_diagnostics_mcp.Sensitive.Detectors.{detectors}

-- The place of a kind in its type, by which kinds are compared.
unfoldable pub kind_index : SensitiveKind → ℕ
kind_index email = 0
kind_index credit_card = 1
kind_index us_ssn = 2
kind_index phone = 3
kind_index ipv4_private = 4
kind_index jwt = 5
kind_index aws_access_key = 6
kind_index gcp_api_key = 7
kind_index github_token = 8
kind_index slack_token = 9
kind_index stripe_key = 10
kind_index bearer_token = 11
kind_index basic_auth = 12
kind_index connection_string = 13
kind_index private_key = 14
kind_index credential_assignment = 15

abbrev pub same_kind : SensitiveKind → SensitiveKind → Bool
unfolding kind_index
same_kind k j = kind_index k == kind_index j

unfoldable pub found_texts : List Piece → List Text
found_texts [] = []
found_texts (plain c ∷ ps) = found_texts ps
found_texts (found m cs ∷ ps) = m ∷ found_texts ps

-- The matches of the `exec` loop, in order.
unfoldable pub matches : Regex → Text → List Text
unfolding pieces found_texts
matches x s = found_texts (pieces (suc (length s)) x [] s)

-- A location is recorded once in a row, while there is room.
unfoldable pub note_location : ℕ → ℕ → List ℕ → List ℕ
note_location most line locations =
    if ltb (length locations) most && not (last_or locations 0 == line)
    then locations ++ line ∷ []
    else locations

unfoldable pub bump : ℕ → ℕ → SensitiveFinding → SensitiveFinding
unfolding note_location
bump most line f = record f { count = f.count + 1; locations = note_location most line f.locations }

abbrev pub new_finding : Detector → Text → SensitiveFinding
new_finding d value = record {
  kind = d.kind;
  confidence = d.confidence;
  count = 0;
  sample = d.mask value;
  locations = [];
}

-- The finding of the detector's kind is counted up, or a new one is put behind the others.
unfoldable pub add_match : ℕ → ℕ → Detector → Text → List SensitiveFinding → List SensitiveFinding
unfolding bump same_kind
add_match most line d value [] = bump most line (new_finding d value) ∷ []
add_match most line d value (f ∷ fs) =
    if same_kind f.kind d.kind then bump most line f ∷ fs else f ∷ add_match most line d value fs

unfoldable pub add_matches :
    ℕ → ℕ → Detector → List Text → List SensitiveFinding → List SensitiveFinding
unfolding add_match
add_matches most line d [] fs = fs
add_matches most line d (value ∷ values) fs =
    add_matches most line d values (if d.validate value then add_match most line d value fs else fs)

unfoldable pub is_excluded : List SensitiveKind → SensitiveKind → Bool
unfolding any same_kind
is_excluded exclude k = any (same_kind k) exclude

unfoldable pub scan_record :
    ℕ
    → List SensitiveKind
    → ℕ
    → Text
    → List Detector
    → List SensitiveFinding
    → List SensitiveFinding
unfolding add_matches matches is_excluded
scan_record most exclude line text [] fs = fs
scan_record most exclude line text (d ∷ ds) fs =
    scan_record most exclude line text ds (
      if is_excluded exclude d.kind
      then fs
      else add_matches most line d (matches d.pattern text) fs)

-- The records from the number `line` on.
unfoldable pub scan_records :
    ℕ → List SensitiveKind → ℕ → List Text → List SensitiveFinding → List SensitiveFinding
unfolding scan_record detectors
scan_records most exclude line [] fs = fs
scan_records most exclude line (r ∷ rs) fs =
    scan_records most exclude (line + 1) rs (scan_record most exclude line r detectors fs)

unfoldable pub confidence_order : Confidence → ℕ
confidence_order high = 0
confidence_order medium = 1
confidence_order low = 2

-- Whether a finding stands behind another: by confidence, then by count.
unfoldable pub comes_after : SensitiveFinding → SensitiveFinding → Bool
unfolding confidence_order
comes_after f g =
    let a = confidence_order f.confidence in
    let b = confidence_order g.confidence in ltb b a || a == b && ltb f.count g.count

unfoldable pub scan_for_sensitive_data :
    List Text → Option ℕ → List SensitiveKind → List SensitiveFinding
unfolding scan_records sort_by comes_after
scan_for_sensitive_data records most exclude =
    sort_by comes_after (scan_records (or_else most 10) exclude 1 records [])
